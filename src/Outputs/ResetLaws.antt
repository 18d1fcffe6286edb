-- ===== src/Outputs/ResetLaws.antt =====
-- What a reset of window_outputs.c leaves of the outputs.
use magicdesk_x.Prelude.{
  ℕ, zero, suc, ◌-◌, ◌≡◌, refl, sym, ap, ◌∙◌, ◌≢◌, ◌⊎◌, inl, inr, Bool, true, false, not, ◌&&◌,
  ◌||◌, List, [], ◌∷◌, map, arith, ◌==◌, Bool-cases, if-both, length,
}
use magicdesk_x.Prelude.Int.{pos, ltb_ℤ}
use magicdesk_x.Cursor.{CursorState, cursor_select, cursor_release}
use magicdesk_x.DirectInput.{DirectInput, direct_input_release, direct_input_pressed}
use magicdesk_x.DirectInput.Release.{direct_input_release-pressed}
use magicdesk_x.Outputs.{OutputSelection, borrowed, Server}
use magicdesk_x.Outputs.Leases.{release_input}
use magicdesk_x.Outputs.Commands.{release_selection, drop_output, orphaned, give_size}
use magicdesk_x.Outputs.Callbacks.{release_all, reset_outputs}

length-map :
    (f : OutputSelection → OutputSelection) (xs : List OutputSelection)
    → length (map f xs) ≡ length xs
length-map f [] = refl
length-map f (x ∷ xs) = ap suc (length-map f xs)

length-give_size :
    (window : ℕ) (selections : List OutputSelection)
    → length (give_size window selections) ≡ length selections
unfolding give_size
length-give_size window [] = refl
length-give_size window (o ∷ rest) =
    elim (Bool-cases
      (not o.dead && (not (borrowed o) && (o.window == window && ltb_ℤ (pos 0) o.width)))) [
        | inl e ↦ rw e refl
        | inr e ↦ rw e (ap suc (length-give_size window rest))
      ]

length-release_selection :
    (s : Server) (o : OutputSelection)
    → length (release_selection s o).0.selections ≡ length s.selections
unfolding release_selection
length-release_selection s o =
    let marked = length-map (orphaned o.id o.parent) s.selections in
    elim (Bool-cases o.owns_size) [
      | inl e ↦
          rw e (length-give_size o.window (map (orphaned o.id o.parent) s.selections) ∙ marked)
      | inr e ↦ rw e marked
    ]

no_length : (xs : List OutputSelection) → length xs ≡ 0 → xs ≡ []
no_length [] h = refl
no_length (o ∷ xs) h = absurd (omega arith)

length-drop_output :
    (selections : List OutputSelection) (direct : DirectInput) (cursor : CursorState)
    → let s : Server = record { selections = selections; direct = direct; cursor = cursor } in
      length (drop_output s 0).0.selections ≡ length selections - 1
unfolding drop_output
length-drop_output [] direct cursor = refl
length-drop_output (o ∷ rest) direct cursor =
    let s : Server = record { selections = rest; direct = direct; cursor = cursor } in
    length-release_selection s o ∙ omega arith

release_all-empty :
    (n : ℕ) (s : Server) → length s.selections ≡ n → (release_all n s).0.selections ≡ []
unfolding release_all
release_all-empty zero s h = no_length s.selections h
release_all-empty (suc n) s h =
    release_all-empty n (drop_output s 0).0
      (length-drop_output s.selections s.direct s.cursor ∙ omega arith)

reset_outputs-empty : (s : Server) → (reset_outputs s).0.selections ≡ []
unfolding reset_outputs
reset_outputs-empty s =
    release_all-empty (length s.selections) (record s { cursor = cursor_select s.cursor 0 0 }) refl

-- Whether an output of this id is there.
abbrev pub has_output : ℕ → List OutputSelection → Bool
has_output id [] = false
has_output id (o ∷ rest) = o.id == id || has_output id rest

has_output-map :
    (id parent k : ℕ) (selections : List OutputSelection)
    → has_output id (map (orphaned k parent) selections) ≡ has_output id selections
has_output-map id parent k [] = refl
has_output-map id parent k (o ∷ rest) = rw (has_output-map id parent k rest, orphaned_id) refl
  where
    orphaned_id : (orphaned k parent o).id ≡ o.id
    orphaned_id =
        if-both (λ (x : OutputSelection). x.id ≡ o.id) (o.parent == k) _ _
          (λ e.
            if-both (λ (x : OutputSelection). x.id ≡ o.id) (o.id == parent) _ o (λ f. refl)
              (λ f. refl))
          (λ e.
            if-both (λ (x : OutputSelection). x.id ≡ o.id) (o.id == parent) _ o (λ f. refl)
              (λ f. refl))

has_output-give_size :
    (id window : ℕ) (selections : List OutputSelection)
    → has_output id (give_size window selections) ≡ has_output id selections
unfolding give_size
has_output-give_size id window [] = refl
has_output-give_size id window (o ∷ rest) =
    if-both (λ l. has_output id l ≡ (o.id == id || has_output id rest))
      (not o.dead && (not (borrowed o) && (o.window == window && ltb_ℤ (pos 0) o.width))) _ _
      (λ e. refl) (λ e. rw (has_output-give_size id window rest) refl)

has_output-release_selection :
    (id : ℕ) (s : Server) (o : OutputSelection)
    → has_output id (release_selection s o).0.selections ≡ has_output id s.selections
unfolding release_selection
has_output-release_selection id s o =
    let marked = map (orphaned o.id o.parent) s.selections in
    let same = has_output-map id o.parent o.id s.selections in
    if-both (λ l. has_output id l ≡ has_output id s.selections) o.owns_size
      (give_size o.window marked) marked (λ e. has_output-give_size id o.window marked ∙ same)
      (λ e. same)

released_direct :
    (s : Server) (o : OutputSelection)
    → (release_selection s o).0.direct ≡ (direct_input_release s.direct o.id).0
unfolding release_selection release_input
released_direct s o = refl

-- A release of an output leaves nothing down on it, and nothing more on any other.
still_up :
    (d : DirectInput) (output id : ℕ)
    → direct_input_pressed d id ≡ false
    → direct_input_pressed (direct_input_release d output).0 id ≡ false
still_up d output id h = elim (Bool-cases (output == id)) [
  | inl e ↦
      let same : output ≡ id = ground arith in
      ap (λ k. direct_input_pressed (direct_input_release d output).0 k) (sym same)
      ∙ (direct_input_release-pressed d output (suc output) (λ k. absurd (omega arith))).0
  | inr e ↦
      let other : id ≢ output = ground arith in
      (direct_input_release-pressed d output id other).1 ∙ h
]

drop-still_up :
    (selections : List OutputSelection) (direct : DirectInput) (cursor : CursorState) (id : ℕ)
    → direct_input_pressed direct id ≡ false
    → let s : Server = record { selections = selections; direct = direct; cursor = cursor } in
      direct_input_pressed (drop_output s 0).0.direct id ≡ false
unfolding drop_output
drop-still_up [] direct cursor id h = h
drop-still_up (o ∷ rest) direct cursor id h =
    let s : Server = record { selections = rest; direct = direct; cursor = cursor } in
    ap (λ d. direct_input_pressed d id) (released_direct s o) ∙ still_up direct o.id id h

all-still_up :
    (n : ℕ) (s : Server) (id : ℕ)
    → direct_input_pressed s.direct id ≡ false
    → direct_input_pressed (release_all n s).0.direct id ≡ false
unfolding release_all
all-still_up zero s id h = h
all-still_up (suc n) s id h =
    all-still_up n (drop_output s 0).0 id (drop-still_up s.selections s.direct s.cursor id h)

-- The first output is released, and the others are still there.
drop-released :
    (selections : List OutputSelection) (direct : DirectInput) (cursor : CursorState) (id : ℕ)
    → has_output id selections ≡ true
    → let s : Server = record { selections = selections; direct = direct; cursor = cursor } in
      (direct_input_pressed (drop_output s 0).0.direct id ≡ false)
      ⊎ (has_output id (drop_output s 0).0.selections ≡ true)
unfolding drop_output
drop-released [] direct cursor id h = absurd (cc h)
drop-released (o ∷ rest) direct cursor id h =
    let s : Server = record { selections = rest; direct = direct; cursor = cursor } in
    elim (Bool-cases (o.id == id)) [
      | inl e ↦
          let same : o.id ≡ id = ground arith in
          inl (
            ap (λ d. direct_input_pressed d id) (released_direct s o)
            ∙ (ap (λ k. direct_input_pressed (direct_input_release direct o.id).0 k) (sym same)
                ∙ (direct_input_release-pressed direct o.id (suc o.id)
                    (λ k. absurd (omega arith))).0))
      | inr e ↦ inr (has_output-release_selection id s o ∙ (rw e at h))
    ]

all-released :
    (n : ℕ) (s : Server) (id : ℕ)
    → length s.selections ≡ n
    → has_output id s.selections ≡ true
    → direct_input_pressed (release_all n s).0.direct id ≡ false
unfolding release_all
all-released zero s id l h = absurd (cc (ap (has_output id) (sym (no_length s.selections l)) ∙ h))
all-released (suc n) s id l h = elim (drop-released s.selections s.direct s.cursor id h) [
  | inl up ↦ all-still_up n (drop_output s 0).0 id up
  | inr there ↦
      all-released n (drop_output s 0).0 id
        (length-drop_output s.selections s.direct s.cursor ∙ omega arith) there
]

cursor_release-none :
    (cursor : CursorState) (id : ℕ) → cursor.output ≡ 0 → (cursor_release cursor id).output ≡ 0
unfolding cursor_release cursor_select
cursor_release-none cursor id h = ground arith

drop-cursor :
    (selections : List OutputSelection) (direct : DirectInput) (cursor : CursorState)
    → cursor.output ≡ 0
    → let s : Server = record { selections = selections; direct = direct; cursor = cursor } in
      (drop_output s 0).0.cursor.output ≡ 0
unfolding drop_output release_selection
drop-cursor [] direct cursor h = h
drop-cursor (o ∷ rest) direct cursor h = cursor_release-none cursor o.id h

all-cursor : (n : ℕ) (s : Server) → s.cursor.output ≡ 0 → (release_all n s).0.cursor.output ≡ 0
unfolding release_all
all-cursor zero s h = h
all-cursor (suc n) s h =
    all-cursor n (drop_output s 0).0 (drop-cursor s.selections s.direct s.cursor h)

no_output : (cursor : CursorState) → (cursor_select cursor 0 0).output ≡ 0
unfolding cursor_select
no_output cursor = ground arith

and_absurd : (a b : Bool) → (a ≡ true → b ≡ false) → (a && b) ≡ false
and_absurd true b h = h refl
and_absurd false b h = refl

-- After a reset, whatever the outputs were and in whatever order: there is no output left, the cursor is
-- on no output, and on no output that was there is a touch or the tip of a tool down.
pub reset_outputs-released :
    (s : Server) (id : ℕ)
    → let t = (reset_outputs s).0 in
      (t.selections ≡ [])
      × ((t.cursor.output ≡ 0)
          × ((has_output id s.selections && direct_input_pressed t.direct id) ≡ false))
unfolding reset_outputs
reset_outputs-released s id =
    let n = length s.selections in
    let begun : Server = record s { cursor = cursor_select s.cursor 0 0 } in
    (
      reset_outputs-empty s,
      (
        all-cursor n begun (no_output s.cursor),
        and_absurd (has_output id s.selections)
            (direct_input_pressed (release_all n begun).0.direct id)
            (λ h. all-released n begun id refl h),
      ),
    )
