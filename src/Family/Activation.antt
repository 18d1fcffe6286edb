-- ===== src/Family/Activation.antt =====
-- The windows that are raised with an owner, and the popup of a grab: the rest of window_family.h. The
-- ancestors of a window are the list of its parents, the nearest first.
use magicdesk_x.Prelude.{
  ℕ, suc, ◌+◌, ◌≤◌, ◌<◌, ◌≡◌, refl, sym, ap, ◌∙◌, inl, inr, Bool, true, false, List, [], ◌∷◌, ◌++◌,
  map, arith, leb, ◌==◌, if◌then◌else◌, Bool-cases, if-both, length, get_or, length-append,
}

pub record WindowActivation : Type 0 where
  pub members : List ℕ
  pub focus : ℕ
  pub truncated : Bool

-- `lorieWindowActivationAdd`.
unfoldable pub activation_add : WindowActivation → ℕ → Bool → WindowActivation
activation_add a window modal =
    if window == get_or a.members 0 0
    then a
    else if length a.members == 256
    then record a { truncated = true }
    else record {
      members = a.members ++ (window ∷ []);
      focus = if modal then window else a.focus;
      truncated = a.truncated;
    }

-- The ancestor below the root.
unfoldable pub top_of : ℕ → ℕ → List ℕ → ℕ
top_of root window [] = window
top_of root window (parent ∷ rest) =
    let top = top_of root parent rest in if parent == root then window else top

-- `lorieWindowActivationApply`: the windows that are raised, in order, and the one to focus or None.
unfoldable pub activation_apply : (ℕ → List ℕ) → ℕ → WindowActivation → List ℕ × ℕ
unfolding top_of
activation_apply ancestors root a =
    if a.truncated
    then ([], 0)
    else (map (λ window. top_of root window (ancestors window)) a.members, a.focus)

-- The members are collected from the family's walk, after the owner.
abbrev pub collect : WindowActivation → List (ℕ × Bool) → WindowActivation
collect a [] = a
collect a ((window, modal) ∷ rest) = collect (activation_add a window modal) rest

abbrev pub only_owner : ℕ → WindowActivation
only_owner owner = record { members = owner ∷ []; focus = owner; truncated = false }

-- Who is to be raised with the owner, and who then has the focus: the last modal one, if there is one.
abbrev others : ℕ → List (ℕ × Bool) → List ℕ
others owner [] = []
others owner ((window, modal) ∷ rest) =
    if window == owner then others owner rest else window ∷ others owner rest

abbrev last_modal : ℕ → ℕ → List (ℕ × Bool) → ℕ
last_modal owner focus [] = focus
last_modal owner focus ((window, modal) ∷ rest) =
    last_modal owner (if window == owner then focus else if modal then window else focus) rest

truncated_stays :
    (a : WindowActivation) (visits : List (ℕ × Bool))
    → a.truncated ≡ true
    → (collect a visits).truncated ≡ true
unfolding activation_add
truncated_stays a [] h = h
truncated_stays a ((window, modal) ∷ rest) h =
    truncated_stays (activation_add a window modal) rest (
      if-both (λ (b : WindowActivation). b.truncated ≡ true) (window == get_or a.members 0 0) a _
        (λ e. h)
        (λ e.
          if-both (λ (b : WindowActivation). b.truncated ≡ true) (length a.members == 256)
            (record a { truncated = true }) _ (λ k. refl) (λ k. h)))

abbrev active : ℕ → List ℕ → ℕ → WindowActivation
active owner ms focus = record { members = owner ∷ ms; focus = focus; truncated = false }

append_nil : (xs : List ℕ) → (xs ++ []) ≡ xs
append_nil [] = refl
append_nil (x ∷ xs) = ap (λ l. x ∷ l) (append_nil xs)

append_one : (xs ys : List ℕ) (x : ℕ) → ((xs ++ (x ∷ [])) ++ ys) ≡ (xs ++ (x ∷ ys))
append_one [] ys x = refl
append_one (a ∷ xs) ys x = ap (λ l. a ∷ l) (append_one xs ys x)

-- A window other than the owner is added while there is room.
added :
    (owner window : ℕ) (ms : List ℕ) (focus : ℕ) (modal : Bool)
    → (window == owner) ≡ false
    → suc (length ms) < 256
    → activation_add (active owner ms focus) window modal
      ≡ active owner (ms ++ (window ∷ [])) (if modal then window else focus)
unfolding activation_add
added owner window ms focus modal e room =
    rw (activation_add, e)
      (if-both
        (λ (a : WindowActivation).
          a ≡ active owner (ms ++ (window ∷ [])) (if modal then window else focus))
        (suc (length ms) == 256) _ _ (λ k. absurd (ground arith)) (λ k. refl))

left_out :
    (owner window : ℕ) (ms : List ℕ) (focus : ℕ) (modal : Bool)
    → (window == owner) ≡ true
    → activation_add (active owner ms focus) window modal ≡ active owner ms focus
unfolding activation_add
left_out owner window ms focus modal e = rw (activation_add, e) refl

overflows :
    (owner window : ℕ) (ms : List ℕ) (focus : ℕ) (modal : Bool)
    → (window == owner) ≡ false
    → suc (length ms) ≡ 256
    → (activation_add (active owner ms focus) window modal).truncated ≡ true
unfolding activation_add
overflows owner window ms focus modal e full =
    rw (activation_add, e)
      (if-both (λ (a : WindowActivation). a.truncated ≡ true) (suc (length ms) == 256) _ _
        (λ k. refl) (λ k. absurd (ground arith)))

collected :
    (owner : ℕ) (ms : List ℕ) (focus : ℕ) (visits : List (ℕ × Bool))
    → suc (length ms) + length (others owner visits) ≤ 256
    → collect (active owner ms focus) visits
      ≡ active owner (ms ++ others owner visits) (last_modal owner focus visits)
collected owner ms focus [] room = ap (λ l. active owner l focus) (sym (append_nil ms))
collected owner ms focus ((window, modal) ∷ rest) room = elim (Bool-cases (window == owner)) [
  | inl e ↦
      rw (left_out owner window ms focus modal e, e) (collected owner ms focus rest (rw e at room))
  | inr e ↦
      let fits : suc (length ms) + suc (length (others owner rest)) ≤ 256 = rw e at room in
      let shift = length-append ms (window ∷ []) in
      rw (added owner window ms focus modal e (omega arith), e)
        (collected owner (ms ++ (window ∷ [])) (if modal then window else focus) rest (omega arith)
          ∙ ap (λ l. active owner l (last_modal owner (if modal then window else focus) rest))
              (append_one ms (others owner rest) window))
]

cut_off :
    (owner : ℕ) (ms : List ℕ) (focus : ℕ) (visits : List (ℕ × Bool))
    → suc (length ms) ≤ 256
    → 256 < suc (length ms) + length (others owner visits)
    → (collect (active owner ms focus) visits).truncated ≡ true
cut_off owner ms focus [] room long = absurd (omega arith)
cut_off owner ms focus ((window, modal) ∷ rest) room long = elim (Bool-cases (window == owner)) [
  | inl e ↦
      ap (λ a. (collect a rest).truncated) (left_out owner window ms focus modal e)
      ∙ cut_off owner ms focus rest room (rw e at long)
  | inr e ↦
      let more : 256 < suc (length ms) + suc (length (others owner rest)) = rw e at long in
      let shift = length-append ms (window ∷ []) in
      elim (Bool-cases (suc (length ms) == 256)) [
        | inl k ↦
            truncated_stays (activation_add (active owner ms focus) window modal) rest
              (overflows owner window ms focus modal e (ground arith))
        | inr k ↦
            ap (λ a. (collect a rest).truncated)
              (added owner window ms focus modal e (ground arith))
            ∙ cut_off owner (ms ++ (window ∷ [])) (if modal then window else focus) rest
                (ground arith) (omega arith)
      ]
]

-- Raising the family of an owner: if it has no more than 255 other members, the owner and then each of
-- them, in the order of the walk, is raised by its ancestor below the root, and the focus is for the last
-- modal one of them or, if none is modal, for the owner; if it has more, nothing is raised and no window
-- gets the focus.
pub activation_apply-family :
    (ancestors : ℕ → List ℕ) (root owner : ℕ) (visits : List (ℕ × Bool))
    → activation_apply ancestors root (collect (only_owner owner) visits) ≡ (
        if leb (length (others owner visits)) 255
        then (
          map (λ w. top_of root w (ancestors w)) (owner ∷ others owner visits),
          last_modal owner owner visits,
        )
        else ([], 0))
unfolding activation_apply
activation_apply-family ancestors root owner visits =
    elim (Bool-cases (leb (length (others owner visits)) 255)) [
      | inl e ↦ rw (e, collected owner [] owner visits (ground arith)) refl
      | inr e ↦
          rw (activation_apply, e, cut_off owner [] owner visits (omega arith) (ground arith)) refl
    ]
