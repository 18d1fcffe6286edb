-- ===== src/Shell/Laws.antt =====
-- The host's table of shell windows, as the messages build it, is the list of records.
use magicdesk_x.Prelude.{
  ℕ, suc, ◌≤◌, ◌≡◌, refl, sym, ap, ◌∙◌, inl, inr, Bool, true, false, not, ◌&&◌, ◌||◌, Option, none,
  some, List, [], ◌∷◌, ◌++◌, ◌==◌, if◌then◌else◌, Bool-cases, if-both, length,
}
use magicdesk_x.Shell.{
  ShellInfo, ShellRecord, ShellState, ShellEffect, shell_state, shell_info, shell_removed,
  screen_configured, windows_done, ShellOutcome, after, same_info, find_info, touched,
}

-- The host's table.
abbrev pub Table : Type 0
Table = List (ℕ × ShellInfo)

abbrev pub has : ℕ → Table → Bool
has id [] = false
has id ((w, i) ∷ rest) = w == id || has id rest

abbrev pub replaced : ℕ → ShellInfo → Table → Table
replaced id info [] = []
replaced id info ((w, i) ∷ rest) =
    if w == id then (w, info) ∷ rest else (w, i) ∷ replaced id info rest

abbrev pub removed : ℕ → Table → Table
removed id [] = []
removed id ((w, i) ∷ rest) = if w == id then rest else (w, i) ∷ removed id rest

-- What a message to an owner changes: a description is new or replaces one, a window goes, and all
-- go with the owner.
abbrev pub hear : ℕ → ShellEffect → Table → Table
hear owner (shell_info o id info) v = if has id v then replaced id info v else (id, info) ∷ v
hear owner (shell_removed o id) v = removed id v
hear owner (shell_state o available) v = if not available && o == owner then [] else v
hear owner (screen_configured width height) v = v
hear owner windows_done v = v

abbrev pub hear_all : ℕ → List ShellEffect → Table → Table
hear_all owner [] v = v
hear_all owner (e ∷ rest) v = hear_all owner rest (hear owner e v)

-- The table that the records say.
abbrev pub view : List ShellRecord → Table
view [] = []
view (r ∷ rest) = (r.window, r.info) ∷ view rest

pub hear_all-append :
    (owner : ℕ) (first second : List ShellEffect) (v : Table)
    → hear_all owner (first ++ second) v ≡ hear_all owner second (hear_all owner first v)
hear_all-append owner [] second v = refl
hear_all-append owner (e ∷ rest) second v = hear_all-append owner rest second (hear owner e v)

-- No window has two records.
abbrev pub IsUnique : List ShellRecord → Type 0
IsUnique [] = Unit
IsUnique (r ∷ rest) = (find_info r.window rest ≡ none) × IsUnique rest

-- What is kept of the records: each has its own window, and there are 32 at most.
pub record IsTable (s : ShellState) : Type 0 where
  pub unique : IsUnique s.records
  pub limited : length s.records ≤ 32
  pub owned : s.owner ≡ 0 → s.records ≡ []

pub find_some :
    (id : ℕ) (rs : List ShellRecord) (old : ShellInfo)
    → find_info id rs ≡ some old
    → has id (view rs) ≡ true
unfolding find_info
find_some id [] old h = absurd cc
find_some id (r ∷ rest) old h = elim (Bool-cases (r.window == id)) [
  | inl e ↦ rw e refl
  | inr e ↦ rw e (find_some id rest old (rw e at h))
]

pub find_none : (id : ℕ) (rs : List ShellRecord) → find_info id rs ≡ none → has id (view rs) ≡ false
unfolding find_info
find_none id [] h = refl
find_none id (r ∷ rest) h = elim (Bool-cases (r.window == id)) [
  | inl e ↦ let bad = rw e at h in absurd cc
  | inr e ↦ rw e (find_none id rest (rw e at h))
]

picked_first : (b : Bool) (x y : ShellInfo) → b ≡ true → (if b then x else y) ≡ x
picked_first true x y h = refl
picked_first false x y h = absurd cc

picked_second : (b : Bool) (x y : ShellInfo) → b ≡ false → (if b then x else y) ≡ y
picked_second true x y h = absurd cc
picked_second false x y h = refl

pub touched_same :
    (id : ℕ) (info old : ShellInfo) (rs : List ShellRecord)
    → find_info id rs ≡ some old
    → same_info old info ≡ true
    → view (touched id info rs) ≡ view rs
unfolding find_info touched
touched_same id info old [] h k = absurd cc
touched_same id info old (r ∷ rest) h k = elim (Bool-cases (r.window == id)) [
  | inl e ↦
      let f : some r.info ≡ some old = rw e at h in
      let same = ap (λ (o : Option ShellInfo). elim o [ none ↦ info | some i ↦ i ]) f in
      rw e (
        ap (λ i. (r.window, i) ∷ view rest)
          (picked_first (same_info r.info info) r.info info (ap (λ i. same_info i info) same ∙ k)))
  | inr e ↦ rw e (ap (λ v. (r.window, r.info) ∷ v) (touched_same id info old rest (rw e at h) k))
]

pub touched_new :
    (id : ℕ) (info old : ShellInfo) (rs : List ShellRecord)
    → find_info id rs ≡ some old
    → same_info old info ≡ false
    → view (touched id info rs) ≡ replaced id info (view rs)
unfolding find_info touched
touched_new id info old [] h k = absurd cc
touched_new id info old (r ∷ rest) h k = elim (Bool-cases (r.window == id)) [
  | inl e ↦
      let f : some r.info ≡ some old = rw e at h in
      let same = ap (λ (o : Option ShellInfo). elim o [ none ↦ info | some i ↦ i ]) f in
      rw e (
        ap (λ i. (r.window, i) ∷ view rest)
          (picked_second (same_info r.info info) r.info info (ap (λ i. same_info i info) same ∙ k)))
  | inr e ↦ rw e (ap (λ v. (r.window, r.info) ∷ v) (touched_new id info old rest (rw e at h) k))
]

find-touched :
    (id other : ℕ) (info : ShellInfo) (rs : List ShellRecord)
    → find_info other rs ≡ none
    → find_info other (touched id info rs) ≡ none
unfolding find_info touched
find-touched id other info [] h = refl
find-touched id other info (r ∷ rest) h = elim (Bool-cases (r.window == other)) [
  | inl e ↦ let bad = rw e at h in absurd cc
  | inr e ↦
      let later : find_info other rest ≡ none = rw e at h in
      elim (Bool-cases (r.window == id)) [
        | inl f ↦ rw (f, e) later
        | inr f ↦ rw (f, e) (find-touched id other info rest later)
      ]
]

pub touched-IsUnique :
    (id : ℕ) (info : ShellInfo) (rs : List ShellRecord)
    → IsUnique rs
    → IsUnique (touched id info rs)
unfolding touched
touched-IsUnique id info [] u = tt
touched-IsUnique id info (r ∷ rest) (h, u) =
    if-both IsUnique (r.window == id) _ (r ∷ touched id info rest) (λ e. (h, u))
      (λ e. (find-touched id r.window info rest h, touched-IsUnique id info rest u))

pub length-touched :
    (id : ℕ) (info : ShellInfo) (rs : List ShellRecord) → length (touched id info rs) ≡ length rs
unfolding touched
length-touched id info [] = refl
length-touched id info (r ∷ rest) =
    if-both (λ (l : List ShellRecord). length l ≡ suc (length rest)) (r.window == id) _
      (r ∷ touched id info rest) (λ e. refl) (λ e. ap suc (length-touched id info rest))

-- An operation keeps the table's invariant, the owner, and tells the host what the records say.
pub record IsTold (s : ShellState) (o : ShellOutcome) : Type 0 where
  pub table : IsTable o.0
  pub same_owner : o.0.owner ≡ s.owner
  pub heard : hear_all s.owner o.1 (view s.records) ≡ view o.0.records

pub nothing-IsTold : (s : ShellState) → IsTable s → IsTold s (s, [])
nothing-IsTold s t = record { table = t; same_owner = refl; heard = refl }

pub after-IsTold :
    (s : ShellState) (o : ShellOutcome) (next : ShellState → ShellOutcome)
    → IsTold s o
    → IsTold o.0 (next o.0)
    → IsTold s (after o next)
after-IsTold s (t, first) next h k =
    let kept : hear_all s.owner (next t).1 (view t.records) ≡ view (next t).0.records =
      ap (λ n. hear_all n (next t).1 (view t.records)) (sym h.same_owner) ∙ k.heard in
    record {
      table = k.table;
      same_owner = k.same_owner ∙ h.same_owner;
      heard =
          hear_all-append s.owner first (next t).1 (view s.records)
          ∙ ap (λ v. hear_all s.owner (next t).1 v) h.heard
          ∙ kept;
    }
