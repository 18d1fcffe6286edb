-- ===== src/Model/Table.antt =====
-- The host's table of windows, and how the records agree with it.
use magicdesk_x.Prelude.{
  ℕ, ◌≡◌, refl, sym, ◌∙◌, ◌⊎◌, inl, inr, Bool, true, false, ◌&&◌, Option, none, some, List, [], ◌∷◌,
  ◌++◌, ◌==◌, if◌then◌else◌, Bool-cases, All,
}
use magicdesk_x.Model.{
  WindowRecord, RecordInfo, ModelState, ModelEffect, window_told, window_removed,
}
use magicdesk_x.Model.Records.{is_live, find_live}
use magicdesk_x.Model.Publish.{info_of}

-- What the host keeps of the window with an id, after an effect and after a list of effects.
abbrev pub hear : ℕ → Option RecordInfo → ModelEffect → Option RecordInfo
hear id x (window_told j info part) = if j == id then some info else x
hear id x (window_removed j) = if j == id then none else x
hear id x _ = x

abbrev pub hear_all : ℕ → Option RecordInfo → List ModelEffect → Option RecordInfo
hear_all id x [] = x
hear_all id x (e ∷ es) = hear_all id (hear id x e) es

pub hear_all-append :
    (id : ℕ) (x : Option RecordInfo) (first second : List ModelEffect)
    → hear_all id x (first ++ second) ≡ hear_all id (hear_all id x first) second
hear_all-append id x [] second = refl
hear_all-append id x (e ∷ first) second = hear_all-append id (hear id x e) first second

abbrev pub Host : Type 0
Host = ℕ → Option RecordInfo

-- The host's table after a list of effects.
abbrev pub heard : Host → List ModelEffect → Host
heard h es id = hear_all id (h id) es

-- A record that the host has been told of, with this id.
abbrev pub is_told : ℕ → WindowRecord → Bool
is_told id r = r.published && r.id == id

-- The host knows what the record says, or the record will be told again.
abbrev pub IsKnown : ℕ → Option RecordInfo → WindowRecord → Type 0
IsKnown manager x r = (r.changed ≡ true) ⊎ (x ≡ some (info_of manager r))

abbrev pub IsUntold : ℕ → List WindowRecord → Type 0
IsUntold id rs = All (λ r. is_told id r ≡ false) rs

-- Of the records with an id, at most one is told, and the host knows it; if none is, it has no entry.
abbrev pub IsKept : ℕ → ℕ → Option RecordInfo → List WindowRecord → Type 0
IsKept manager id x [] = x ≡ none
IsKept manager id x (r ∷ rest) =
    (is_told id r ≡ true → IsKnown manager x r × IsUntold id rest)
    × (is_told id r ≡ false → IsKept manager id x rest)

abbrev pub HasNoLive : ℕ → List WindowRecord → Type 0
HasNoLive id rs = All (λ r. is_live id r ≡ false) rs

-- At most one live record has an id.
abbrev pub HasOneLive : ℕ → List WindowRecord → Type 0
HasOneLive id [] = Unit
HasOneLive id (r ∷ rest) = (is_live id r ≡ true → HasNoLive id rest) × HasOneLive id rest

-- The records agree with the host's table.
pub record IsSynced (s : ModelState) (h : Host) : Type 0 where
  pub kept : (id : ℕ) → IsKept s.manager id (h id) s.records
  pub single : (id : ℕ) → HasOneLive id s.records

-- A record that has changed as far as its id is concerned: what is told stays told, nothing comes back
-- to life, and what it says is the same or will be told.
pub record IsTouched (m n id : ℕ) (r t : WindowRecord) : Type 0 where
  pub told : is_told id t ≡ is_told id r
  pub live : is_live id r ≡ false → is_live id t ≡ false
  pub says : is_told id t ≡ true → (x : Option RecordInfo) → IsKnown m x r → IsKnown n x t

abbrev pub AreTouched : ℕ → ℕ → ℕ → List WindowRecord → List WindowRecord → Type 0
AreTouched m n id [] [] = Unit
AreTouched m n id [] (t ∷ ts) = ⊥
AreTouched m n id (r ∷ rs) [] = ⊥
AreTouched m n id (r ∷ rs) (t ∷ ts) = IsTouched m n id r t × AreTouched m n id rs ts

touched-IsUntold :
    (m n id : ℕ) (rs ts : List WindowRecord)
    → AreTouched m n id rs ts
    → IsUntold id rs
    → IsUntold id ts
touched-IsUntold m n id [] [] a u = u
touched-IsUntold m n id [] (t ∷ ts) a u = absurd a
touched-IsUntold m n id (r ∷ rs) [] a u = absurd a
touched-IsUntold m n id (r ∷ rs) (t ∷ ts) (p, a) (e, u) =
    (p.told ∙ e, touched-IsUntold m n id rs ts a u)

pub touched-IsKept :
    (m n id : ℕ) (x : Option RecordInfo) (rs ts : List WindowRecord)
    → AreTouched m n id rs ts
    → IsKept m id x rs
    → IsKept n id x ts
touched-IsKept m n id x [] [] a k = k
touched-IsKept m n id x [] (t ∷ ts) a k = absurd a
touched-IsKept m n id x (r ∷ rs) [] a k = absurd a
touched-IsKept m n id x (r ∷ rs) (t ∷ ts) (p, a) (k, l) = (
  λ e.
      let (known, rest) = k (sym p.told ∙ e) in
      (p.says e x known, touched-IsUntold m n id rs ts a rest),
  λ e. touched-IsKept m n id x rs ts a (l (sym p.told ∙ e)),
)

pub touched-HasNoLive :
    (m n id : ℕ) (rs ts : List WindowRecord)
    → AreTouched m n id rs ts
    → HasNoLive id rs
    → HasNoLive id ts
touched-HasNoLive m n id [] [] a u = u
touched-HasNoLive m n id [] (t ∷ ts) a u = absurd a
touched-HasNoLive m n id (r ∷ rs) [] a u = absurd a
touched-HasNoLive m n id (r ∷ rs) (t ∷ ts) (p, a) (e, u) =
    (p.live e, touched-HasNoLive m n id rs ts a u)

was_live : (a b : Bool) → (a ≡ false → b ≡ false) → b ≡ true → a ≡ true
was_live true b h e = refl
was_live false b h e = absurd (cc (h refl, e))

pub touched-HasOneLive :
    (m n id : ℕ) (rs ts : List WindowRecord)
    → AreTouched m n id rs ts
    → HasOneLive id rs
    → HasOneLive id ts
touched-HasOneLive m n id [] [] a u = u
touched-HasOneLive m n id [] (t ∷ ts) a u = absurd a
touched-HasOneLive m n id (r ∷ rs) [] a u = absurd a
touched-HasOneLive m n id (r ∷ rs) (t ∷ ts) (p, a) (k, u) = (
  λ e. touched-HasNoLive m n id rs ts a (k (was_live (is_live id r) (is_live id t) p.live e)),
  touched-HasOneLive m n id rs ts a u,
)

-- A state whose records are those of another one, touched, agrees with the same table.
pub touched-IsSynced :
    (s t : ModelState) (h : Host)
    → ((id : ℕ) → AreTouched s.manager t.manager id s.records t.records)
    → IsSynced s h
    → IsSynced t h
touched-IsSynced s t h a y = record {
  kept = λ id. touched-IsKept s.manager t.manager id (h id) s.records t.records (a id) (y.kept id);
  single = λ id. touched-HasOneLive s.manager t.manager id s.records t.records (a id) (y.single id);
}

pub same-AreTouched : (m id : ℕ) (rs : List WindowRecord) → AreTouched m m id rs rs
same-AreTouched m id [] = tt
same-AreTouched m id (r ∷ rs) =
    (record { told = refl; live = λ e. e; says = λ e x k. k }, same-AreTouched m id rs)

-- The first live record with an id, or none.
pub find_none : (id : ℕ) (rs : List WindowRecord) → find_live id rs ≡ none → HasNoLive id rs
unfolding find_live
find_none id [] h = tt
find_none id (r ∷ rs) h = elim (Bool-cases (is_live id r)) [
  | inl e ↦ absurd (cc (h, e))
  | inr e ↦ (e, find_none id rs (rw (find_live, e) at h))
]
