-- ===== src/Model/Removal.antt =====
-- What purging the records of destroyed windows and sweeping the unseen ones keep of the host's table.
use magicdesk_x.Prelude.{
  ℕ, ◌≡◌, refl, ◌∙◌, inl, inr, Bool, true, false, not, ◌&&◌, Option, none, some, List, [], ◌∷◌,
  ◌==◌, if◌then◌else◌, Bool-cases, if-both, not-true, All,
}
use magicdesk_x.Model.{WindowRecord, RecordInfo, ModelEffect, window_removed}
use magicdesk_x.Model.Records.{is_live, find_live}
use magicdesk_x.Model.Publish.{info_of, purge, sweep}
use magicdesk_x.Model.Table.{hear_all, is_told, IsKnown, IsUntold, IsKept, HasNoLive, HasOneLive}

abbrev pub Remaining : Type 0
Remaining = List WindowRecord × List ModelEffect

-- The branches of both loops: a record is kept, or dropped with or without a word.
abbrev keeping : WindowRecord → Remaining → Remaining
keeping r (kept, effects) = (r ∷ kept, effects)

abbrev telling : WindowRecord → Remaining → Remaining
telling r (kept, effects) = (kept, window_removed r.id ∷ effects)

pub untold_empty : (m id : ℕ) (rs : List WindowRecord) → IsUntold id rs → IsKept m id none rs
untold_empty m id [] u = refl
untold_empty m id (r ∷ rs) (e, u) = (λ h. absurd (cc (h, e)), λ h. untold_empty m id rs u)

module _ {ℓ} (P : WindowRecord → Type ℓ) where
  pub purge-All : (rs : List WindowRecord) → All P rs → All P (purge rs).0
  unfolding purge
  purge-All [] a = a
  purge-All (r ∷ rs) (p, a) =
      let later = purge rs in
      let rest = purge-All rs a in
      if-both (λ (o : Remaining). All P o.0) (not r.destroyed) (keeping r later)
        (if r.published then telling r later else later) (λ e. (p, rest))
        (λ e.
          if-both (λ (o : Remaining). All P o.0) r.published (telling r later) later (λ k. rest)
            (λ k. rest))

  pub sweep-All : (rs : List WindowRecord) → All P rs → All P (sweep rs).0
  unfolding sweep
  sweep-All [] a = a
  sweep-All (r ∷ rs) (p, a) =
      let later = sweep rs in
      let rest = sweep-All rs a in
      if-both (λ (o : Remaining). All P o.0) r.seen (keeping r later) (telling r later)
        (λ e. (p, rest)) (λ e. rest)

pub purge-live : (rs : List WindowRecord) → All (λ r. r.destroyed ≡ false) (purge rs).0
unfolding purge
purge-live [] = tt
purge-live (r ∷ rs) =
    let later = purge rs in
    let rest = purge-live rs in
    let P = λ (o : Remaining). All (λ (t : WindowRecord). t.destroyed ≡ false) o.0 in
    if-both P (not r.destroyed) (keeping r later) (if r.published then telling r later else later)
      (λ e. (not-true r.destroyed e, rest))
      (λ e. if-both P r.published (telling r later) later (λ k. rest) (λ k. rest))

pub sweep-seen : (rs : List WindowRecord) → All (λ r. r.seen ≡ true) (sweep rs).0
unfolding sweep
sweep-seen [] = tt
sweep-seen (r ∷ rs) =
    let later = sweep rs in
    let rest = sweep-seen rs in
    if-both (λ (o : Remaining). All (λ (t : WindowRecord). t.seen ≡ true) o.0) r.seen
      (keeping r later) (telling r later) (λ e. (e, rest)) (λ e. rest)

pub purge-HasOneLive :
    (id : ℕ) (rs : List WindowRecord) → HasOneLive id rs → HasOneLive id (purge rs).0
unfolding purge
purge-HasOneLive id [] u = u
purge-HasOneLive id (r ∷ rs) (k, u) =
    let later = purge rs in
    let rest = purge-HasOneLive id rs u in
    let P = λ (o : Remaining). HasOneLive id o.0 in
    if-both P (not r.destroyed) (keeping r later) (if r.published then telling r later else later)
      (λ e. (λ l. purge-All (λ t. is_live id t ≡ false) rs (k l), rest))
      (λ e. if-both P r.published (telling r later) later (λ q. rest) (λ q. rest))

pub sweep-HasOneLive :
    (id : ℕ) (rs : List WindowRecord) → HasOneLive id rs → HasOneLive id (sweep rs).0
unfolding sweep
sweep-HasOneLive id [] u = u
sweep-HasOneLive id (r ∷ rs) (k, u) =
    let later = sweep rs in
    let rest = sweep-HasOneLive id rs u in
    if-both (λ (o : Remaining). HasOneLive id o.0) r.seen (keeping r later) (telling r later)
      (λ e. (λ l. sweep-All (λ t. is_live id t ≡ false) rs (k l), rest)) (λ e. rest)

both_of : (a b : Bool) → a ≡ true → (a && b) ≡ false → b ≡ false
both_of true b e h = h
both_of false b e h = absurd cc

purge-silent :
    (id : ℕ) (rs : List WindowRecord) (x : Option RecordInfo)
    → IsUntold id rs
    → hear_all id x (purge rs).1 ≡ x
unfolding purge
purge-silent id [] x u = refl
purge-silent id (r ∷ rs) x (e, u) =
    let later = purge rs in
    let rest = purge-silent id rs x u in
    let P = λ (o : Remaining). hear_all id x o.1 ≡ x in
    if-both P (not r.destroyed) (keeping r later) (if r.published then telling r later else later)
      (λ d. rest)
      (λ d.
        if-both P r.published (telling r later) later
          (λ p. rw (hear_all, both_of r.published (r.id == id) p e) rest) (λ p. rest))

IsKnown-along :
    (m : ℕ) (x y : Option RecordInfo) (r : WindowRecord) → y ≡ x → IsKnown m x r → IsKnown m y r
IsKnown-along m x y r e (inl h) = inl h
IsKnown-along m x y r e (inr h) = inr (e ∙ h)

not_told : (a b : Bool) → a ≡ false → (a && b) ≡ false
not_told true b h = absurd cc
not_told false b h = refl

is_told_by : (a b : Bool) → a ≡ true → b ≡ true → (a && b) ≡ true
is_told_by true true h k = refl
is_told_by true false h k = k
is_told_by false b h k = h

pub other_id : (a b : Bool) → b ≡ false → (a && b) ≡ false
other_id true b h = h
other_id false b h = refl

pub purge-IsKept :
    (m id : ℕ) (rs : List WindowRecord) (x : Option RecordInfo)
    → IsKept m id x rs
    → IsKept m id (hear_all id x (purge rs).1) (purge rs).0
unfolding purge
purge-IsKept m id [] x k = k
purge-IsKept m id (r ∷ rs) x (k, l) =
    let later = purge rs in
    let P = λ (o : Remaining). IsKept m id (hear_all id x o.1) o.0 in
    if-both P (not r.destroyed) (keeping r later) (if r.published then telling r later else later)
      (λ d. (
        λ e.
            let (known, rest) = k e in
            (
              IsKnown-along m x (hear_all id x later.1) r (purge-silent id rs x rest) known,
              purge-All (λ t. is_told id t ≡ false) rs rest,
            ),
        λ e. purge-IsKept m id rs x (l e),
      ))
      (λ d.
        if-both P r.published (telling r later) later
          (λ p. elim (Bool-cases (r.id == id)) [
            | inl e ↦
                let (known, rest) = k (is_told_by r.published (r.id == id) p e) in
                rw (hear_all, e) (purge-IsKept m id rs none (untold_empty m id rs rest))
            | inr e ↦
                rw (hear_all, e) (purge-IsKept m id rs x (l (other_id r.published (r.id == id) e)))
          ])
          (λ p. purge-IsKept m id rs x (l (not_told r.published (r.id == id) p))))

-- No record has the id.
abbrev pub IsFree : ℕ → List WindowRecord → Type 0
IsFree id rs = All (λ r. (r.id == id) ≡ false) rs

abbrev pub AreLive : List WindowRecord → Type 0
AreLive rs = All (λ r. r.destroyed ≡ false) rs

live_of : (a b : Bool) → a ≡ false → (not a && b) ≡ false → b ≡ false
live_of true b h k = absurd cc
live_of false b h k = k

pub live_at : (a b : Bool) → a ≡ false → b ≡ true → (not a && b) ≡ true
live_at true b h k = absurd cc
live_at false b h k = k

pub IsFree-HasNoLive :
    (id : ℕ) (rs : List WindowRecord) → AreLive rs → HasNoLive id rs → IsFree id rs
IsFree-HasNoLive id [] a u = tt
IsFree-HasNoLive id (r ∷ rs) (d, a) (e, u) =
    (live_of r.destroyed (r.id == id) d e, IsFree-HasNoLive id rs a u)

pub free-IsUntold : (id : ℕ) (rs : List WindowRecord) → IsFree id rs → IsUntold id rs
free-IsUntold id [] u = tt
free-IsUntold id (r ∷ rs) (e, u) = (other_id r.published (r.id == id) e, free-IsUntold id rs u)

sweep-silent :
    (id : ℕ) (rs : List WindowRecord) (x : Option RecordInfo)
    → IsFree id rs
    → hear_all id x (sweep rs).1 ≡ x
unfolding sweep
sweep-silent id [] x u = refl
sweep-silent id (r ∷ rs) x (e, u) =
    let later = sweep rs in
    let rest = sweep-silent id rs x u in
    if-both (λ (o : Remaining). hear_all id x o.1 ≡ x) r.seen (keeping r later) (telling r later)
      (λ s. rest) (λ s. rw (hear_all, e) rest)

pub told-id : (a b : Bool) → (a && b) ≡ true → b ≡ true
told-id true b h = h
told-id false b h = absurd cc

pub sweep-IsKept :
    (m id : ℕ) (rs : List WindowRecord) (x : Option RecordInfo)
    → AreLive rs
    → HasOneLive id rs
    → IsKept m id x rs
    → IsKept m id (hear_all id x (sweep rs).1) (sweep rs).0
unfolding sweep
sweep-IsKept m id [] x a u k = k
sweep-IsKept m id (r ∷ rs) x (d, a) (o, u) (k, l) =
    let later = sweep rs in
    let alone : (r.id == id) ≡ true → IsFree id rs =
      λ e. IsFree-HasNoLive id rs a (o (live_at r.destroyed (r.id == id) d e)) in
    if-both (λ (p : Remaining). IsKept m id (hear_all id x p.1) p.0) r.seen (keeping r later)
      (telling r later)
      (λ s. (
        λ e.
            let free = alone (told-id r.published (r.id == id) e) in
            let (known, rest) = k e in
            (
              IsKnown-along m x (hear_all id x later.1) r (sweep-silent id rs x free) known,
              sweep-All (λ t. is_told id t ≡ false) rs rest,
            ),
        λ e. sweep-IsKept m id rs x a u (l e),
      ))
      (λ s. elim (Bool-cases (r.id == id)) [
        | inl e ↦
            rw (hear_all, e)
              (sweep-IsKept m id rs none a u (untold_empty m id rs (free-IsUntold id rs (alone e))))
        | inr e ↦
            rw (hear_all, e) (sweep-IsKept m id rs x a u (l (other_id r.published (r.id == id) e)))
      ])

abbrev pub told_of : ℕ → Option WindowRecord → Option RecordInfo
told_of m none = none
told_of m (some r) = some (info_of m r)

-- A record that the host knows as it is.
abbrev pub IsFresh : WindowRecord → Type 0
IsFresh r = (r.published ≡ true) × (r.changed ≡ false)

IsKnown-now :
    (m : ℕ) (x : Option RecordInfo) (r : WindowRecord)
    → r.changed ≡ false
    → IsKnown m x r
    → x ≡ some (info_of m r)
IsKnown-now m x r c (inl h) = absurd (cc (h, c))
IsKnown-now m x r c (inr h) = h

-- If all records are live, known and of different ids, the table is what they say.
pub IsKept-told :
    (m id : ℕ) (rs : List WindowRecord) (x : Option RecordInfo)
    → AreLive rs
    → All IsFresh rs
    → IsKept m id x rs
    → x ≡ told_of m (find_live id rs)
unfolding find_live
IsKept-told m id [] x a f k = k
IsKept-told m id (r ∷ rs) x (d, a) ((p, c), f) (k, l) =
    if-both (λ o. x ≡ told_of m o) (is_live id r) (some r) (find_live id rs)
      (λ e.
        IsKnown-now m x r c
          (k (is_told_by r.published (r.id == id) p (told-id (not r.destroyed) (r.id == id) e))).0)
      (λ e.
        IsKept-told m id rs x a f
          (l (other_id r.published (r.id == id) (live_of r.destroyed (r.id == id) d e))))
