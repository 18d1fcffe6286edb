-- ===== src/Model/Updates.antt =====
-- What changing the record of one window, and making one, keep of the host's table.
use magicdesk_x.Prelude.{
  ==_refl, ℕ, ◌≡◌, refl, sym, ap, ◌∙◌, inl, inr, true, false, not, ◌||◌, Option, none, some, List,
  [], ◌∷◌, arith, ◌==◌, if◌then◌else◌, if-both, Option-cases, All,
}
use mathlib.Core.Path.{subst}
use magicdesk_x.Model.{ModelWindow, ModelEnv, WindowRecord, ModelState}
use magicdesk_x.Model.Records.{
  is_live, find_live, update_live, is_application, new_record, with_record, record_for,
}
use magicdesk_x.Model.Publish.{info_of, mark_seen, looked_at}
use magicdesk_x.Model.Table.{
  Host, is_told, IsKept, HasNoLive, HasOneLive, IsSynced, IsTouched, AreTouched, same-AreTouched,
  find_none,
}
use magicdesk_x.Model.Removal.{AreLive, IsFresh, live_at, IsFree-HasNoLive, free-IsUntold, told-id}

pub ==_eq : (a b : ℕ) → (a == b) ≡ true → a ≡ b
==_eq a b h = ground arith

pub some_eq {ℓ} : {A : Type ℓ} (x y : A) → some x ≡ some y → x ≡ y
some_eq x y e = ap (λ o. elim o [ none ↦ x | some z ↦ z ]) e

pub find_head :
    (id : ℕ) (r t : WindowRecord) (rs : List WindowRecord)
    → find_live id (r ∷ rs) ≡ some t
    → is_live id r ≡ true
    → r ≡ t
unfolding find_live
find_head id r t rs h e = some_eq r t (rw (find_live, e) at h)

pub find_tail :
    (id : ℕ) (r t : WindowRecord) (rs : List WindowRecord)
    → find_live id (r ∷ rs) ≡ some t
    → is_live id r ≡ false
    → find_live id rs ≡ some t
unfolding find_live
find_tail id r t rs h e = rw (find_live, e) at h

-- What holds of all records holds of them after one is changed, if it holds of that one.
pub update-All {ℓ} :
    (P : WindowRecord → Type ℓ) (id : ℕ) (f : WindowRecord → WindowRecord) (rs : List WindowRecord)
    (t : WindowRecord)
    → find_live id rs ≡ some t
    → (P t → P (f t))
    → All P rs
    → All P (update_live id f rs)
unfolding update_live
update-All P id f [] t h k a = a
update-All P id f (r ∷ rs) t h k (p, a) =
    if-both (All P) (is_live id r) (f r ∷ rs) (r ∷ update_live id f rs)
      (λ e. (subst (λ x. P x → P (f x)) (sym (find_head id r t rs h e)) k p, a))
      (λ e. (p, update-All P id f rs t (find_tail id r t rs h e) k a))

pub find-update :
    (id : ℕ) (f : WindowRecord → WindowRecord) (rs : List WindowRecord) (t : WindowRecord)
    → ((r : WindowRecord) → is_live id r ≡ true → is_live id (f r) ≡ true)
    → find_live id rs ≡ some t
    → find_live id (update_live id f rs) ≡ some (f t)
unfolding update_live find_live
find-update id f [] t k h = absurd (cc h)
find-update id f (r ∷ rs) t k h =
    if-both (λ l. find_live id l ≡ some (f t)) (is_live id r) (f r ∷ rs) (r ∷ update_live id f rs)
      (λ e. rw (find_live, k r e) (ap (λ x. some (f x)) (find_head id r t rs h e)))
      (λ e. rw (find_live, e) (find-update id f rs t k (find_tail id r t rs h e)))

pub update-AreTouched :
    (m j id : ℕ) (f : WindowRecord → WindowRecord) (rs : List WindowRecord)
    → ((r : WindowRecord) → is_live id r ≡ true → IsTouched m m j r (f r))
    → AreTouched m m j rs (update_live id f rs)
unfolding update_live
update-AreTouched m j id f [] k = tt
update-AreTouched m j id f (r ∷ rs) k =
    if-both (AreTouched m m j (r ∷ rs)) (is_live id r) (f r ∷ rs) (r ∷ update_live id f rs)
      (λ e. (k r e, same-AreTouched m j rs))
      (λ e.
        (record { told = refl; live = λ h. h; says = λ e x h. h }, update-AreTouched m j id f rs k))

update-HasNoLive :
    (j id : ℕ) (f : WindowRecord → WindowRecord) (rs : List WindowRecord)
    → ((r : WindowRecord) → is_live j (f r) ≡ is_live j r)
    → HasNoLive j rs
    → HasNoLive j (update_live id f rs)
unfolding update_live
update-HasNoLive j id f [] k u = u
update-HasNoLive j id f (r ∷ rs) k (e, u) =
    if-both (HasNoLive j) (is_live id r) (f r ∷ rs) (r ∷ update_live id f rs) (λ l. (k r ∙ e, u))
      (λ l. (e, update-HasNoLive j id f rs k u))

pub update-HasOneLive :
    (j id : ℕ) (f : WindowRecord → WindowRecord) (rs : List WindowRecord)
    → ((r : WindowRecord) → is_live j (f r) ≡ is_live j r)
    → HasOneLive j rs
    → HasOneLive j (update_live id f rs)
unfolding update_live
update-HasOneLive j id f [] k u = u
update-HasOneLive j id f (r ∷ rs) k (o, u) =
    if-both (HasOneLive j) (is_live id r) (f r ∷ rs) (r ∷ update_live id f rs)
      (λ e. (λ l. o (sym (k r) ∙ l), u))
      (λ e. (λ l. update-HasNoLive j id f rs k (o l), update-HasOneLive j id f rs k u))

-- Among live records of different ids, the host knows the one that it has just been told of.
pub told-IsKept :
    (m id : ℕ) (f : WindowRecord → WindowRecord) (rs : List WindowRecord) (t : WindowRecord)
    → ((r : WindowRecord) → is_told id (f r) ≡ (r.id == id))
    → AreLive rs
    → HasOneLive id rs
    → find_live id rs ≡ some t
    → IsKept m id (some (info_of m (f t))) (update_live id f rs)
unfolding update_live find_live
told-IsKept m id f [] t k a u h = absurd (find_nil h)
  where
    find_nil : find_live id [] ≡ some t → ⊥
    find_nil e = cc e
told-IsKept m id f (r ∷ rs) t k (d, a) (o, u) h =
    if-both (IsKept m id (some (info_of m (f t)))) (is_live id r) (f r ∷ rs)
      (r ∷ update_live id f rs)
      (λ e. (
        λ q. (
          inr (ap (λ x. some (info_of m (f x))) (sym (find_head id r t rs h e))),
          free-IsUntold id rs (IsFree-HasNoLive id rs a (o e)),
        ),
        λ q. absurd (cc (q, k r, told-id (not r.destroyed) (r.id == id) e)),
      ))
      (λ e. (
        λ q.
            absurd
              (cc (live_at r.destroyed (r.id == id) d (told-id r.published (r.id == id) q), e)),
        λ q. told-IsKept m id f rs t k a u (find_tail id r t rs h e),
      ))

-- A record that the walk has seen is known to the host.
abbrev pub IsSeenFresh : WindowRecord → Type 0
IsSeenFresh r = r.seen ≡ true → IsFresh r

pub told-IsSeenFresh :
    (env : ModelEnv) (window : ModelWindow) (id : ℕ) (rs : List WindowRecord)
    → All IsSeenFresh rs
    → All IsSeenFresh (update_live id (looked_at env window) (update_live id mark_seen rs))
unfolding update_live
told-IsSeenFresh env window id [] a = a
told-IsSeenFresh env window id (r ∷ rs) (p, a) =
    if-both (λ l. All IsSeenFresh (update_live id (looked_at env window) l)) (is_live id r)
      (mark_seen r ∷ rs) (r ∷ update_live id mark_seen rs)
      (λ e. rw (update_live, e) ((λ s. (refl, refl)), a))
      (λ e. rw (update_live, e) (p, told-IsSeenFresh env window id rs a))

-- The cases of `recordFor`: no record, the one that is there, or a new one.
pub record_for-both {ℓ} :
    (P : Option ModelState → Type ℓ) (env : ModelEnv) (s : ModelState) (window : ModelWindow)
    → P none
    → ((r : WindowRecord) → find_live window.id s.records ≡ some r → P (some s))
    → (find_live window.id s.records ≡ none → P (some (with_record env s window)))
    → P (record_for env s window)
unfolding record_for
record_for-both P env s window p q n =
    let made = some (with_record env s window) in
    let missing = not window.realized || not env.memory in
    elim (Option-cases (find_live window.id s.records)) [
      | inl h ↦
          rw (record_for, h)
            (if-both P (not (is_application env window)) none (if missing then none else made)
              (λ e. p) (λ e. if-both P missing none made (λ k. p) (λ k. n h)))
      | inr (r, h) ↦
          rw (record_for, h)
            (if-both P (not (is_application env window)) none (some s) (λ e. p) (λ e. q r h))
    ]

pub made-IsSynced :
    (env : ModelEnv) (s : ModelState) (window : ModelWindow) (h : Host)
    → find_live window.id s.records ≡ none
    → IsSynced s h
    → IsSynced (with_record env s window) h
unfolding new_record
made-IsSynced env s window h none_there y = record {
  kept = λ id. (λ e. absurd (cc e), λ e. y.kept id);
  single = λ id. (
    λ e. rw (sym (==_eq window.id id e)) (find_none window.id s.records none_there),
    y.single id,
  );
}

pub find-made :
    (env : ModelEnv) (s : ModelState) (window : ModelWindow)
    → find_live window.id (with_record env s window).records ≡ some (new_record env s window)
unfolding find_live new_record
find-made env s window = rw (find_live, ==_refl window.id) refl
