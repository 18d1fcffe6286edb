-- ===== src/Model/Walk.antt =====
-- The walk publishes the windows of the tree one after the other, and which record a window then has.
use magicdesk_x.Prelude.{
  ℕ, ◌≡◌, refl, sym, ap, ◌∙◌, Bool, true, false, not, ◌&&◌, none, some, List, [], ◌∷◌, ◌++◌, arith,
  ◌==◌, if-both, option-both, All,
}
use magicdesk_x.Model.{
  ModelWindow, ModelTree, ModelTrees, branch, no_branches, more_branches, ModelEnv, WindowRecord,
  ModelState, ModelEffect, window_told, ModelOutcome,
}
use magicdesk_x.Model.Records.{is_live, find_live, update_live, new_record, with_record, on_record}
use magicdesk_x.Model.Publish.{
  info_of, is_stale, mark_seen, looked_at, window_part, tell_record, publish_window, after,
  walk_branch, walk_branches,
}
use magicdesk_x.Model.Refreshed.{published_in}
use magicdesk_x.Model.Updates.{record_for-both}

-- The windows of a tree, each before its children, and the walk over such a list.
abbrev mutual
  pub windows_of_branch : ModelTree → List ModelWindow
  windows_of_branch (branch window children) = window ∷ windows_of children

  pub windows_of : ModelTrees → List ModelWindow
  windows_of no_branches = []
  windows_of (more_branches first rest) = windows_of_branch first ++ windows_of rest

unfoldable pub publish_all : ModelEnv → List ModelWindow → ModelState → ModelOutcome
unfolding publish_window
publish_all env [] s = (s, [])
publish_all env (window ∷ rest) s =
    after (publish_window env s window) (λ t. publish_all env rest t)

after_cong :
    (o : ModelOutcome) (f g : ModelState → ModelOutcome) → f o.0 ≡ g o.0 → after o f ≡ after o g
after_cong (s, first) f g e = ap (λ (p : ModelOutcome). (p.0, first ++ p.1)) e

append_assoc : (xs ys zs : List ModelEffect) → (xs ++ ys) ++ zs ≡ xs ++ (ys ++ zs)
append_assoc [] ys zs = refl
append_assoc (x ∷ xs) ys zs = ap (λ l. x ∷ l) (append_assoc xs ys zs)

after_assoc :
    (o : ModelOutcome) (f g : ModelState → ModelOutcome)
    → after (after o f) g ≡ after o (λ t. after (f t) g)
after_assoc (s, first) f g =
    ap (λ es. ((g (f s).0).0, es)) (append_assoc first (f s).1 (g (f s).0).1)

publish_all-append :
    (env : ModelEnv) (xs ys : List ModelWindow) (s : ModelState)
    → publish_all env (xs ++ ys) s ≡ after (publish_all env xs s) (λ t. publish_all env ys t)
unfolding publish_all
publish_all-append env [] ys s = refl
publish_all-append env (x ∷ xs) ys s =
    after_cong (publish_window env s x) (λ t. publish_all env (xs ++ ys) t)
      (λ t. after (publish_all env xs t) (λ u. publish_all env ys u))
      (publish_all-append env xs ys (publish_window env s x).0)
    ∙ sym (
        after_assoc (publish_window env s x) (λ t. publish_all env xs t)
          (λ u. publish_all env ys u))

mutual
  unfolding walk_branch walk_branches publish_all

  walk_branch-all :
      (env : ModelEnv) (tree : ModelTree) (s : ModelState)
      → walk_branch env tree s ≡ publish_all env (windows_of_branch tree) s
  walk_branch-all env (branch window children) s =
      after_cong (publish_window env s window) (λ t. walk_branches env children t)
        (λ t. publish_all env (windows_of children) t)
        (walk_branches-all env children (publish_window env s window).0)

  pub walk_branches-all :
      (env : ModelEnv) (trees : ModelTrees) (s : ModelState)
      → walk_branches env trees s ≡ publish_all env (windows_of trees) s
  walk_branches-all env no_branches s = refl
  walk_branches-all env (more_branches first rest) s =
      rw (walk_branch-all env first s) (
        after_cong (publish_all env (windows_of_branch first) s) (λ t. walk_branches env rest t)
          (λ t. publish_all env (windows_of rest) t)
          (walk_branches-all env rest (publish_all env (windows_of_branch first) s).0))
      ∙ sym (publish_all-append env (windows_of_branch first) (windows_of rest) s)

not_live_other :
    (d : Bool) (rid id j : ℕ)
    → (not d && rid == id) ≡ true
    → (id == j) ≡ false
    → (not d && rid == j) ≡ false
not_live_other d rid id j e k = ground arith

-- The record of another window is found as before.
find-update_other :
    (id j : ℕ) (f : WindowRecord → WindowRecord) (rs : List WindowRecord)
    → (id == j) ≡ false
    → ((r : WindowRecord) → is_live j (f r) ≡ is_live j r)
    → find_live j (update_live id f rs) ≡ find_live j rs
unfolding find_live update_live
find-update_other id j f [] k q = refl
find-update_other id j f (r ∷ rs) k q =
    if-both (λ l. find_live j l ≡ find_live j (r ∷ rs)) (is_live id r) (f r ∷ rs)
      (r ∷ update_live id f rs)
      (λ e. let other = not_live_other r.destroyed r.id id j e k in rw (find_live, q r, other) refl)
      (λ e. rw (find_live, find-update_other id j f rs k q) refl)

tell-other :
    (env : ModelEnv) (s : ModelState) (window : ModelWindow) (r : WindowRecord) (j : ℕ)
    → (window.id == j) ≡ false
    → find_live j (tell_record env s window r).0.records ≡ find_live j s.records
unfolding tell_record
tell-other env s window r j k =
    if-both (λ (o : ModelOutcome). find_live j o.0.records ≡ find_live j s.records)
      (is_stale env window r)
      (
        on_record s window.id (looked_at env window),
        window_told window.id (info_of s.manager (looked_at env window r)) (window_part env window)
            ∷ [],
      )
      (s, []) (λ e. find-update_other window.id j (looked_at env window) s.records k (λ x. refl))
      (λ e. refl)

published-other :
    (env : ModelEnv) (t : ModelState) (window : ModelWindow) (j : ℕ)
    → (window.id == j) ≡ false
    → find_live j (published_in env window t).0.records ≡ find_live j t.records
published-other env t window j k =
    let u = on_record t window.id mark_seen in
    let marked = find-update_other window.id j mark_seen t.records k (λ x. refl) in
    option-both (λ (o : ModelOutcome). find_live j o.0.records ≡ find_live j t.records)
      (find_live window.id u.records) (u, []) (λ r. tell_record env u window r) marked
      (λ r e. tell-other env u window r j k ∙ marked)

pub publish-other :
    (env : ModelEnv) (s : ModelState) (window : ModelWindow) (j : ℕ)
    → (window.id == j) ≡ false
    → find_live j (publish_window env s window).0.records ≡ find_live j s.records
unfolding publish_window new_record find_live
publish-other env s window j k =
    record_for-both
      (λ o.
        let p : ModelOutcome = elim o [ none ↦ (s, []) | some t ↦ published_in env window t ] in
        find_live j p.0.records ≡ find_live j s.records)
      env s window refl (λ r e. published-other env s window j k)
      (λ e. published-other env (with_record env s window) window j k ∙ rw (find_live, k) refl)

pub publish_all-other :
    (env : ModelEnv) (ws : List ModelWindow) (s : ModelState) (j : ℕ)
    → All (λ w. (w.id == j) ≡ false) ws
    → find_live j (publish_all env ws s).0.records ≡ find_live j s.records
unfolding publish_all
publish_all-other env [] s j a = refl
publish_all-other env (w ∷ ws) s j (k, a) =
    publish_all-other env ws (publish_window env s w).0 j a ∙ publish-other env s w j k
