-- ===== src/Model/Refreshed.antt =====
-- What publishing, walking and refreshing make of the host's table.
use magicdesk_x.Prelude.{
  ℕ, ◌≡◌, refl, sym, ◌∙◌, inl, inr, Bool, true, false, not, ◌||◌, none, some, [], ◌∷◌, ◌++◌, arith,
  ◌==◌, Bool-cases, if-both, All,
}
use mathlib.Core.Path.{subst}
use magicdesk_x.Model.{
  ModelWindow, ModelTree, ModelTrees, branch, no_branches, more_branches, ModelEnv, WindowRecord,
  ModelState, window_told, ModelOutcome,
}
use magicdesk_x.Model.Records.{is_live, find_live, update_live, new_record, with_record, on_record}
use magicdesk_x.Model.Publish.{
  info_of, is_stale, mark_seen, looked_at, window_part, tell_record, publish_window, after,
  walk_branch, walk_branches,
}
use magicdesk_x.Model.Table.{
  hear_all, hear_all-append, Host, heard, IsKept, IsSynced, IsTouched, touched-IsKept,
  touched-IsSynced,
}
use magicdesk_x.Model.Removal.{AreLive, IsFresh, told-id, other_id}
use magicdesk_x.Model.Updates.{
  ==_eq, update-All, find-update, update-AreTouched, update-HasOneLive, told-IsKept, IsSeenFresh,
  told-IsSeenFresh, record_for-both, made-IsSynced, find-made,
}

-- While the windows are walked, all records are live, and those that have been seen are known.
pub record IsTable (s : ModelState) (h : Host) : Type 0 where
  pub synced : IsSynced s h
  pub live : AreLive s.records
  pub fresh : All IsSeenFresh s.records

-- A part of a refresh keeps the table.
pub record IsWalked (s : ModelState) (o : ModelOutcome) : Type 0 where
  pub same_manager : o.0.manager ≡ s.manager
  pub same_dirty : o.0.dirty ≡ s.dirty
  pub same_input : o.0.last_input_time ≡ s.last_input_time
  pub table : (h : Host) → IsTable s h → IsTable o.0 (heard h o.1)

nothing-IsWalked : (s : ModelState) → IsWalked s (s, [])
nothing-IsWalked s = record {
  same_manager = refl;
  same_dirty = refl;
  same_input = refl;
  table = λ h t. t;
}

pub IsSynced-along :
    (s : ModelState) (h g : Host) → ((id : ℕ) → h id ≡ g id) → IsSynced s h → IsSynced s g
IsSynced-along s h g e y = record {
  kept = λ id. subst (λ x. IsKept s.manager id x s.records) (e id) (y.kept id);
  single = y.single;
}

after-IsWalked :
    (s : ModelState) (o : ModelOutcome) (next : ModelState → ModelOutcome)
    → IsWalked s o
    → IsWalked o.0 (next o.0)
    → IsWalked s (after o next)
after-IsWalked s (t, first) next p q = record {
  same_manager = q.same_manager ∙ p.same_manager;
  same_dirty = q.same_dirty ∙ p.same_dirty;
  same_input = q.same_input ∙ p.same_input;
  table = λ h k.
      let later = q.table (heard h first) (p.table h k) in
      record {
        synced =
            IsSynced-along (next t).0 (heard (heard h first) (next t).1)
              (heard h (first ++ (next t).1))
              (λ id. sym (hear_all-append id (h id) first (next t).1)) later.synced;
        live = later.live;
        fresh = later.fresh;
      };
}

marked-IsTouched : (m j : ℕ) (r : WindowRecord) → IsTouched m m j r (mark_seen r)
marked-IsTouched m j r = record { told = refl; live = λ e. e; says = λ e x k. k }

no_other : (id j rid : ℕ) → (rid == id) ≡ true → (id == j) ≡ false → (rid == j) ≡ false
no_other id j rid e k = ground arith

looked-IsTouched :
    (env : ModelEnv) (window : ModelWindow) (m j : ℕ) (r : WindowRecord)
    → (window.id == j) ≡ false
    → is_live window.id r ≡ true
    → IsTouched m m j r (looked_at env window r)
looked-IsTouched env window m j r k l =
    let other = no_other window.id j r.id (told-id (not r.destroyed) (r.id == window.id) l) k in
    record {
      told = other ∙ sym (other_id r.published (r.id == j) other);
      live = λ e. e;
      says = λ e x q. absurd (cc (e, other));
    }

-- The state after a record is marked and looked at.
abbrev marked : ModelState → ℕ → ModelState
marked s id = on_record s id mark_seen

marked-IsSynced : (s : ModelState) (id : ℕ) (h : Host) → IsSynced s h → IsSynced (marked s id) h
marked-IsSynced s id h = touched-IsSynced s (marked s id) h (λ j.
    update-AreTouched s.manager j id mark_seen s.records (λ r e. marked-IsTouched s.manager j r))

told-IsTable :
    (env : ModelEnv) (s : ModelState) (window : ModelWindow) (r : WindowRecord) (h : Host)
    → find_live window.id s.records ≡ some r
    → IsTable s h
    → IsTable (on_record (marked s window.id) window.id (looked_at env window)) (
        heard h (
          window_told window.id
            (info_of s.manager (looked_at env window (mark_seen r)))
            (window_part env window)
          ∷ []))
told-IsTable env s window r h e t =
    let id = window.id in
    let f = looked_at env window in
    let u = marked s id in
    let synced = marked-IsSynced s id h t.synced in
    let found = find-update id mark_seen s.records r (λ x k. k) e in
    let live = update-All (λ x. x.destroyed ≡ false) id mark_seen s.records r e (λ k. k) t.live in
    record {
      synced = record {
        kept = λ j. elim (Bool-cases (id == j)) [
          | inl k ↦
              rw (hear_all, k)
                (subst
                  (λ a.
                    IsKept s.manager a (some (info_of s.manager (f (mark_seen r))))
                      (update_live id f u.records))
                  (==_eq id j k)
                  (told-IsKept s.manager id f u.records (mark_seen r) (λ x. refl) live
                    (synced.single id) found))
          | inr k ↦
              rw (hear_all, k)
                (touched-IsKept s.manager s.manager j (h j) u.records (update_live id f u.records)
                  (update-AreTouched s.manager j id f u.records
                    (λ x l. looked-IsTouched env window s.manager j x k l))
                  (synced.kept j))
        ];
        single = λ j. update-HasOneLive j id f u.records (λ x. refl) (synced.single j);
      };
      live = update-All (λ x. x.destroyed ≡ false) id f u.records (mark_seen r) found (λ k. k) live;
      fresh = told-IsSeenFresh env window id s.records t.fresh;
    }

seen-IsTable :
    (s : ModelState) (id : ℕ) (r : WindowRecord) (h : Host)
    → find_live id s.records ≡ some r
    → IsFresh r
    → IsTable s h
    → IsTable (marked s id) h
seen-IsTable s id r h e k t = record {
  synced = marked-IsSynced s id h t.synced;
  live = update-All (λ x. x.destroyed ≡ false) id mark_seen s.records r e (λ q. q) t.live;
  fresh = update-All IsSeenFresh id mark_seen s.records r e (λ q w. k) t.fresh;
}

not_stale : (p c rest : Bool) → (not p || (c || rest)) ≡ false → (p ≡ true) × (c ≡ false)
not_stale false c rest e = absurd cc
not_stale true true rest e = absurd cc
not_stale true false rest e = (refl, refl)

-- The rest of `publishWindow`, for a window that has a record.
abbrev pub published_in : ModelEnv → ModelWindow → ModelState → ModelOutcome
published_in env window t =
    let u = on_record t window.id mark_seen in
    elim (find_live window.id u.records) [ none ↦ (u, []) | some r ↦ tell_record env u window r ]

tell-IsWalked :
    (env : ModelEnv) (s : ModelState) (window : ModelWindow) (r : WindowRecord)
    → find_live window.id s.records ≡ some r
    → IsWalked s (tell_record env (marked s window.id) window (mark_seen r))
unfolding tell_record is_stale
tell-IsWalked env s window r e =
    let u = marked s window.id in
    let info = info_of s.manager (looked_at env window (mark_seen r)) in
    if-both (IsWalked s) (is_stale env window (mark_seen r))
      (
        on_record u window.id (looked_at env window),
        window_told window.id info (window_part env window) ∷ [],
      )
      (u, [])
      (λ k. record {
        same_manager = refl;
        same_dirty = refl;
        same_input = refl;
        table = λ h t. told-IsTable env s window r h e t;
      })
      (λ k. record {
        same_manager = refl;
        same_dirty = refl;
        same_input = refl;
        table = λ h t. seen-IsTable s window.id r h e (not_stale r.published r.changed _ k) t;
      })

published-IsWalked :
    (env : ModelEnv) (s : ModelState) (window : ModelWindow) (r : WindowRecord)
    → find_live window.id s.records ≡ some r
    → IsWalked s (published_in env window s)
published-IsWalked env s window r e =
    rw (published_in, find-update window.id mark_seen s.records r (λ x k. k) e)
      (tell-IsWalked env s window r e)

made-IsWalked :
    (env : ModelEnv) (s : ModelState) (window : ModelWindow)
    → find_live window.id s.records ≡ none
    → IsWalked s (with_record env s window, [])
unfolding new_record
made-IsWalked env s window e = record {
  same_manager = refl;
  same_dirty = refl;
  same_input = refl;
  table = λ h t. record {
    synced = made-IsSynced env s window h e t.synced;
    live = (refl, t.live);
    fresh = (λ k. absurd (cc k), t.fresh);
  };
}

publish-IsWalked :
    (env : ModelEnv) (s : ModelState) (window : ModelWindow)
    → IsWalked s (publish_window env s window)
unfolding publish_window
publish-IsWalked env s window =
    record_for-both
      (λ o. IsWalked s (elim o [ none ↦ (s, []) | some t ↦ published_in env window t ])) env s
      window (nothing-IsWalked s) (λ r e. published-IsWalked env s window r e)
      (λ e.
        after-IsWalked s (with_record env s window, []) (published_in env window)
          (made-IsWalked env s window e)
          (published-IsWalked env (with_record env s window) window (new_record env s window)
            (find-made env s window)))

mutual
  unfolding walk_branch walk_branches

  branch-IsWalked :
      (env : ModelEnv) (tree : ModelTree) (s : ModelState) → IsWalked s (walk_branch env tree s)
  branch-IsWalked env (branch window children) s =
      after-IsWalked s (publish_window env s window) (walk_branches env children)
        (publish-IsWalked env s window)
        (branches-IsWalked env children (publish_window env s window).0)

  pub branches-IsWalked :
      (env : ModelEnv) (trees : ModelTrees) (s : ModelState)
      → IsWalked s (walk_branches env trees s)
  branches-IsWalked env no_branches s = nothing-IsWalked s
  branches-IsWalked env (more_branches first rest) s =
      after-IsWalked s (walk_branch env first s) (walk_branches env rest)
        (branch-IsWalked env first s) (branches-IsWalked env rest (walk_branch env first s).0)
