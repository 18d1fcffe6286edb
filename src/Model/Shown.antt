-- ===== src/Model/Shown.antt =====
-- Each window of the tree is in the host's table as it is, and no other window is.
use magicdesk_x.Prelude.{
  ℕ, ◌≡◌, refl, sym, ap, ◌∙◌, inl, inr, true, false, none, some, List, [], ◌∷◌, ◌++◌, ◌==◌,
  Bool-cases, if-both, All,
}
use magicdesk_x.Model.{
  ModelWindow, ModelTrees, ModelEnv, WindowRecord, ModelState, ModelEffect, ModelOutcome,
  RecordInfo,
}
use magicdesk_x.Model.Records.{is_live, find_live, is_application}
use magicdesk_x.Model.Publish.{info_of, is_stale, walk_branches, purge, unseen, sweep, purged}
use magicdesk_x.Model.Table.{Host, HasNoLive, HasOneLive, IsSynced}
use magicdesk_x.Model.Removal.{sweep-All, told_of}
use magicdesk_x.Model.Reported.{refresh_steps, walked-IsTable, refresh_runs}
use magicdesk_x.Model.Updates.{find_head, find_tail}
use magicdesk_x.Model.Walk.{windows_of, publish_all, walk_branches-all, publish_all-other}
use magicdesk_x.Model.Events.{ModelEvent, run_from, refreshed_run}
use magicdesk_x.Model.Host.{model_run-IsAgreed, model_run-IsReported}
use magicdesk_x.Model.Current.{all-IsCurrent}
use magicdesk_x.Model.Present.{IsPresent, is_stale-IsPresent}

-- A record that has been seen is found after the sweep.
sweep-found :
    (id : ℕ) (rs : List WindowRecord) (t : WindowRecord)
    → find_live id rs ≡ some t
    → t.seen ≡ true
    → find_live id (sweep rs).0 ≡ some t
unfolding find_live sweep
sweep-found id [] t e s = e
sweep-found id (r ∷ rs) t e s = elim (Bool-cases (is_live id r)) [
  | inl l ↦
      let same = find_head id r t rs e l in
      if-both (λ (o : List WindowRecord × List ModelEffect). find_live id o.0 ≡ some t) r.seen
        (r ∷ (sweep rs).0, (sweep rs).1) ((sweep rs).0, _)
        (λ k. rw (find_live, l) (ap (λ x. some x) same))
        (λ k. absurd (cc (k, ap (λ (x : WindowRecord). x.seen) same, s)))
  | inr l ↦
      let rest = sweep-found id rs t (find_tail id r t rs e l) s in
      if-both (λ (o : List WindowRecord × List ModelEffect). find_live id o.0 ≡ some t) r.seen
        (r ∷ (sweep rs).0, (sweep rs).1) ((sweep rs).0, _) (λ k. rw (find_live, l) rest) (λ k. rest)
]

not_found : (id : ℕ) (rs : List WindowRecord) → HasNoLive id rs → find_live id rs ≡ none
unfolding find_live
not_found id [] u = refl
not_found id (r ∷ rs) (e, u) = rw (find_live, e) (not_found id rs u)

-- A record that has not been seen is not found any more.
sweep-gone :
    (id : ℕ) (rs : List WindowRecord)
    → HasOneLive id rs
    → ((t : WindowRecord) → find_live id rs ≡ some t → t.seen ≡ false)
    → find_live id (sweep rs).0 ≡ none
unfolding find_live sweep
sweep-gone id [] o k = refl
sweep-gone id (r ∷ rs) (o, u) k = elim (Bool-cases (is_live id r)) [
  | inl l ↦
      if-both (λ (p : List WindowRecord × List ModelEffect). find_live id p.0 ≡ none) r.seen
        (r ∷ (sweep rs).0, (sweep rs).1) ((sweep rs).0, _)
        (λ e. absurd (cc (e, k r (rw (find_live, l) refl))))
        (λ e. not_found id (sweep rs).0 (sweep-All (λ t. is_live id t ≡ false) rs (o l)))
  | inr l ↦
      let rest = sweep-gone id rs u (λ t e. k t (rw (find_live, l) e)) in
      if-both (λ (p : List WindowRecord × List ModelEffect). find_live id p.0 ≡ none) r.seen
        (r ∷ (sweep rs).0, (sweep rs).1) ((sweep rs).0, _) (λ e. rw (find_live, l) rest) (λ e. rest)
]

unseen-found :
    (id : ℕ) (rs : List WindowRecord) (t : WindowRecord)
    → find_live id (unseen rs) ≡ some t
    → t.seen ≡ false
unfolding find_live
unseen-found id [] t e = absurd (cc e)
unseen-found id (r ∷ rs) t e =
    let first : WindowRecord = record r { seen = false } in
    elim (Bool-cases (is_live id r)) [
      | inl l ↦ sym (ap (λ (x : WindowRecord). x.seen) (find_head id first t (unseen rs) e l))
      | inr l ↦ unseen-found id rs t (find_tail id first t (unseen rs) e l)
    ]

-- The records after the steps of a refresh, by the list of windows.
steps_records :
    (env : ModelEnv) (roots : ModelTrees) (s : ModelState)
    → (refresh_steps env roots s).0.records
      ≡ (sweep (publish_all env (windows_of roots) (purged s).0).0.records).0
steps_records env roots s =
    ap (λ (o : ModelOutcome). (sweep o.0.records).0) (walk_branches-all env roots (purged s).0)

steps-shown :
    (env : ModelEnv) (roots : ModelTrees) (s : ModelState) (before later : List ModelWindow)
    (window : ModelWindow)
    → windows_of roots ≡ before ++ (window ∷ later)
    → All (λ w. (w.id == window.id) ≡ false) later
    → is_application env window ≡ true
    → window.realized ≡ true
    → env.memory ≡ true
    → (r : WindowRecord) × ((find_live window.id (refresh_steps env roots s).0.records ≡ some r)
        × (is_stale env window r ≡ false))
steps-shown env roots s before later window e k a r m =
    let c = all-IsCurrent env before later window (purged s).0 a r m k in
    let walked = publish_all env (before ++ (window ∷ later)) (purged s).0 in
    (
      c.shown,
      (
        ap (λ l. find_live window.id l) (steps_records env roots s)
            ∙ (ap (λ ws. find_live window.id (sweep (publish_all env ws (purged s).0).0.records).0)
                  e
                ∙ sweep-found window.id walked.0.records c.shown c.found c.seen),
        c.same,
      ),
    )

steps-gone :
    (env : ModelEnv) (roots : ModelTrees) (s : ModelState) (h : Host) (id : ℕ)
    → IsSynced s h
    → All (λ w. (w.id == id) ≡ false) (windows_of roots)
    → find_live id (refresh_steps env roots s).0.records ≡ none
steps-gone env roots s h id y k =
    let t = (walk_branches env roots (purged s).0).0 in
    let old =
      ap (λ (o : ModelOutcome). find_live id o.0.records) (walk_branches-all env roots (purged s).0)
      ∙ publish_all-other env (windows_of roots) (purged s).0 id k in
    sweep-gone id t.records ((walked-IsTable env roots s h y).synced.single id)
      (λ r e. unseen-found id (purge s.records).0 r (sym old ∙ e))

-- Whatever has happened to the model since its process started, if a host observes it and it is dirty,
-- then after a refresh the host has each application window of the tree as it is: the entry of its id has
-- the window's present mapped state, title (up to the terminating zero), role, whether it has an icon,
-- and every pixel of the icon. The window is realized, no window after it in the walk has the same id,
-- and memory for a record is there.
pub model_run-shown :
    (es : List ModelEvent) (manager : ℕ) (env : ModelEnv) (roots : ModelTrees)
    (before later : List ModelWindow) (window : ModelWindow)
    → (run_from manager es).0.observing ≡ true
    → (run_from manager es).0.dirty ≡ true
    → windows_of roots ≡ before ++ (window ∷ later)
    → All (λ w. (w.id == window.id) ≡ false) later
    → is_application env window ≡ true
    → window.realized ≡ true
    → env.memory ≡ true
    → (info : RecordInfo) × (((refreshed_run env roots (run_from manager es)).1 window.id
          ≡ some info)
        × IsPresent env window info)
model_run-shown es manager env roots before later window o d e k a r m =
    let (s, h) = run_from manager es in
    let (x, (found, same)) = steps-shown env roots s before later window e k a r m in
    let reported = model_run-IsReported es manager env roots o d in
    let t = (refreshed_run env roots (s, h)).0 in
    let steps =
      ap (λ (p : ModelOutcome). find_live window.id p.0.records) (refresh_runs env roots s o d) in
    (
      info_of t.manager x,
      (
        reported.table window.id ∙ ap (λ y. told_of t.manager y) (steps ∙ found),
        is_stale-IsPresent env window x t.manager same,
      ),
    )

-- Whatever has happened to the model since its process started, if a host observes it and it is dirty,
-- then after a refresh the host has no entry for an id that no window of the tree has.
pub model_run-gone :
    (es : List ModelEvent) (manager : ℕ) (env : ModelEnv) (roots : ModelTrees) (id : ℕ)
    → (run_from manager es).0.observing ≡ true
    → (run_from manager es).0.dirty ≡ true
    → All (λ w. (w.id == id) ≡ false) (windows_of roots)
    → (refreshed_run env roots (run_from manager es)).1 id ≡ none
model_run-gone es manager env roots id o d k =
    let (s, h) = run_from manager es in
    let none_there = steps-gone env roots s h id (model_run-IsAgreed es manager).synced k in
    let t = (refreshed_run env roots (s, h)).0 in
    let steps =
      ap (λ (p : ModelOutcome). find_live id p.0.records) (refresh_runs env roots s o d) in
    (model_run-IsReported es manager env roots o d).table id
    ∙ ap (λ y. told_of t.manager y) (steps ∙ none_there)
