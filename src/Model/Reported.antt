-- ===== src/Model/Reported.antt =====
-- After a refresh the host's table is what the records say.
use magicdesk_x.Prelude.{
  not_both, ℕ, ◌≡◌, refl, sym, ◌∙◌, ◌⊎◌, inl, inr, true, false, not, ◌||◌, Option, List, [], ◌∷◌,
  ◌++◌, if-both, All,
}
use magicdesk_x.Model.{
  ModelTrees, ModelEnv, WindowRecord, RecordInfo, ModelState, ModelEffect, windows_committed,
  ModelOutcome,
}
use magicdesk_x.Model.Records.{find_live}
use magicdesk_x.Model.Publish.{
  after, walk_branches, purge, unseen, sweep, purged, swept, model_refresh,
}
use magicdesk_x.Model.Table.{
  hear_all, hear_all-append, Host, heard, IsSynced, AreTouched, touched-IsSynced,
}
use magicdesk_x.Model.Removal.{
  purge-live, purge-IsKept, purge-HasOneLive, sweep-All, sweep-seen, sweep-IsKept, sweep-HasOneLive,
  AreLive, IsFresh, told_of, IsKept-told,
}
use magicdesk_x.Model.Updates.{IsSeenFresh}
use magicdesk_x.Model.Refreshed.{IsTable, IsSynced-along, branches-IsWalked}

-- Nothing is left to tell: all records are of windows that are there, the host has been told of each,
-- and its table is what they say.
pub record IsReported (s : ModelState) (h : Host) : Type 0 where
  pub clean : s.dirty ≡ false
  pub live : AreLive s.records
  pub fresh : All IsFresh s.records
  pub table : (id : ℕ) → h id ≡ told_of s.manager (find_live id s.records)

unseen-AreTouched : (m id : ℕ) (rs : List WindowRecord) → AreTouched m m id rs (unseen rs)
unseen-AreTouched m id [] = tt
unseen-AreTouched m id (r ∷ rs) =
    (record { told = refl; live = λ e. e; says = λ e x k. k }, unseen-AreTouched m id rs)

unseen-live : (rs : List WindowRecord) → AreLive rs → AreLive (unseen rs)
unseen-live [] a = a
unseen-live (r ∷ rs) (d, a) = (d, unseen-live rs a)

unseen-fresh : (rs : List WindowRecord) → All IsSeenFresh (unseen rs)
unseen-fresh [] = tt
unseen-fresh (r ∷ rs) = (λ e. absurd (cc e), unseen-fresh rs)

purged-IsTable :
    (s : ModelState) (h : Host) → IsSynced s h → IsTable (purged s).0 (heard h (purged s).1)
purged-IsTable s h y =
    let kept = (purge s.records).0 in
    let t : ModelState = record s { records = kept } in
    record {
      synced =
          touched-IsSynced t (purged s).0 (heard h (purged s).1)
            (λ id. unseen-AreTouched s.manager id kept)
            (record {
              kept = λ id. purge-IsKept s.manager id s.records (h id) (y.kept id);
              single = λ id. purge-HasOneLive id s.records (y.single id);
            });
      live = unseen-live kept (purge-live s.records);
      fresh = unseen-fresh kept;
    }

IsFresh-all :
    (rs : List WindowRecord) → All (λ r. r.seen ≡ true) rs → All IsSeenFresh rs → All IsFresh rs
IsFresh-all [] a f = tt
IsFresh-all (r ∷ rs) (s, a) (p, f) = (p s, IsFresh-all rs a f)

committed_silent :
    (id : ℕ) (x : Option RecordInfo) (es : List ModelEffect)
    → hear_all id x es ≡ hear_all id x (es ++ (windows_committed ∷ []))
committed_silent id x es = sym (hear_all-append id x es (windows_committed ∷ []))

swept-IsSynced :
    (s : ModelState) (h : Host) → IsTable s h → IsSynced (swept s).0 (heard h (swept s).1)
swept-IsSynced s h t =
    let told = (sweep s.records).1 in
    let y : IsSynced (swept s).0 (heard h told) = record {
      kept = λ id.
          sweep-IsKept s.manager id s.records (h id) t.live (t.synced.single id) (t.synced.kept id);
      single = λ id. sweep-HasOneLive id s.records (t.synced.single id);
    } in
    IsSynced-along (swept s).0 (heard h told) (heard h (swept s).1)
      (λ id. committed_silent id (h id) told) y

swept-IsReported :
    (s : ModelState) (h : Host)
    → s.dirty ≡ false
    → IsTable s h
    → IsReported (swept s).0 (heard h (swept s).1)
swept-IsReported s h d t =
    let live = sweep-All (λ r. r.destroyed ≡ false) s.records t.live in
    let fresh =
      IsFresh-all (sweep s.records).0 (sweep-seen s.records)
        (sweep-All IsSeenFresh s.records t.fresh) in
    record {
      clean = d;
      live = live;
      fresh = fresh;
      table = λ id.
          IsKept-told s.manager id (sweep s.records).0 (heard h (swept s).1 id) live fresh
            ((swept-IsSynced s h t).kept id);
    }

-- The steps of a refresh, one after the other, as the host hears them.
abbrev pub refresh_steps : ModelEnv → ModelTrees → ModelState → ModelOutcome
refresh_steps env roots s = after (after (purged s) (λ t. walk_branches env roots t)) swept

abbrev pub before_sweep : ModelEnv → ModelTrees → ModelState → ModelOutcome
before_sweep env roots s = after (purged s) (λ t. walk_branches env roots t)

pub walked-IsTable :
    (env : ModelEnv) (roots : ModelTrees) (s : ModelState) (h : Host)
    → IsSynced s h
    → IsTable (before_sweep env roots s).0 (heard h (before_sweep env roots s).1)
walked-IsTable env roots s h y =
    let t = (purged s).0 in
    let w = branches-IsWalked env roots t in
    let told = heard h (purged s).1 in
    let k = w.table told (purged-IsTable s h y) in
    record {
      synced =
          IsSynced-along (walk_branches env roots t).0 (heard told (walk_branches env roots t).1)
            (heard h (before_sweep env roots s).1)
            (λ id. sym (hear_all-append id (h id) (purged s).1 (walk_branches env roots t).1))
            k.synced;
      live = k.live;
      fresh = k.fresh;
    }

refresh_heard :
    (env : ModelEnv) (roots : ModelTrees) (s : ModelState) (h : Host) (id : ℕ)
    → heard h (refresh_steps env roots s).1 id
      ≡ heard (heard h (before_sweep env roots s).1) (swept (before_sweep env roots s).0).1 id
refresh_heard env roots s h id =
    hear_all-append id (h id) (before_sweep env roots s).1 (swept (before_sweep env roots s).0).1

steps-IsReported :
    (env : ModelEnv) (roots : ModelTrees) (s : ModelState) (h : Host)
    → IsSynced s h
    → IsReported (refresh_steps env roots s).0 (heard h (refresh_steps env roots s).1)
steps-IsReported env roots s h y =
    let (t, told) = before_sweep env roots s in
    let r =
      swept-IsReported t (heard h told) (branches-IsWalked env roots (purged s).0).same_dirty
        (walked-IsTable env roots s h y) in
    record {
      clean = r.clean;
      live = r.live;
      fresh = r.fresh;
      table = λ id. refresh_heard env roots s h id ∙ r.table id;
    }

steps-IsSynced :
    (env : ModelEnv) (roots : ModelTrees) (s : ModelState) (h : Host)
    → IsSynced s h
    → IsSynced (refresh_steps env roots s).0 (heard h (refresh_steps env roots s).1)
steps-IsSynced env roots s h y =
    let (t, told) = before_sweep env roots s in
    IsSynced-along (swept t).0 (heard (heard h told) (swept t).1)
      (heard h (refresh_steps env roots s).1) (λ id. sym (refresh_heard env roots s h id))
      (swept-IsSynced t (heard h told) (walked-IsTable env roots s h y))

-- A refresh keeps the table in agreement, whether or not it does anything.
pub model_refresh-IsSynced :
    (env : ModelEnv) (roots : ModelTrees) (s : ModelState) (h : Host)
    → IsSynced s h
    → IsSynced (model_refresh env roots s).0 (heard h (model_refresh env roots s).1)
unfolding model_refresh
model_refresh-IsSynced env roots s h y =
    if-both (λ (o : ModelOutcome). IsSynced o.0 (heard h o.1)) (not s.observing || not s.dirty)
      (s, []) (refresh_steps env roots s) (λ e. y) (λ e. steps-IsSynced env roots s h y)

-- A refresh of an observed, dirty model takes its steps.
pub refresh_runs :
    (env : ModelEnv) (roots : ModelTrees) (s : ModelState)
    → s.observing ≡ true
    → s.dirty ≡ true
    → model_refresh env roots s ≡ refresh_steps env roots s
unfolding model_refresh
refresh_runs env roots s o d =
    if-both (λ (p : ModelOutcome). p ≡ refresh_steps env roots s) (not s.observing || not s.dirty)
      (s, []) (refresh_steps env roots s) (λ e. absurd (not_both s.observing s.dirty o d e))
      (λ e. refl)

-- Such a refresh leaves nothing to tell.
pub model_refresh-IsReported :
    (env : ModelEnv) (roots : ModelTrees) (s : ModelState) (h : Host)
    → s.observing ≡ true
    → s.dirty ≡ true
    → IsSynced s h
    → IsReported (model_refresh env roots s).0 (heard h (model_refresh env roots s).1)
model_refresh-IsReported env roots s h o d y =
    rw (refresh_runs env roots s o d) (steps-IsReported env roots s h y)

-- A refresh does nothing, or leaves nothing to tell.
pub model_refresh-cases :
    (env : ModelEnv) (roots : ModelTrees) (s : ModelState) (h : Host)
    → IsSynced s h
    → (model_refresh env roots s ≡ (s, []))
      ⊎ IsReported (model_refresh env roots s).0 (heard h (model_refresh env roots s).1)
unfolding model_refresh
model_refresh-cases env roots s h y =
    if-both (λ (p : ModelOutcome). (p ≡ (s, [])) ⊎ IsReported p.0 (heard h p.1))
      (not s.observing || not s.dirty) (s, []) (refresh_steps env roots s) (λ e. inl refl)
      (λ e. inr (steps-IsReported env roots s h y))

pub model_refresh-same_input :
    (env : ModelEnv) (roots : ModelTrees) (s : ModelState)
    → (model_refresh env roots s).0.last_input_time ≡ s.last_input_time
unfolding model_refresh
model_refresh-same_input env roots s =
    if-both (λ (p : ModelOutcome). p.0.last_input_time ≡ s.last_input_time)
      (not s.observing || not s.dirty) (s, []) (refresh_steps env roots s) (λ e. refl)
      (λ e. (branches-IsWalked env roots (purged s).0).same_input)
