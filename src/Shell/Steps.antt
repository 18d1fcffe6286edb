-- ===== src/Shell/Steps.antt =====
-- What publishing, walking and sweeping keep, and all that can happen to the shell.
use magicdesk_x.Prelude.{
  ==_refl, ℕ, suc, ◌≤◌, ◌≡◌, refl, sym, ap, ◌∙◌, ◌≢◌, inl, inr, Bool, true, false, not, ◌||◌, none,
  some, List, [], ◌∷◌, arith, leb, ◌==◌, if◌then◌else◌, Bool-cases, if-both, Option-cases, length,
}
use magicdesk_x.Shell.{
  ShellInfo, ShellRecord, ShellState, ShellWindow, ShellTree, ShellTrees, tree, no_trees,
  more_trees, ShellEnv, ShellEffect, shell_state, shell_info, shell_removed, windows_done,
  ShellOutcome, after, same_info, find_info, touched, publish_role, publish, role, info_of,
  walk_tree, walk, unseen, sweep, swept, shell_reset, shell_refresh,
}
use magicdesk_x.Shell.Laws.{
  Table, hear_all, view, hear_all-append, IsUnique, IsTable, find_none, find_some, touched_same,
  touched_new, touched-IsUnique, length-touched, IsTold, nothing-IsTold, after-IsTold, removed,
}

fresh-IsTold :
    (s : ShellState) (id : ℕ) (info : ShellInfo)
    → IsTable s
    → find_info id s.records ≡ none
    → leb 32 (length s.records) ≡ false
    → not (s.owner == 0) ≡ true
    → IsTold s (
      record s { records = record { window = id; seen = true; info = info } ∷ s.records },
      shell_info s.owner id info ∷ [],
    )
fresh-IsTold s id info t h k o =
    let n = find_none id s.records h in
    let l = t.limited in
    record {
      table = record {
        unique = (h, t.unique);
        limited = ground arith;
        owned = λ e. absurd (ground arith);
      };
      same_owner = refl;
      heard = rw n refl;
    }

touched-IsTold :
    (s : ShellState) (id : ℕ) (info old : ShellInfo)
    → IsTable s
    → find_info id s.records ≡ some old
    → IsTold s (
      record s { records = touched id info s.records },
      if same_info old info then [] else shell_info s.owner id info ∷ [],
    )
unfolding touched
touched-IsTold s id info old t h =
    let u : ShellState = record s { records = touched id info s.records } in
    let table : IsTable u = record {
      unique = touched-IsUnique id info s.records t.unique;
      limited = rw (length-touched id info s.records) t.limited;
      owned = λ e. rw (t.owned e) refl;
    } in
    let found = find_some id s.records old h in
    if-both (λ (es : List ShellEffect). IsTold s (u, es)) (same_info old info) []
      (shell_info s.owner id info ∷ [])
      (λ k. record {
        table = table;
        same_owner = refl;
        heard = sym (touched_same id info old s.records h k);
      })
      (λ k. record {
        table = table;
        same_owner = refl;
        heard = rw found (sym (touched_new id info old s.records h k));
      })

room_of : (a b c : Bool) → (a || (b || c)) ≡ false → b ≡ false
room_of true b c h = absurd cc
room_of false true c h = absurd cc
room_of false false c h = refl

publish_role-IsTold :
    (env : ShellEnv) (s : ShellState) (w : ShellWindow)
    → IsTable s
    → not (s.owner == 0) ≡ true
    → IsTold s (publish_role env s w)
unfolding publish_role
publish_role-IsTold env s w t o =
    let info = info_of env w in
    let rs = record { window = w.id; seen = true; info = info } ∷ s.records in
    let fresh : ShellOutcome = (record s { records = rs }, shell_info s.owner w.id info ∷ []) in
    let missing = not w.realized || (leb 32 (length s.records) || not env.memory) in
    elim (Option-cases (find_info w.id s.records)) [
      | inl h ↦
          rw (publish_role, h)
            (if-both (IsTold s) missing (s, []) fresh (λ e. nothing-IsTold s t)
              (λ e. fresh-IsTold s w.id info t h (room_of (not w.realized) _ (not env.memory) e) o))
      | inr (old, h) ↦ rw (publish_role, h) (touched-IsTold s w.id info old t h)
    ]

publish-IsTold :
    (env : ShellEnv) (s : ShellState) (w : ShellWindow)
    → IsTable s
    → not (s.owner == 0) ≡ true
    → IsTold s (publish env s w)
unfolding publish
publish-IsTold env s w t o =
    if-both (IsTold s) (role env w == 0) (s, []) (publish_role env s w) (λ e. nothing-IsTold s t)
      (λ e. publish_role-IsTold env s w t o)

same_owner_there :
    (s u : ShellState) → u.owner ≡ s.owner → not (s.owner == 0) ≡ true → not (u.owner == 0) ≡ true
same_owner_there s u e h = rw e h

mutual
  unfolding walk_tree walk

  walk_tree-IsTold :
      (env : ShellEnv) (node : ShellTree) (s : ShellState)
      → IsTable s
      → not (s.owner == 0) ≡ true
      → IsTold s (walk_tree env node s)
  walk_tree-IsTold env (tree w children) s t o =
      let p = publish-IsTold env s w t o in
      let u = (publish env s w).0 in
      after-IsTold s (publish env s w) (λ v. walk env children v) p
        (walk-IsTold env children u p.table (same_owner_there s u p.same_owner o))

  walk-IsTold :
      (env : ShellEnv) (nodes : ShellTrees) (s : ShellState)
      → IsTable s
      → not (s.owner == 0) ≡ true
      → IsTold s (walk env nodes s)
  walk-IsTold env no_trees s t o = nothing-IsTold s t
  walk-IsTold env (more_trees first rest) s t o =
      let p = walk_tree-IsTold env first s t o in
      let u = (walk_tree env first s).0 in
      after-IsTold s (walk_tree env first s) (λ v. walk env rest v) p
        (walk-IsTold env rest u p.table (same_owner_there s u p.same_owner o))

==_sym_false : (a b : ℕ) → (a == b) ≡ false → (b == a) ≡ false
==_sym_false a b h = ground arith

other_window :
    (w : ℕ) (r : ShellRecord) (rest : List ShellRecord)
    → find_info w (r ∷ rest) ≡ none
    → ((r.window == w) ≡ false) × (find_info w rest ≡ none)
unfolding find_info
other_window w r rest h = elim (Bool-cases (r.window == w)) [
  | inl e ↦ let bad = rw e at h in absurd cc
  | inr e ↦ (e, rw e at h)
]

removed_past :
    (id w : ℕ) (info : ShellInfo) (v : Table)
    → (w == id) ≡ false
    → removed id ((w, info) ∷ v) ≡ (w, info) ∷ removed id v
removed_past id w info v h = rw h refl

removed_first : (w : ℕ) (info : ShellInfo) (v : Table) → removed w ((w, info) ∷ v) ≡ v
removed_first w info v = rw (==_refl w) refl

sweep_past :
    (owner w : ℕ) (info : ShellInfo) (rs : List ShellRecord) (v : Table)
    → find_info w rs ≡ none
    → hear_all owner (sweep owner rs).1 ((w, info) ∷ v)
      ≡ (w, info) ∷ hear_all owner (sweep owner rs).1 v
unfolding sweep
sweep_past owner w info [] v h = refl
sweep_past owner w info (r ∷ rest) v h =
    let (e, g) = other_window w r rest h in
    let (kept, effects) = sweep owner rest in
    if-both
      (λ (o : List ShellRecord × List ShellEffect).
        hear_all owner o.1 ((w, info) ∷ v) ≡ (w, info) ∷ hear_all owner o.1 v)
      r.seen (r ∷ kept, effects) (kept, shell_removed owner r.window ∷ effects)
      (λ f. sweep_past owner w info rest v g)
      (λ f.
        ap (hear_all owner effects) (removed_past r.window w info v (==_sym_false r.window w e))
        ∙ sweep_past owner w info rest (removed r.window v) g)

sweep_told :
    (owner : ℕ) (rs : List ShellRecord)
    → IsUnique rs
    → hear_all owner (sweep owner rs).1 (view rs) ≡ view (sweep owner rs).0
unfolding sweep
sweep_told owner [] u = refl
sweep_told owner (r ∷ rest) (h, u) =
    let (kept, effects) = sweep owner rest in
    let told = sweep_told owner rest u in
    if-both
      (λ (o : List ShellRecord × List ShellEffect). hear_all owner o.1 (view (r ∷ rest)) ≡ view o.0)
      r.seen (r ∷ kept, effects) (kept, shell_removed owner r.window ∷ effects)
      (λ f.
        sweep_past owner r.window r.info rest (view rest) h ∙ ap (λ v. (r.window, r.info) ∷ v) told)
      (λ f. ap (hear_all owner effects) (removed_first r.window r.info (view rest)) ∙ told)

find-sweep :
    (owner w : ℕ) (rs : List ShellRecord)
    → find_info w rs ≡ none
    → find_info w (sweep owner rs).0 ≡ none
unfolding find_info sweep
find-sweep owner w [] h = refl
find-sweep owner w (r ∷ rest) h =
    let (e, g) = other_window w r rest h in
    let (kept, effects) = sweep owner rest in
    let later = find-sweep owner w rest g in
    if-both (λ (o : List ShellRecord × List ShellEffect). find_info w o.0 ≡ none) r.seen
      (r ∷ kept, effects) (kept, shell_removed owner r.window ∷ effects) (λ f. rw e later)
      (λ f. later)

-- A sweep keeps the windows apart and adds none.
sweep_kept :
    (owner : ℕ) (rs : List ShellRecord)
    → IsUnique rs
    → IsUnique (sweep owner rs).0 × (length (sweep owner rs).0 ≤ length rs)
unfolding sweep
sweep_kept owner [] u = (tt, omega arith)
sweep_kept owner (r ∷ rest) (h, u) =
    let (kept, effects) = sweep owner rest in
    let (v, l) = sweep_kept owner rest u in
    if-both
      (λ (o : List ShellRecord × List ShellEffect). IsUnique o.0 × (length o.0 ≤ suc (length rest)))
      r.seen (r ∷ kept, effects) (kept, shell_removed owner r.window ∷ effects)
      (λ f. ((find-sweep owner r.window rest h, v), omega arith)) (λ f. (v, omega arith))

swept-IsTold : (s : ShellState) → IsTable s → not (s.owner == 0) ≡ true → IsTold s (swept s)
swept-IsTold s t o =
    let (kept, effects) = sweep s.owner s.records in
    let (u, l) = sweep_kept s.owner s.records t.unique in
    let m = t.limited in
    record {
      table = record { unique = u; limited = omega arith; owned = λ e. absurd (owner_there s o e) };
      same_owner = refl;
      heard =
          hear_all-append s.owner effects (windows_done ∷ []) (view s.records)
          ∙ sweep_told s.owner s.records t.unique;
    }
  where
    owner_there : (s : ShellState) → not (s.owner == 0) ≡ true → s.owner ≢ 0
    owner_there s o e = ground arith

find-unseen :
    (w : ℕ) (rs : List ShellRecord) → find_info w rs ≡ none → find_info w (unseen rs) ≡ none
unfolding find_info
find-unseen w [] h = refl
find-unseen w (r ∷ rest) h = let (e, g) = other_window w r rest h in rw e (find-unseen w rest g)

unseen_kept :
    (rs : List ShellRecord)
    → IsUnique rs
    → IsUnique (unseen rs) × ((length (unseen rs) ≡ length rs) × (view (unseen rs) ≡ view rs))
unseen_kept [] u = (tt, (refl, refl))
unseen_kept (r ∷ rest) (h, u) =
    let (v, (l, w)) = unseen_kept rest u in
    ((find-unseen r.window rest h, v), (ap suc l, ap (λ t. (r.window, r.info) ∷ t) w))

-- The host has the table of the records after an operation, whoever the owner is then.
abbrev pub Follows : ShellState → ShellOutcome → Type 0
Follows s (t, effects) = IsTable t × (hear_all s.owner effects (view s.records) ≡ view t.records)

pub reset-IsTable : (s : ShellState) → IsTable (shell_reset s)
reset-IsTable s = record { unique = tt; limited = omega arith; owned = λ e. refl }

pub refresh-Follows :
    (env : ShellEnv) (roots : ShellTrees) (s : ShellState)
    → IsTable s
    → Follows s (shell_refresh env roots s)
unfolding shell_refresh
refresh-Follows env roots s t =
    let u : ShellState = record s { dirty = false; records = unseen s.records } in
    let (q, (l, w)) = unseen_kept s.records t.unique in
    let table : IsTable u = record {
      unique = q;
      limited = rw l t.limited;
      owned = λ e. rw (t.owned e) refl;
    } in
    let walked = walk env roots u in
    if-both (Follows s) (s.owner == 0 || not s.dirty) (s, [])
      (if env.external then (shell_reset s, shell_state s.owner false ∷ []) else after walked swept)
      (λ e. (t, refl))
      (λ e.
        let o : not (s.owner == 0) ≡ true = owner_of (s.owner == 0) (not s.dirty) e in
        if-both (Follows s) env.external (shell_reset s, shell_state s.owner false ∷ [])
          (after walked swept) (λ f. (reset-IsTable s, rw (==_refl s.owner) refl))
          (λ f.
            let p = walk-IsTold env roots u table o in
            let k =
              after-IsTold u walked swept p
                (swept-IsTold walked.0 p.table (same_owner_there u walked.0 p.same_owner o)) in
            (k.table, ap (hear_all s.owner (after walked swept).1) (sym w) ∙ k.heard)))
  where
    owner_of : (a b : Bool) → (a || b) ≡ false → not a ≡ true
    owner_of true b h = absurd cc
    owner_of false b h = refl
