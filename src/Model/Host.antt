-- ===== src/Model/Host.antt =====
-- The host's table over all that can happen to the model.
use magicdesk_x.Prelude.{ℕ, ◌≡◌, refl, ◌∙◌, inl, inr, Bool, true, false, none, List, [], ◌∷◌, All}
use magicdesk_x.Model.{
  outputs_changed, geometry_changed, destroyed_told, ModelTrees, ModelEnv, WindowRecord, ModelState,
}
use magicdesk_x.Model.Publish.{unpublished, model_reset, model_refresh}
use magicdesk_x.Model.Messages.{
  property_noted, property_changed, window_destroyed, window_positioned, mark_destroyed,
}
use magicdesk_x.Model.Table.{Host, IsKept, HasNoLive, HasOneLive, IsSynced}
use magicdesk_x.Model.Removal.{AreLive, IsFresh}
use magicdesk_x.Model.Reported.{
  IsReported, model_refresh-IsSynced, model_refresh-IsReported, model_refresh-cases,
  model_refresh-same_input,
}
use magicdesk_x.Model.Quiet.{
  silent-IsQuiet, IsSettled, IsAgreed, IsQuiet, dirty-IsQuiet, update_all-AreTouched,
  destroyed-IsTouched,
}
use magicdesk_x.Model.Steps.{message-IsQuiet}
use magicdesk_x.Model.Replies.{fullscreen-IsQuiet, maximized-IsQuiet, interaction-IsQuiet}
use magicdesk_x.Model.Events.{
  was_restacked, ModelEvent, host_gone, host_observes, window_changed, refreshed,
  fullscreen_confirmed, maximized_confirmed, interaction_confirmed, message_sent, input_given,
  owner_changed, property_set, was_destroyed, was_positioned, model_step, starts_anew, empty_host,
  host_after, model_run, first_state, run_from, refreshed_run, is_input,
}
use magicdesk_x.Model.Changes.{
  input-IsAgreed, owner-IsQuiet, all_marked, dirty_only, property-IsQuiet,
}

empty-IsKept : (m id : ℕ) (rs : List WindowRecord) → IsKept m id none (unpublished rs)
empty-IsKept m id [] = refl
empty-IsKept m id (r ∷ rs) = (λ e. absurd (cc e), λ e. empty-IsKept m id rs)

empty-HasNoLive :
    (id : ℕ) (rs : List WindowRecord) → HasNoLive id rs → HasNoLive id (unpublished rs)
empty-HasNoLive id [] u = u
empty-HasNoLive id (r ∷ rs) (e, u) = (e, empty-HasNoLive id rs u)

empty-HasOneLive :
    (id : ℕ) (rs : List WindowRecord) → HasOneLive id rs → HasOneLive id (unpublished rs)
empty-HasOneLive id [] u = u
empty-HasOneLive id (r ∷ rs) (o, u) = (λ e. empty-HasNoLive id rs (o e), empty-HasOneLive id rs u)

-- A host that starts anew agrees with the records, none of which it has been told of.
anew-IsSynced : (s : ModelState) (h : Host) → IsSynced s h → IsSynced (model_reset s) empty_host
anew-IsSynced s h y = record {
  kept = λ id. empty-IsKept s.manager id s.records;
  single = λ id. empty-HasOneLive id s.records (y.single id);
}

IsSettled-all : (rs : List WindowRecord) → AreLive rs → All IsFresh rs → All IsSettled rs
IsSettled-all [] a f = tt
IsSettled-all (r ∷ rs) (d, a) ((p, c), f) = (λ e. (c, d), IsSettled-all rs a f)

refresh-IsQuiet :
    (env : ModelEnv) (roots : ModelTrees) (s : ModelState) → IsQuiet s (model_refresh env roots s)
refresh-IsQuiet env roots s = record {
  unused = λ e. model_refresh-same_input env roots s ∙ e;
  agreed = λ h a. elim (model_refresh-cases env roots s h a.synced) [
    | inl e ↦ rw e a
    | inr r ↦ record {
      synced = model_refresh-IsSynced env roots s h a.synced;
      pending = λ d. IsSettled-all _ r.live r.fresh;
    }
  ];
}

anew-IsAgreed : (s : ModelState) (h : Host) → IsAgreed s h → IsAgreed (model_reset s) empty_host
anew-IsAgreed s h a = record { synced = anew-IsSynced s h a.synced; pending = λ d. absurd (cc d) }

-- The events that are not the host's coming and going, nor input.
abbrev is_quiet_event : ModelEvent → Bool
is_quiet_event host_gone = false
is_quiet_event host_observes = false
is_quiet_event (input_given env id) = false
is_quiet_event _ = true

model_step-IsQuiet :
    (e : ModelEvent) (s : ModelState) → is_quiet_event e ≡ true → IsQuiet s (model_step e s)
unfolding model_step property_changed window_destroyed window_positioned
model_step-IsQuiet host_gone s q = absurd (cc q)
model_step-IsQuiet host_observes s q = absurd (cc q)
model_step-IsQuiet (input_given env id) s q = absurd (cc q)
model_step-IsQuiet window_changed s q =
    silent-IsQuiet s (record s { dirty = true }) (outputs_changed ∷ []) (λ h. refl) (dirty_only s)
model_step-IsQuiet was_restacked s q =
    silent-IsQuiet s (record s { dirty = true }) (geometry_changed ∷ []) (λ h. refl) (dirty_only s)
model_step-IsQuiet (refreshed env roots) s q = refresh-IsQuiet env roots s
model_step-IsQuiet (fullscreen_confirmed env id serial actual) s q =
    fullscreen-IsQuiet env s id serial actual
model_step-IsQuiet (maximized_confirmed env id serial axes) s q =
    maximized-IsQuiet env s id serial axes
model_step-IsQuiet (interaction_confirmed env id serial flags) s q =
    interaction-IsQuiet env s id serial flags
model_step-IsQuiet (message_sent env m) s q = message-IsQuiet env s m
model_step-IsQuiet (owner_changed env owner destroyed set_owner) s q =
    owner-IsQuiet env s owner destroyed set_owner
model_step-IsQuiet (property_set window name) s q =
    silent-IsQuiet s (property_noted s window name) (outputs_changed ∷ []) (λ h. refl)
      (property-IsQuiet s window name)
model_step-IsQuiet (was_destroyed id) s q =
    silent-IsQuiet s (window_destroyed s id).0 (destroyed_told id ∷ []) (λ h. refl)
      (dirty-IsQuiet s (window_destroyed s id).0 refl (λ k. k)
        (λ j.
          update_all-AreTouched s.manager j id mark_destroyed s.records
            (λ r. destroyed-IsTouched s.manager j r)))
model_step-IsQuiet (was_positioned id) s q =
    silent-IsQuiet s (window_positioned s id).0 (outputs_changed ∷ []) (λ h. refl)
      (dirty-IsQuiet s (window_positioned s id).0 refl (λ k. k)
        (λ j. all_marked s.manager j id s.records))

-- The table after an event agrees with the records after it.
model_step-IsAgreed :
    (e : ModelEvent) (s : ModelState) (h : Host)
    → IsAgreed s h
    → IsAgreed (model_step e s).0 (host_after (starts_anew e) h (model_step e s).1)
unfolding model_step
model_step-IsAgreed host_gone s h a = anew-IsAgreed s h a
model_step-IsAgreed host_observes s h a =
    let b = anew-IsAgreed s h a in
    record {
      synced = record { kept = b.synced.kept; single = b.synced.single };
      pending = λ d. absurd (cc d);
    }
model_step-IsAgreed (input_given env id) s h a = input-IsAgreed env s id h a
model_step-IsAgreed e s h a = (model_step-IsQuiet e s refl).agreed h a

-- No event but input brings back input that has been used up.
pub model_step-unused :
    (e : ModelEvent) (s : ModelState)
    → is_input e ≡ false
    → s.last_input_time ≡ 0
    → (model_step e s).0.last_input_time ≡ 0
unfolding model_step
model_step-unused host_gone s n u = u
model_step-unused host_observes s n u = u
model_step-unused (input_given env id) s n u = absurd (cc n)
model_step-unused e s n u = (model_step-IsQuiet e s refl).unused u

first-IsAgreed : (manager : ℕ) → IsAgreed (first_state manager) empty_host
first-IsAgreed manager = record {
  synced = record { kept = λ id. refl; single = λ id. tt };
  pending = λ d. tt;
}

run-IsAgreed :
    (es : List ModelEvent) (s : ModelState) (h : Host)
    → IsAgreed s h
    → IsAgreed (model_run es (s, h)).0 (model_run es (s, h)).1
unfolding model_run
run-IsAgreed [] s h a = a
run-IsAgreed (e ∷ es) s h a =
    run-IsAgreed es (model_step e s).0 (host_after (starts_anew e) h (model_step e s).1)
      (model_step-IsAgreed e s h a)

-- Whatever has happened to the model since its process started: for each window id, at most one of the
-- records was told to the host, and the host's entry is what that record says unless the record is
-- marked as changed; ids without such a record have no entry; at most one record of an id is of a window
-- that is there; and while the model is not dirty, no record that was told is changed or destroyed.
pub model_run-IsAgreed :
    (es : List ModelEvent) (manager : ℕ) → IsAgreed (run_from manager es).0 (run_from manager es).1
model_run-IsAgreed es manager =
    run-IsAgreed es (first_state manager) empty_host (first-IsAgreed manager)

-- Whatever has happened to the model since its process started, if a host observes it and it is dirty,
-- then a refresh leaves it not dirty, with no record of a destroyed window and none that is unpublished
-- or changed, and the host's table is exactly what the records say: the entry of each window id is what
-- its record says, and an id without a record has no entry.
pub model_run-IsReported :
    (es : List ModelEvent) (manager : ℕ) (env : ModelEnv) (roots : ModelTrees)
    → (run_from manager es).0.observing ≡ true
    → (run_from manager es).0.dirty ≡ true
    → IsReported
        (refreshed_run env roots (run_from manager es)).0
        (refreshed_run env roots (run_from manager es)).1
model_run-IsReported es manager env roots o d =
    let (s, h) = run_from manager es in
    model_refresh-IsReported env roots s h o d (model_run-IsAgreed es manager).synced
