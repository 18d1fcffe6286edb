-- ===== src/Model/Events.antt =====
-- All that can happen to the model, with the host's table beside it.
use magicdesk_x.Prelude.{ℕ, Bool, true, false, none, List, [], ◌∷◌}
use magicdesk_x.Model.{
  ModelWindow, ModelTrees, ModelEnv, AtomName, ModelState, ModelEffect, ModelOutcome,
}
use magicdesk_x.Model.Publish.{model_refresh, model_reset, model_observe}
use magicdesk_x.Model.Confirms.{confirm_fullscreen, confirm_maximized, confirm_interaction}
use magicdesk_x.Model.Messages.{
  RootMessage, root_message, user_input, manager_changed, property_changed, window_destroyed,
  window_positioned, window_hooked, window_restacked,
}
use magicdesk_x.Model.Table.{Host, heard}

pub data ModelEvent : Type 0 where
  host_gone host_observes window_changed was_restacked : ModelEvent
  refreshed : ModelEnv → ModelTrees → ModelEvent
  fullscreen_confirmed : ModelEnv → ℕ → ℕ → Bool → ModelEvent
  maximized_confirmed interaction_confirmed : ModelEnv → ℕ → ℕ → ℕ → ModelEvent
  message_sent : ModelEnv → RootMessage → ModelEvent
  input_given : ModelEnv → ℕ → ModelEvent
  owner_changed : ModelEnv → ℕ → Bool → Bool → ModelEvent
  property_set : ModelWindow → AtomName → ModelEvent
  was_destroyed was_positioned : ℕ → ModelEvent

unfoldable pub model_step : ModelEvent → ModelState → ModelOutcome
unfolding model_refresh confirm_fullscreen confirm_maximized confirm_interaction root_message
    manager_changed property_changed window_destroyed window_positioned
model_step host_gone s = (model_reset s, [])
model_step host_observes s = (model_observe s, [])
model_step window_changed s = window_hooked s
model_step was_restacked s = window_restacked s
model_step (refreshed env roots) s = model_refresh env roots s
model_step (fullscreen_confirmed env id serial actual) s = confirm_fullscreen env s id serial actual
model_step (maximized_confirmed env id serial axes) s = confirm_maximized env s id serial axes
model_step (interaction_confirmed env id serial flags) s = confirm_interaction env s id serial flags
model_step (message_sent env m) s = (root_message env s m).0
model_step (input_given env id) s = (user_input env s id, [])
model_step (owner_changed env owner destroyed set_owner) s =
    manager_changed env s owner destroyed set_owner
model_step (property_set window name) s = property_changed s window name
model_step (was_destroyed id) s = window_destroyed s id
model_step (was_positioned id) s = window_positioned s id

abbrev pub is_input : ModelEvent → Bool
is_input (input_given env id) = true
is_input _ = false

-- A host that comes or goes has an empty table.
abbrev pub starts_anew : ModelEvent → Bool
starts_anew host_gone = true
starts_anew host_observes = true
starts_anew _ = false

abbrev pub empty_host : Host
empty_host id = none

abbrev pub host_after : Bool → Host → List ModelEffect → Host
host_after true h es = empty_host
host_after false h es = heard h es

abbrev pub ModelRun : Type 0
ModelRun = ModelState × Host

unfoldable pub model_run : List ModelEvent → ModelRun → ModelRun
unfolding model_step
model_run [] p = p
model_run (e ∷ es) (s, h) =
    let (t, effects) = model_step e s in model_run es (t, host_after (starts_anew e) h effects)

-- The state of a new process, with the window of the manager or None.
abbrev pub first_state : ℕ → ModelState
first_state manager = record {
  records = [];
  dirty = true;
  observing = false;
  manager = manager;
  state_serial = 0;
  last_input_window = 0;
  last_input_time = 0;
  considered = [];
}

-- What has become of a new process and of its host's table.
abbrev pub run_from : ℕ → List ModelEvent → ModelRun
run_from manager es = model_run es (first_state manager, empty_host)

-- The same after one more refresh.
abbrev pub refreshed_run : ModelEnv → ModelTrees → ModelRun → ModelRun
refreshed_run env roots (s, h) =
    let (t, effects) = model_refresh env roots s in (t, heard h effects)
