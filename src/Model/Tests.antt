-- ===== src/Model/Tests.antt =====
-- A desktop of two windows, a host that observes it, and what it is told.
use magicdesk_x.Prelude.{
  All, ℕ, ◌≡◌, refl, Bool, true, false, Option, none, some, List, [], ◌∷◌, ◌++◌, ◌==◌,
  if◌then◌else◌,
}
use magicdesk_x.Window.State.{fullscreen_request, activation_timestamp}
use magicdesk_x.Model.{
  window_unmapped, focus_set, PropertyValue, AtomName, net_wm_state, state_fullscreen,
  state_horizontal, state_vertical, state_hidden, state_attention, state_modal, wm_state, wm_class,
  wm_name, net_wm_name, wm_hints, wm_normal_hints, wm_transient_for, wm_client_leader, wm_protocols,
  wm_delete_window, wm_take_focus, wm_change_state, net_active_window, net_wm_moveresize,
  net_wm_icon, window_type, type_desktop, type_dock, type_splash, type_dialog, type_dnd,
  type_tooltip, supporting_check, net_supported, ModelWindow, ModelTrees, branch, no_branches,
  more_branches, ModelEnv, ModelState, RecordInfo,
}
use magicdesk_x.Model.Records.{
  is_application, reference, has_atom, record_for, find_live, with_record, new_record, update_live,
}
use magicdesk_x.Model.Publish.{
  is_stale, model_refresh, publish_window, tell_record, walk_branches, purge, sweep, title_of,
}
use magicdesk_x.Model.Confirms.{states_with}
use magicdesk_x.Model.Messages.{
  RootMessage, may_activate, root_message, window_positioned, update_all,
}
use magicdesk_x.Model.Focus.{family_member, belongs_to, transient_of}
use magicdesk_x.Model.Blur.{BlurEnv, blur_window, blur_device, grab_popup, stays_mapped}
use magicdesk_x.Model.Families.{IsOwnEnd, blur_window-own}
use magicdesk_x.Family.{family_contains, search, walk}
use magicdesk_x.Model.Reported.{IsReported}
use magicdesk_x.Model.Quiet.{IsAgreed}
use magicdesk_x.Model.Events.{
  ModelEvent, host_observes, refreshed, was_positioned, was_destroyed, model_step, model_run,
  first_state, empty_host, run_from, refreshed_run,
}
use magicdesk_x.Model.Host.{model_run-IsAgreed, model_run-IsReported}
use magicdesk_x.Model.Shown.{model_run-shown, model_run-gone}
use magicdesk_x.Model.Present.{IsPresent}
use magicdesk_x.Model.Requests.{root_message-once, Others, states_with-sets}

abbrev number_of : AtomName → ℕ
number_of net_wm_state = 500
number_of state_fullscreen = 501
number_of state_horizontal = 502
number_of state_vertical = 503
number_of state_hidden = 504
number_of state_attention = 505
number_of state_modal = 506
number_of wm_state = 507
number_of wm_class = 508
number_of wm_name = 509
number_of net_wm_name = 510
number_of wm_hints = 511
number_of wm_normal_hints = 512
number_of wm_transient_for = 513
number_of wm_client_leader = 514
number_of wm_protocols = 515
number_of wm_delete_window = 516
number_of wm_take_focus = 517
number_of wm_change_state = 518
number_of net_active_window = 519
number_of net_wm_moveresize = 520
number_of net_wm_icon = 521
number_of window_type = 522
number_of type_desktop = 523
number_of type_dock = 524
number_of type_splash = 525
number_of type_dialog = 526
number_of type_dnd = 527
number_of type_tooltip = 528
number_of supporting_check = 529
number_of net_supported = 530

abbrev text : List ℕ → Option PropertyValue
text bytes = some (record { kind = 31; format = 8; items = bytes })

abbrev editor_property : AtomName → Option PropertyValue
editor_property wm_class = text (101 ∷ 0 ∷ 69 ∷ 0 ∷ [])
editor_property net_wm_name = text (72 ∷ 105 ∷ [])
editor_property net_wm_state = some (record { kind = 4; format = 32; items = 501 ∷ 506 ∷ [] })
editor_property _ = none

-- An application whose window is mapped.
abbrev editor : ModelWindow
editor = record {
  id = 10;
  client = 7;
  parent = 1;
  input_output = true;
  override = false;
  realized = true;
  width = 100;
  height = 50;
  property = editor_property;
}

-- A menu, which the window manager leaves alone.
abbrev menu : ModelWindow
menu = record {
  id = 11;
  client = 7;
  parent = 1;
  input_output = true;
  override = true;
  realized = true;
  width = 20;
  height = 80;
  property = λ name. none;
}

abbrev desktop : ModelTrees
desktop =
    more_branches (branch menu no_branches) (more_branches (branch editor no_branches) no_branches)

abbrev window_at : ℕ → Option ModelWindow
window_at id = if id == 10 then some editor else if id == 11 then some menu else none

abbrev server : ModelEnv
server = record {
  atom = number_of;
  root = 1;
  lookup = window_at;
  memory = true;
  change_succeeds = true;
  now = 5000;
  gesture_allowed = λ window button. true;
  beyond = 0;
}

abbrev some_events : List ModelEvent
some_events = host_observes ∷ refreshed server desktop ∷ was_positioned 10 ∷ []

model_run-IsAgreed_example : IsAgreed (run_from 9 some_events).0 (run_from 9 some_events).1
model_run-IsAgreed_example = model_run-IsAgreed some_events 9

observed : (run_from 9 some_events).0.observing ≡ true
unfolding model_run model_step model_refresh walk_branches publish_window record_for is_application
    find_live new_record update_live tell_record is_stale purge sweep window_positioned has_atom
    reference
observed = refl

moved : (run_from 9 some_events).0.dirty ≡ true
unfolding model_run model_step model_refresh walk_branches publish_window record_for is_application
    find_live new_record update_live tell_record is_stale purge sweep window_positioned has_atom
    reference
moved = refl

model_run-IsReported_example :
    IsReported
      (refreshed_run server desktop (run_from 9 some_events)).0
      (refreshed_run server desktop (run_from 9 some_events)).1
model_run-IsReported_example = model_run-IsReported some_events 9 server desktop observed moved

editor-is_application : is_application server editor ≡ true
unfolding is_application reference has_atom
editor-is_application = refl

model_run-shown_example :
    (info : RecordInfo) × (((refreshed_run server desktop (run_from 9 some_events)).1 10
        ≡ some info)
      × IsPresent server editor info)
model_run-shown_example =
    model_run-shown some_events 9 server desktop (menu ∷ []) [] editor observed moved refl tt
      editor-is_application refl refl

model_run-gone_example : (refreshed_run server desktop (run_from 9 some_events)).1 12 ≡ none
model_run-gone_example =
    model_run-gone some_events 9 server desktop 12 observed moved (refl, (refl, tt))

-- What the host is told of the editor: its title, and the fullscreen state that it starts with.
abbrev told_title : Option RecordInfo → List ℕ × Bool
told_title none = ([], false)
told_title (some info) = (info.title, info.fullscreen.requested)

editor_told :
    told_title ((run_from 9 (host_observes ∷ refreshed server desktop ∷ [])).1 10)
    ≡ (72 ∷ 105 ∷ [], true)
unfolding model_run model_step model_refresh walk_branches publish_window record_for is_application
    find_live new_record update_live tell_record is_stale purge sweep has_atom reference title_of
    fullscreen_request
editor_told = refl

-- The editor is destroyed, and the host forgets it.
editor_gone :
    told_title (
      (run_from 9 (
          host_observes
          ∷ refreshed server desktop
          ∷ was_destroyed 10
          ∷ refreshed server no_branches
          ∷ [])).1
        10)
    ≡ ([], false)
unfolding model_run model_step model_refresh walk_branches publish_window record_for is_application
    find_live new_record update_live tell_record is_stale purge sweep has_atom reference title_of
    fullscreen_request update_all
editor_gone = refl

abbrev activation : RootMessage
activation = record { window = 10; kind = 519; first = 1; second = 4000; third = 0; fourth = 0 }

abbrev managed : ModelState
managed = record (first_state 9) { last_input_window = 10; last_input_time = 3500 }

abbrev with_editor : ModelState
with_editor = with_record server managed editor

editor_recorded : record_for server managed editor ≡ some with_editor
unfolding record_for is_application has_atom reference find_live
editor_recorded = refl

root_message-once_example :
    may_activate server
      (model_run
        (was_positioned 10 ∷ [])
        ((root_message server managed activation).0.0, empty_host)).0
      editor
      4000
    ≡ false
root_message-once_example =
    root_message-once server managed with_editor activation editor (was_positioned 10 ∷ [])
      empty_host server editor 4000 refl refl refl editor_recorded (refl, tt)

-- Before the message the activation was allowed.
activation_allowed : may_activate server managed editor 4000 ≡ true
unfolding may_activate activation_timestamp
activation_allowed = refl

states_with-sets_example :
    (others : List ℕ) × (Others 501 501 (501 ∷ 506 ∷ []) others
      × (states_with server editor 501 501 true false ≡ others ++ ((501 ∷ []) ++ [])))
states_with-sets_example = states_with-sets server editor 501 501 true false

abbrev popup_property : AtomName → Option PropertyValue
popup_property wm_transient_for = some (record { kind = 33; format = 32; items = 10 ∷ [] })
popup_property _ = none

-- A menu of the editor, which grabs the keyboard.
abbrev popup : ModelWindow
popup = record menu { id = 13; property = popup_property }

abbrev losing_focus : BlurEnv
losing_focus = record {
  model = record server { lookup = λ id. if id == 13 then some popup else window_at id };
  grab = λ device. if device == 0 then some 13 else none;
  grab_after = λ device id. none;
  focus = λ device. some 10;
  focus_after = λ device. some 10;
}

blur_window-own_example :
    All (IsOwnEnd losing_focus editor) (blur_window losing_focus (some editor))
blur_window-own_example = blur_window-own losing_focus editor

popup_dismissed : blur_window losing_focus (some editor) ≡ window_unmapped 13 ∷ focus_set 0 ∷ []
unfolding blur_window blur_device grab_popup stays_mapped family_member belongs_to transient_of
    family_contains search walk reference has_atom
popup_dismissed = refl
