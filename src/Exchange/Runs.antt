-- ===== src/Exchange/Runs.antt =====
-- All that can happen to the exchange of data, one event after the other.
use magicdesk_x.Prelude.{
  true, false, sym, ap, inl, inr, Bool-cases, if◌then◌else◌, ℕ, ◌≡◌, refl, Bool, not, ◌&&◌, ◌||◌,
  Option, some, List, [], ◌∷◌, ltb, ◌==◌, if-both,
}
use magicdesk_x.Exchange.{
  DataState, XdndMessage, xdnd_enter, xdnd_position, xdnd_leave, xdnd_drop, xdnd_status,
  xdnd_finished, DataOutcome, DataEnv,
}
use magicdesk_x.Exchange.Drag.{with_drag}
use magicdesk_x.Exchange.Export.{data_pointer, export_expired}
use magicdesk_x.Exchange.Transfers.{expired}
use magicdesk_x.Exchange.Chunks.{property_work, property_changed}
use magicdesk_x.Exchange.Selections.{
  ConvertRequest, convert, SentEvent, notified, told_xdnd, send_event, selection_changed,
}
use magicdesk_x.Exchange.Commands.{kept_out, idle_drag, is_enable, data_command, data_reset}
use magicdesk_x.Exchange.Replies.{
  HostEvent, HostFile, HostOperation, host_enable, host_offer, host_read, host_reply, host_enter,
  host_move, host_leave, host_drop, host_finish, host_cancel, host_begin, host_other,
}
use magicdesk_x.Exchange.Protocol.{Phase, away, over, waiting, phase_of, replay}
use magicdesk_x.Prelude.Bits.{has_bit}
use magicdesk_x.Exchange.Steps.{IsBounded, IsStep, expired-IsStep}
use magicdesk_x.Exchange.ChunkSteps.{property_work-IsStep, property_changed-IsStep}
use magicdesk_x.Exchange.SelectionSteps.{
  nothing-IsStep, export_expired-IsStep, selection_changed-IsStep,
}
use magicdesk_x.Exchange.ClientSteps.{
  performed, heard_message, heard_event, from_target, convert-IsStep, send_event-IsStep,
}
use magicdesk_x.Exchange.CommandSteps.{
  heard_command, heard_data, data_command-IsStep, data_reset-IsStep,
}

-- The commands, the pointer, the requests of clients, the callbacks, the timers and the reset.
pub data DataEvent : Type 0 where
  commanded : HostEvent → Option HostFile → DataEvent
  pointed : ℕ → ℕ → ℕ → Bool → DataEvent
  owner_changed : Bool → ℕ → ℕ → Bool → DataEvent
  converted : ConvertRequest → DataEvent
  sent : SentEvent → DataEvent
  property_touched : ℕ → ℕ → Bool → DataEvent
  work_run : ℕ → ℕ → DataEvent
  transfer_expired : ℕ → DataEvent
  export_timed_out data_was_reset : DataEvent

unfoldable pub data_step : DataEnv → DataState → DataEvent → DataOutcome
unfolding data_command data_pointer selection_changed convert send_event property_changed
    property_work expired export_expired data_reset
data_step env s (commanded event file) = data_command env s event file
data_step env s (pointed output window button down) = (data_pointer s output window button down, [])
data_step env s (owner_changed channel window time owned) =
    selection_changed env s channel window time owned
data_step env s (converted r) = performed s (convert env s r)
data_step env s (sent event) = performed s (send_event env s event)
data_step env s (property_touched window property deleted) =
    property_changed env s window property deleted
data_step env s (work_run n ticket) = property_work env s n ticket
data_step env s (transfer_expired n) = expired env s n
data_step env s export_timed_out = export_expired env s
data_step env s data_was_reset = data_reset env s

-- The state after what an event says: a command may begin or end a drag, a target answers a position or
-- has finished, and a reset ends the drag.
abbrev pub heard : DataEnv → DataState → DataEvent → DataState
heard env s (commanded event file) = heard_data env s event
heard env s (sent event) = heard_event env s event
heard env s data_was_reset = with_drag s (record s.drag { target = 0 })
heard env s (pointed output window button down) = s
heard env s (owner_changed channel window time owned) = s
heard env s (converted r) = s
heard env s (property_touched window property deleted) = s
heard env s (work_run n ticket) = s
heard env s (transfer_expired n) = s
heard env s export_timed_out = s

pointed-IsStep :
    (s : DataState) (output window button : ℕ) (down : Bool)
    → IsStep s (data_pointer s output window button down, [])
unfolding data_pointer replay
pointed-IsStep s output window button down =
    if-both (λ (u : DataState). IsStep s (u, []))
      (not (button == 1)
        || (not down && (not (s.pointer_output == output) || not (s.pointer_window == window))))
      s (record s { pointer_down = down; pointer_output = output; pointer_window = window })
      (λ e. nothing-IsStep s) (λ e. record { agrees = refl; bounds = λ b. b })

every_event-IsStep :
    (env : DataEnv) (s : DataState) (event : DataEvent)
    → IsStep (heard env s event) (data_step env s event)
unfolding data_step
every_event-IsStep env s (commanded event file) = data_command-IsStep env s event file
every_event-IsStep env s (pointed output window button down) =
    pointed-IsStep s output window button down
every_event-IsStep env s (owner_changed channel window time owned) =
    selection_changed-IsStep env s channel window time owned
every_event-IsStep env s (converted r) = convert-IsStep env s r
every_event-IsStep env s (sent event) = send_event-IsStep env s event
every_event-IsStep env s (property_touched window property deleted) =
    property_changed-IsStep env s window property deleted
every_event-IsStep env s (work_run n ticket) = property_work-IsStep env s n ticket
every_event-IsStep env s (transfer_expired n) = expired-IsStep env s n
every_event-IsStep env s export_timed_out = export_expired-IsStep env s
every_event-IsStep env s data_was_reset = data_reset-IsStep env s

-- The host's operations, and the reset, after which the bridge forgets its target without a message.
abbrev forgets_operation : HostOperation → Bool
forgets_operation host_enter = true
forgets_operation host_finish = true
forgets_operation host_cancel = true
forgets_operation _ = false

abbrev pub forgets : DataEvent → Bool
forgets (commanded event file) = forgets_operation event.operation
forgets data_was_reset = true
forgets _ = false

-- What a target itself says: with a status it answers the position and accepts or not, and when it has
-- finished nothing is over it any more.
abbrev told_phase : DataEnv → XdndMessage → ℕ → ℕ → Phase → Phase
told_phase env xdnd_status flags action away = away
told_phase env xdnd_status flags action (over p t a) =
    over p t (has_bit flags 0 && action == env.atoms.copy)
told_phase env xdnd_status flags action (waiting p t a) =
    over p t (has_bit flags 0 && action == env.atoms.copy)
told_phase env xdnd_finished flags action p = away
told_phase env kind flags action p = p

-- Whether an event is what the target says, and the phase after it; no other event says anything.
abbrev pub phase_told : DataEnv → DataState → DataEvent → Phase → Phase
phase_told env s (sent (told_xdnd window kind first flags action)) p =
    if s.enabled && from_target s window first then told_phase env kind flags action p else p
phase_told env s _ p = p

told_phase_lem :
    (env : DataEnv) (s : DataState) (kind : XdndMessage) (flags action : ℕ)
    → phase_of (heard_message env s kind flags action).drag
      ≡ told_phase env kind flags action (phase_of s.drag)
told_phase_lem env s xdnd_status flags action = elim (Bool-cases (s.drag.target == 0)) [
  | inl e ↦ rw e refl
  | inr e ↦ elim (Bool-cases s.drag.position_pending) [
    | inl w ↦ rw (e, w) refl
    | inr w ↦ rw (e, w) refl
  ]
]
told_phase_lem env s xdnd_finished flags action = refl
told_phase_lem env s xdnd_enter flags action = refl
told_phase_lem env s xdnd_position flags action = refl
told_phase_lem env s xdnd_leave flags action = refl
told_phase_lem env s xdnd_drop flags action = refl

command_phase :
    (env : DataEnv) (s : DataState) (channel : Bool) (event : HostEvent) (operation : HostOperation)
    → forgets_operation operation ≡ false
    → heard_command env s channel event operation ≡ s
command_phase env s channel event host_enter f = absurd (cc f)
command_phase env s channel event host_finish f = absurd (cc f)
command_phase env s channel event host_cancel f = absurd (cc f)
command_phase env s channel event host_offer f = refl
command_phase env s channel event host_read f = refl
command_phase env s channel event host_reply f = refl
command_phase env s channel event host_move f = refl
command_phase env s channel event host_leave f = refl
command_phase env s channel event host_drop f = refl
command_phase env s channel event host_begin f = refl
command_phase env s channel event host_enable f = refl
command_phase env s channel event host_other f = refl

heard_phase :
    (env : DataEnv) (s : DataState) (event : DataEvent)
    → forgets event ≡ false
    → phase_of (heard env s event).drag ≡ phase_told env s event (phase_of s.drag)
heard_phase env s (commanded event file) f =
    if-both (λ (u : DataState). phase_of u.drag ≡ phase_of s.drag)
      (ltb 1 event.channel || (is_enable event.operation || (not s.enabled || s.bridge == 0))) s
      (heard_command env s (event.channel == 1) event event.operation) (λ e. refl)
      (λ e.
        ap (λ (u : DataState). phase_of u.drag)
          (command_phase env s (event.channel == 1) event event.operation f))
heard_phase env s (sent (notified requestor selection target property)) f = refl
heard_phase env s (sent (told_xdnd window kind first flags action)) f =
    elim (Bool-cases (s.enabled && from_target s window first)) [
      | inl e ↦ rw e (told_phase_lem env s kind flags action)
      | inr e ↦ rw e refl
    ]
heard_phase env s data_was_reset f = absurd (cc f)
heard_phase env s (pointed output window button down) f = refl
heard_phase env s (owner_changed channel window time owned) f = refl
heard_phase env s (converted r) f = refl
heard_phase env s (property_touched window property deleted) f = refl
heard_phase env s (work_run n ticket) f = refl
heard_phase env s (transfer_expired n) f = refl
heard_phase env s export_timed_out f = refl

-- For every event but the host's enter, finish and cancel and the reset, after which the bridge forgets its
-- target without a message, the XDND messages that the bridge sends are legal from where the drag was, if
-- the event is the target's answer or its end from where that leaves it: an entered target is left before
-- another is entered, a position goes to the entered target that has no position to answer, and a drop
-- goes to an entered target that has accepted and has no position to answer. After them the drag is where
-- the bridge's variables say.
pub data_step-Agrees :
    (env : DataEnv) (s : DataState) (event : DataEvent)
    → forgets event ≡ false
    → replay (data_step env s event).1 (phase_told env s event (phase_of s.drag))
      ≡ some (phase_of (data_step env s event).0.drag)
data_step-Agrees env s event f =
    rw (sym (heard_phase env s event f)) (every_event-IsStep env s event).agrees

-- One event after the other, each with what the X server answers.
unfoldable pub data_run : List (DataEnv × DataEvent) → DataState → DataState
unfolding data_step
data_run [] s = s
data_run ((env, event) ∷ events) s = data_run events (data_step env s event).0

command-IsBounded :
    (env : DataEnv) (s : DataState) (channel : Bool) (event : HostEvent) (operation : HostOperation)
    → IsBounded s
    → IsBounded (heard_command env s channel event operation)
command-IsBounded env s channel event host_enter b =
    if-both IsBounded (kept_out s channel event) s (with_drag s (idle_drag s.drag)) (λ e. b)
      (λ e. b)
command-IsBounded env s channel event host_finish b = b
command-IsBounded env s channel event host_cancel b = b
command-IsBounded env s channel event host_offer b = b
command-IsBounded env s channel event host_read b = b
command-IsBounded env s channel event host_reply b = b
command-IsBounded env s channel event host_move b = b
command-IsBounded env s channel event host_leave b = b
command-IsBounded env s channel event host_drop b = b
command-IsBounded env s channel event host_begin b = b
command-IsBounded env s channel event host_enable b = b
command-IsBounded env s channel event host_other b = b

message-IsBounded :
    (env : DataEnv) (s : DataState) (kind : XdndMessage) (flags action : ℕ)
    → IsBounded s
    → IsBounded (heard_message env s kind flags action)
message-IsBounded env s xdnd_status flags action b = b
message-IsBounded env s xdnd_finished flags action b = b
message-IsBounded env s xdnd_enter flags action b = b
message-IsBounded env s xdnd_position flags action b = b
message-IsBounded env s xdnd_leave flags action b = b
message-IsBounded env s xdnd_drop flags action b = b

heard-IsBounded :
    (env : DataEnv) (s : DataState) (event : DataEvent)
    → IsBounded s
    → IsBounded (heard env s event)
heard-IsBounded env s (commanded event file) b =
    let u = heard_command env s (event.channel == 1) event event.operation in
    if-both IsBounded
      (ltb 1 event.channel || (is_enable event.operation || (not s.enabled || s.bridge == 0))) s u
      (λ e. b) (λ e. command-IsBounded env s (event.channel == 1) event event.operation b)
heard-IsBounded env s (sent (notified requestor selection target property)) b = b
heard-IsBounded env s (sent (told_xdnd window kind first flags action)) b =
    if-both IsBounded (s.enabled && from_target s window first)
      (heard_message env s kind flags action) s (λ e. message-IsBounded env s kind flags action b)
      (λ e. b)
heard-IsBounded env s data_was_reset b = b
heard-IsBounded env s (pointed output window button down) b = b
heard-IsBounded env s (owner_changed channel window time owned) b = b
heard-IsBounded env s (converted r) b = b
heard-IsBounded env s (property_touched window property deleted) b = b
heard-IsBounded env s (work_run n ticket) b = b
heard-IsBounded env s (transfer_expired n) b = b
heard-IsBounded env s export_timed_out b = b

-- Over any run from a state in which it holds, no transfer is larger than LORIE_DATA_MAX_BYTES and no
-- offer has more than LORIE_DATA_MAX_TARGETS targets, whatever owners, requestors and the host send.
pub data_run-IsBounded :
    (events : List (DataEnv × DataEvent)) (s : DataState)
    → IsBounded s
    → IsBounded (data_run events s)
unfolding data_run
data_run-IsBounded [] s b = b
data_run-IsBounded ((env, event) ∷ events) s b =
    data_run-IsBounded events (data_step env s event).0
      ((every_event-IsStep env s event).bounds (heard-IsBounded env s event b))
