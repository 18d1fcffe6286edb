-- ===== src/Exchange/Commands.antt =====
-- The host's commands: `lorieDataCommand`, the list of targets that comes with an offer, and the reset.
-- `own` is a call of the X server's selections, an effect here.
use magicdesk_x.Prelude.{
  ℕ, zero, suc, ◌+◌, Bool, true, false, not, ◌&&◌, ◌||◌, Option, none, some, [], ◌∷◌, ltb, ◌==◌,
  if◌then◌else◌, length,
}
use magicdesk_x.Prelude.Int.{ℤ, pos, eqb_ℤ}
use magicdesk_x.Exchange.{
  no_offer, DragMove, DragState, DataState, offer_of, with_offer, change_words, own_selection,
  free_window, DataOutcome, ◌|>◌, DataEnv,
}
use magicdesk_x.Exchange.Drag.{with_drag, leave_message, move_drag, drop_drag}
use magicdesk_x.Exchange.Export.{with_export, release_export_pointer, end_export, begin_export}
use magicdesk_x.Exchange.Transfers.{release, request}
use magicdesk_x.Exchange.Replies.{
  HostFile, HostOperation, HostEvent, read_targets, host_offer_of, then_close, host_replied,
  host_enable, host_offer, host_read, host_reply, host_enter, host_move, host_leave, host_drop,
  host_finish, host_cancel, host_begin, host_other,
}

-- The variables of a drag that a command sets back.
abbrev pub idle_drag : DragState → DragState
idle_drag d = record d {
  target = 0;
  accepted = false;
  move_queued = false;
  drop_pending = false;
  position_pending = false;
}

-- Whether the host lets a drag of an X client pass over the windows.
abbrev pub passes_through : DataState → Bool → HostEvent → Bool
passes_through s channel event =
    not (eqb_ℤ event.x (pos 0))
    && (not (offer_of s channel).local && (offer_of s channel).generation == event.offer)

-- Whether there is nothing to enter with.
abbrev pub kept_out : DataState → Bool → HostEvent → Bool
kept_out s channel event = not (passes_through s channel event) && not (offer_of s channel).local

-- The variables of a drag that comes from the host.
abbrev pub drag_entered : DataState → Bool → HostEvent → DragState
drag_entered s channel event = record s.drag {
  passthrough = passes_through s channel event;
  source = s.bridge;
  target = 0;
  output = event.output;
  accepted = false;
  data_revision = 0;
  position_data_revision = 0;
  move_queued = false;
  drop_pending = false;
  position_pending = false;
}

-- LORIE_DATA_ENTER.
unfoldable pub host_entered : DataEnv → DataState → Bool → HostEvent → DataOutcome
host_entered env s channel event =
    let through = passes_through s channel event in
    if kept_out s channel event
    then (with_drag s (record s.drag { passthrough = through; source = s.bridge }), [])
    else (
      with_drag s (drag_entered s channel event),
      change_words s.bridge env.atoms.type_list env.atoms.atom_kind (offer_of s channel).targets
          ∷ [],
    )

-- The end of an export that the host tells.
unfoldable pub export_completed : DataEnv → DataState → Bool → DataOutcome
unfolding release_export_pointer end_export
export_completed env s success =
    if s.export.source == 0
    then (s, [])
    else release_export_pointer env
        (with_export s (record s.export { completed = true; success = success }))
      |> (λ u. if u.export.dropped then end_export env u else (u, []))

-- LORIE_DATA_FINISH and LORIE_DATA_CANCEL: the export, and the end of the drag.
unfoldable pub host_finished : DataEnv → DataState → Bool → DataOutcome
unfolding export_completed
host_finished env s success =
    export_completed env s success |> (λ u. (with_drag u (idle_drag u.drag), []))

-- The cases of the switch; the file is closed here.
unfoldable pub host_command :
    DataEnv → DataState → Bool → HostEvent → HostOperation → Option HostFile → DataOutcome
unfolding read_targets request host_replied host_entered move_drag drop_drag host_finished
    begin_export
host_command env s channel event host_offer file = then_close file (elim (read_targets env file) [
  | none ↦ (s, [])
  | some targets ↦
      (with_offer s channel (host_offer_of env s event.offer targets), own_selection channel ∷ [])
])
host_command env s channel event host_read file = then_close file (elim event.target [
  | none ↦ (s, [])
  | some target ↦ request env s channel event.serial event.offer target false
])
host_command env s channel event host_reply file = host_replied env s channel event file
host_command env s channel event host_enter file =
    then_close file (host_entered env s channel event)
host_command env s channel event host_move file =
    let move : DragMove = record {
      output = event.output;
      window = event.window;
      x = event.x;
      y = event.y;
    } in
    then_close file (move_drag env s move)
host_command env s channel event host_leave file =
    then_close file (with_drag s (idle_drag s.drag), leave_message env s.drag)
host_command env s channel event host_drop file = then_close file (drop_drag env s)
host_command env s channel event host_finish file =
    then_close file (host_finished env s (not (eqb_ℤ event.x (pos 0))))
host_command env s channel event host_cancel file = then_close file (host_finished env s false)
host_command env s channel event host_begin file = then_close file (begin_export env s)
host_command env s channel event host_enable file = then_close file (s, [])
host_command env s channel event host_other file = then_close file (s, [])

-- LORIE_DATA_ENABLE.
abbrev pub host_enabled : DataEnv → DataState → ℤ → DataState
host_enabled env s x = record s {
  enabled = true;
  clipboard_active = not (eqb_ℤ x (pos 0));
  bridge = if s.bridge == 0 then env.new_window else s.bridge;
}

abbrev pub is_enable : HostOperation → Bool
is_enable host_enable = true
is_enable host_offer = false
is_enable host_read = false
is_enable host_reply = false
is_enable host_enter = false
is_enable host_move = false
is_enable host_leave = false
is_enable host_drop = false
is_enable host_finish = false
is_enable host_cancel = false
is_enable host_begin = false
is_enable host_other = false

-- `lorieDataCommand`, while there is a screen.
unfoldable pub data_command : DataEnv → DataState → HostEvent → Option HostFile → DataOutcome
unfolding host_command
data_command env s event file =
    if ltb 1 event.channel
    then then_close file (s, [])
    else if is_enable event.operation
    then then_close file (host_enabled env s event.x, [])
    else if not s.enabled || s.bridge == 0
    then then_close file (s, [])
    else host_command env s (event.channel == 1) event event.operation file

unfoldable pub release_all : ℕ → ℕ → DataState → DataOutcome
unfolding release
release_all first zero s = (s, [])
release_all first (suc count) s = release s first |> (λ u. release_all (first + 1) count u)

-- The variables that `lorieDataReset` sets at its end.
abbrev pub reset_state : DataState → DataState
reset_state s = record s {
  bridge = 0;
  pointer_down = false;
  clipboard_offer = no_offer;
  drag_offer = no_offer;
  drag = record s.drag {
    target = 0;
    source = 0;
    move_queued = false;
    drop_pending = false;
    position_pending = false;
  };
}

abbrev pub disabled : DataState → DataState
disabled s = record s { enabled = false; clipboard_active = false }

-- `lorieDataReset`.
unfoldable pub data_reset : DataEnv → DataState → DataOutcome
unfolding end_export release_all
data_reset env s =
    end_export env s
    |> (λ u. release_all 0 (length u.transfers) (disabled u))
    |> (λ u. (reset_state u, if u.bridge == 0 then [] else free_window u.bridge ∷ []))
