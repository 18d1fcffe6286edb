-- ===== src/Exchange/Tests.antt =====
-- The exchange of data on concrete inputs: a drag over one window, and a run with a reset.
use magicdesk_x.Prelude.{
  ℕ, ◌≡◌, refl, true, false, ◌&&◌, Option, none, some, List, [], ◌∷◌, arith, ◌==◌, if◌then◌else◌,
  replicate,
}
use magicdesk_x.Prelude.Int.{ℤ, pos}
use magicdesk_x.Exchange.{
  no_offer, Offer, DragMove, DragState, ExportState, DataState, DataAtoms, DataEnv, PropertyValue,
  node, no_nodes, xdnd_status,
}
use magicdesk_x.Exchange.Transfers.{no_transfer, supported_name}
use magicdesk_x.Exchange.Replies.{HostEvent, host_move, all_lines, full_lines}
use magicdesk_x.Exchange.Selections.{told_xdnd}
use magicdesk_x.Exchange.Protocol.{phase_of, replay}
use magicdesk_x.Exchange.Steps.{IsBounded}
use magicdesk_x.Exchange.Runs.{
  DataEvent, commanded, sent, data_was_reset, data_step, data_step-Agrees, data_run,
  data_run-IsBounded,
}

abbrev text_atom : ℕ
text_atom = 60

abbrev test_atoms : DataAtoms
test_atoms = record {
  clipboard = 50;
  xdnd = 51;
  targets = 52;
  timestamp = 53;
  incr = 54;
  data_property = 55;
  aware = 56;
  copy = 57;
  type_list = 58;
  proxy = 59;
  atom_kind = 4;
  window_kind = 33;
  integer_kind = 19;
}

-- The only property is the XdndAware of window 9.
abbrev aware_only : ℕ → ℕ → Option PropertyValue
aware_only window property =
    if window == 9 && property == 56
    then some (record { kind = 4; format = 32; items = 5 ∷ [] })
    else none

abbrev test_env : DataEnv
test_env = record {
  atoms = test_atoms;
  time = 1000;
  window_exists = λ w. true;
  reachable = λ w. true;
  property = aware_only;
  change_succeeds = true;
  selection_owner = λ c. none;
  new_window = 20;
  new_file = some 7;
  file_io_succeeds = true;
  work_queued = true;
  timer_set = true;
  valid_atom = λ a. true;
  name_of_atom = λ a. [];
  atom_of_name = λ n. text_atom;
  point = λ o w x y. some (node 9 true false (pos 0) (pos 0) 100 100 true no_nodes, x, y);
  ancestors = λ w. w ∷ [];
}

abbrev no_move : DragMove
no_move = record { output = 0; window = 0; x = pos 0; y = pos 0 }

abbrev no_drag : DragState
no_drag = record {
  target = 0;
  proxy = 0;
  source = 2;
  output = 0;
  accepted = false;
  passthrough = false;
  position_pending = false;
  drop_pending = false;
  move_queued = false;
  move = no_move;
  data_revision = 0;
  position_data_revision = 0;
  version = 0;
}

abbrev no_export : ExportState
no_export = record {
  catcher = 0;
  source = 0;
  output = 0;
  window = 0;
  dropped = false;
  completed = false;
  success = false;
  timer = false;
}

abbrev host_text : Offer
host_text = record { generation = 3; owner = 2; time = 900; targets = text_atom ∷ []; local = true }

abbrev dragging : DataState
dragging = record {
  clipboard_offer = no_offer;
  drag_offer = host_text;
  transfers = replicate 16 no_transfer;
  bridge = 2;
  sequence = 0;
  request_sequence = 0;
  transfer_sequence = 0;
  pointer_output = 0;
  pointer_window = 0;
  enabled = true;
  clipboard_active = true;
  pointer_down = false;
  drag = no_drag;
  export = no_export;
}

abbrev move_to : ℤ → ℤ → HostEvent
move_to x y = record {
  operation = host_move;
  channel = 1;
  serial = 0;
  offer = 3;
  output = 1;
  window = 9;
  x = x;
  y = y;
  target = none;
}

-- The move enters the window below it.
data_step-Agrees_example :
    replay
      (data_step test_env dragging (commanded (move_to (pos 5) (pos 6)) none)).1
      (phase_of dragging.drag)
    ≡ some
        (phase_of (data_step test_env dragging (commanded (move_to (pos 5) (pos 6)) none)).0.drag)
data_step-Agrees_example =
    data_step-Agrees test_env dragging (commanded (move_to (pos 5) (pos 6)) none) refl

entered_target :
    (data_step test_env dragging (commanded (move_to (pos 5) (pos 6)) none)).0.drag.target ≡ 9
unfolding data_step
entered_target = refl

abbrev dragging_run : List (DataEnv × DataEvent)
dragging_run =
    (test_env, commanded (move_to (pos 5) (pos 6)) none)
    ∷ (test_env, sent (told_xdnd 2 xdnd_status 9 1 57))
    ∷ (test_env, data_was_reset)
    ∷ []

data_run-IsBounded_example : IsBounded (data_run dragging_run dragging)
data_run-IsBounded_example = data_run-IsBounded dragging_run dragging dragging-IsBounded
  where
    dragging-IsBounded : IsBounded dragging
    dragging-IsBounded = search arith

split_lines : full_lines (all_lines (65 ∷ 10 ∷ 10 ∷ 66 ∷ [])) ≡ (65 ∷ []) ∷ (66 ∷ []) ∷ []
unfolding all_lines full_lines
split_lines = refl

plain_text_name : supported_name (116 ∷ 47 ∷ 112 ∷ []) ≡ true
unfolding supported_name
plain_text_name = refl
