-- ===== src/Exchange.antt =====
-- Clipboard and drag-and-drop between the host and the X clients: data_exchange.c under
-- lorie/src/main/cpp/lorie. A channel is false for the clipboard and true for a drag, a window or an
-- atom that is None is 0, and a descriptor of -1 is `none`. What the X server knows is the record
-- `DataEnv`, what is sent and freed is a list of effects in order, and a pointer to a transfer is its
-- place. This file has the state; the children have the drag, the export, the transfers and commands.
pub mod Drag
pub mod Export
pub mod Transfers
pub mod Chunks
pub mod Selections
pub mod Replies
pub mod Commands
pub mod Protocol
pub mod Steps
pub mod RequestSteps
pub mod ChunkSteps
pub mod SelectionSteps
pub mod ClientSteps
pub mod ReplySteps
pub mod CommandSteps
pub mod Runs
mod Tests
pub use magicdesk_x.XServer.{PropertyValue}
use magicdesk_x.Prelude.{
  ℕ, zero, suc, ◌+◌, ◌-◌, ◌*◌, ◌/◌, ◌%◌, ◌^◌, ◌≤◌, ◌<◌, min, max, ◌≡◌, refl, sym, ap, ◌∙◌, ◌≢◌, ◌↔◌,
  ◌⊎◌, inl, inr, Bool, true, false, not, ◌&&◌, ◌||◌, Option, none, some, List, [], ◌∷◌, ◌++◌, map,
  arith, ltb, leb, ◌==◌, if◌then◌else◌, ltb→lt, lt→ltb, leb→le, ==_iff, tests, Bool-cases, if-both,
  not-true, not-false, Option-cases, length, get_elem?, get_or, set, replicate, length-append,
  length-set, get_or-default, get_or-set_self, get_or-set_ne, All,
}
use magicdesk_x.Prelude.Int.{
  ℤ, pos, negsuc, pos_part, neg_part, sub_ℕ, ◌+ℤ◌, ◌-ℤ◌, ◌≤ℤ◌, ◌<ℤ◌, ltb_ℤ, leb_ℤ, eqb_ℤ, max_ℤ,
  min_ℤ, lt_ℤ-cases, int_laws, neg_part_of_le, negative_part, no_negative_part, +ℤ_parts, -ℤ_parts,
  eq_of_parts,
}
use magicdesk_x.Prelude.Bits.{has_bit, set_bit, clear_bit}

abbrev pub max_bytes : ℕ
max_bytes = 134217728

abbrev pub max_targets : ℕ
max_targets = 64

abbrev pub chunk_size : ℕ
chunk_size = 65536

-- `Offer`; its count is the length of the targets.
pub record Offer : Type 0 where
  pub generation : ℕ
  pub owner : ℕ
  pub time : ℕ
  pub targets : List ℕ
  pub local : Bool

abbrev pub no_offer : Offer
no_offer = record { generation = 0; owner = 0; time = 0; targets = []; local = false }

-- `Transfer`; of its timer, whether there is one.
pub record Transfer : Type 0 where
  pub used : Bool
  pub incoming : Bool
  pub incremental : Bool
  pub listing : Bool
  pub serial : ℕ
  pub generation : ℕ
  pub ticket : ℕ
  pub queued : Bool
  pub channel : Bool
  pub fd : Option ℕ
  pub requestor : ℕ
  pub target : ℕ
  pub property : ℕ
  pub time : ℕ
  pub size : ℕ
  pub offset : ℕ
  pub timer : Bool

-- The fields of a move that are kept for later.
pub record DragMove : Type 0 where
  pub output : ℕ
  pub window : ℕ
  pub x : ℤ
  pub y : ℤ

-- The static variables of the drag.
pub record DragState : Type 0 where
  pub target : ℕ
  pub proxy : ℕ
  pub source : ℕ
  pub output : ℕ
  pub accepted : Bool
  pub passthrough : Bool
  pub position_pending : Bool
  pub drop_pending : Bool
  pub move_queued : Bool
  pub move : DragMove
  pub data_revision : ℕ
  pub position_data_revision : ℕ
  pub version : ℕ

-- The static variables of the export.
pub record ExportState : Type 0 where
  pub catcher : ℕ
  pub source : ℕ
  pub output : ℕ
  pub window : ℕ
  pub dropped : Bool
  pub completed : Bool
  pub success : Bool
  pub timer : Bool

-- All static variables but for the atoms.
pub record DataState : Type 0 where
  pub clipboard_offer : Offer
  pub drag_offer : Offer
  pub transfers : List Transfer
  pub bridge : ℕ
  pub sequence : ℕ
  pub request_sequence : ℕ
  pub transfer_sequence : ℕ
  pub pointer_output : ℕ
  pub pointer_window : ℕ
  pub enabled : Bool
  pub clipboard_active : Bool
  pub pointer_down : Bool
  pub drag : DragState
  pub export : ExportState

abbrev pub offer_of : DataState → Bool → Offer
offer_of s false = s.clipboard_offer
offer_of s true = s.drag_offer

abbrev pub with_offer : DataState → Bool → Offer → DataState
with_offer s false offer = record s { clipboard_offer = offer }
with_offer s true offer = record s { drag_offer = offer }

-- `++counter` of a uint32_t.
abbrev pub next_u32 : ℕ → ℕ
next_u32 n = (n + 1) % 2 ^ 32

pub data DataOperation : Type 0 where
  offer_operation request_operation reply_operation status_operation : DataOperation
  finish_operation cancel_operation : DataOperation

-- The client messages of XDND.
pub data XdndMessage : Type 0 where
  xdnd_enter xdnd_position xdnd_leave xdnd_drop xdnd_status xdnd_finished : XdndMessage

pub data DataEffect : Type 0 where
  -- operation, channel, serial, generation, target, descriptor, output, window and x.
  emitted : DataOperation → Bool → ℕ → ℕ → Option ℕ → Option ℕ → ℕ → ℕ → ℕ → DataEffect
  -- Whether it can be delivered, the destination, the window, the message and its five words.
  client_message : Bool → ℕ → ℕ → XdndMessage → ℕ → ℕ → ℕ → ℕ → ℕ → DataEffect
  -- Whether it can be delivered, the transfer, and the property or None.
  selection_notify : Bool → Transfer → ℕ → DataEffect
  selection_request : ℕ → ℕ → Bool → ℕ → ℕ → DataEffect
  -- The window, the property, its type, and the bytes: from where in the file, and how many.
  change_chunk : ℕ → ℕ → ℕ → ℕ → ℕ → DataEffect
  change_words : ℕ → ℕ → ℕ → List ℕ → DataEffect
  write_file : ℕ → ℕ → List ℕ → DataEffect
  delete_property : ℕ → ℕ → DataEffect
  queue_work : ℕ → ℕ → DataEffect
  own_selection : Bool → DataEffect
  free_window configure_window : ℕ → DataEffect
  pointer_motion : DataEffect
  release_button : ℕ → ℕ → DataEffect
  close_file : ℕ → DataEffect

abbrev pub DataOutcome : Type 0
DataOutcome = DataState × List DataEffect

abbrev pub pair_effects : List DataEffect → DataOutcome → DataOutcome
pair_effects first (s, second) = (s, first ++ second)

-- One thing after the other.
infixl 5 ◌|>◌
abbrev pub ◌|>◌ : DataOutcome → (DataState → DataOutcome) → DataOutcome
(s, effects) |> next = pair_effects effects (next s)

-- The atoms that are tested.
pub record DataAtoms : Type 0 where
  pub clipboard : ℕ
  pub xdnd : ℕ
  pub targets : ℕ
  pub timestamp : ℕ
  pub incr : ℕ
  pub data_property : ℕ
  pub aware : ℕ
  pub copy : ℕ
  pub type_list : ℕ
  pub proxy : ℕ
  pub atom_kind : ℕ
  pub window_kind : ℕ
  pub integer_kind : ℕ

-- The windows below a point, from the top one down: the mapped extents, and whether the shapes of a
-- window have the point.
mutual
  pub data WindowNode : Type 0 where
    node : ℕ → Bool → Bool → ℤ → ℤ → ℕ → ℕ → Bool → WindowNodes → WindowNode

  pub data WindowNodes : Type 0 where
    no_nodes : WindowNodes
    more_nodes : WindowNode → WindowNodes → WindowNodes

-- The X server's answers during one call. `reachable` says that a window exists and has a client, and
-- `ancestors` are a window and its parents, the innermost first.
pub record DataEnv : Type 0 where
  pub atoms : DataAtoms
  pub time : ℕ
  pub window_exists : ℕ → Bool
  pub reachable : ℕ → Bool
  pub property : ℕ → ℕ → Option PropertyValue
  pub change_succeeds : Bool
  pub selection_owner : Bool → Option (ℕ × Bool)
  pub new_window : ℕ
  pub new_file : Option ℕ
  pub file_io_succeeds : Bool
  pub work_queued : Bool
  pub timer_set : Bool
  pub valid_atom : ℕ → Bool
  pub name_of_atom : ℕ → List ℕ
  pub atom_of_name : List ℕ → ℕ
  pub point : ℕ → ℕ → ℤ → ℤ → Option (WindowNode × ℤ × ℤ)
  pub ancestors : ℕ → List ℕ

abbrev pub selection_atom : DataEnv → Bool → ℕ
selection_atom env true = env.atoms.xdnd
selection_atom env false = env.atoms.clipboard

-- `message`.
abbrev pub message : DataEnv → ℕ → ℕ → XdndMessage → ℕ → ℕ → ℕ → ℕ → ℕ → List DataEffect
message env destination actual kind a b c d e =
    client_message (env.reachable destination) destination actual kind a b c d e ∷ []

-- `emit`.
abbrev pub emit : DataOperation → Bool → ℕ → ℕ → Option ℕ → Option ℕ → ℕ → ℕ → ℕ → List DataEffect
emit operation channel serial generation target fd output window x =
    emitted operation channel serial generation target fd output window x ∷ []

-- A place, counted from one before.
abbrev pub next_place : Option ℕ → Option ℕ
next_place none = none
next_place (some n) = some (suc n)
