-- ===== src/Exchange/Selections.antt =====
-- The requests of X clients: a selection that changes its owner, ConvertSelection and SendEvent. `none`
-- as an outcome means that the request goes on to the X server's own procedure.
use magicdesk_x.Prelude.{
  ℕ, zero, suc, ◌+◌, Bool, true, false, not, ◌&&◌, ◌||◌, Option, none, some, List, [], ◌∷◌, ltb,
  ◌==◌, if◌then◌else◌, length,
}
use magicdesk_x.Prelude.Bits.{has_bit}
use magicdesk_x.Exchange.{
  Offer, Transfer, DragState, DataState, offer_of, with_offer, next_u32, request_operation,
  cancel_operation, status_operation, finish_operation, XdndMessage, xdnd_enter, xdnd_position,
  xdnd_leave, xdnd_drop, xdnd_status, xdnd_finished, change_words, DataOutcome, ◌|>◌, DataEnv,
  message, selection_atom, emit, next_place,
}
use magicdesk_x.Exchange.Drag.{with_drag, move_drag, drop_drag}
use magicdesk_x.Exchange.Export.{with_export, end_export}
use magicdesk_x.Exchange.Transfers.{
  no_transfer, transfer_at, put_transfer, notify, release, fail, allocate, request,
}
use magicdesk_x.Exchange.Chunks.{receive}

-- Every transfer of a channel among the first ones fails.
unfoldable pub fail_channel : DataEnv → Bool → ℕ → ℕ → DataState → DataOutcome
unfolding fail
fail_channel env channel first zero s = (s, [])
fail_channel env channel first (suc count) s =
    let t = transfer_at s first in
    let same = if t.channel then channel else not channel in
    (if t.used && same then fail env s first else (s, []))
    |> (λ u. fail_channel env channel (first + 1) count u)

-- The new offer of a client.
abbrev pub client_offer : ℕ → ℕ → ℕ → Offer
client_offer generation owner time = record {
  generation = generation;
  owner = owner;
  time = time;
  targets = [];
  local = false;
}

-- The end of `selectionChanged`, with the new offer in place.
abbrev pub offer_made : DataEnv → Bool → ℕ → ℕ → Bool → DataState → DataOutcome
offer_made env channel window generation owned s =
    if not owned || window == 0
    then (
      s,
      if channel
          then emit cancel_operation true 0 generation none none s.pointer_output s.pointer_window 0
          else [],
    )
    else if (if channel then s.pointer_down else s.clipboard_active)
    then request env s channel 0 generation env.atoms.targets true
    else (s, [])

-- The new offer.
abbrev pub offer_replaced : Bool → ℕ → ℕ → ℕ → DataState → DataState
offer_replaced channel window time generation s =
    with_offer (record s { sequence = generation }) channel (client_offer generation window time)

-- The part of `selectionChanged` after the export has ended.
unfoldable pub offer_changed : DataEnv → Bool → ℕ → ℕ → Bool → DataState → DataOutcome
unfolding fail_channel request
offer_changed env channel window time owned s =
    fail_channel env channel 0 (length s.transfers) s |> (λ u.
      let generation = next_u32 u.sequence in
      offer_made env channel window generation owned
        (offer_replaced channel window time generation u))

-- `selectionChanged` for the clipboard or XdndSelection: the new owner window, and whether a client
-- has set itself as the owner.
unfoldable pub selection_changed : DataEnv → DataState → Bool → ℕ → ℕ → Bool → DataOutcome
unfolding end_export offer_changed
selection_changed env s channel window time owned =
    if not s.enabled || window == s.bridge
    then (s, [])
    else (if channel && (not (s.export.source == 0) && not (window == s.export.source))
        then end_export env s
        else (s, []))
      |> (λ u. offer_changed env channel window time owned u)

-- `xConvertSelectionReq`.
pub record ConvertRequest : Type 0 where
  pub requestor : ℕ
  pub selection : ℕ
  pub target : ℕ
  pub property : ℕ
  pub time : ℕ

abbrev pub channel_of_selection : DataEnv → ℕ → Option Bool
channel_of_selection env selection =
    if selection == env.atoms.clipboard
    then some false
    else if selection == env.atoms.xdnd
    then some true
    else none

-- What `outgoingTransfer` fills in.
abbrev pub outgoing : Transfer → ConvertRequest → Transfer
outgoing t r = record t {
  requestor = r.requestor;
  target = r.target;
  property = if r.property == 0 then r.target else r.property;
  time = r.time;
}

-- The transfer that is refused because there is no room for it.
abbrev pub rejected : Bool → ConvertRequest → Transfer
rejected channel r = record no_transfer {
  channel = channel;
  requestor = r.requestor;
  target = r.target;
  time = r.time;
}

unfoldable pub offers_target : ℕ → List ℕ → Bool
offers_target target [] = false
offers_target target (a ∷ rest) = a == target || offers_target target rest

-- An answer that the bridge itself has.
unfoldable pub answer_self : DataEnv → DataState → ℕ → ℕ → List ℕ → DataOutcome
unfolding release
answer_self env s n kind values =
    let t = transfer_at s n in
    (s, change_words t.requestor t.property kind values ∷ notify env t env.change_succeeds)
    |> (λ u. release u n)

-- Whether a request names a window or an atom that is not there.
abbrev pub unanswerable : DataEnv → Transfer → Bool
unanswerable env t =
    not (env.window_exists t.requestor)
    || (not (env.valid_atom t.target) || not (env.valid_atom t.property))

-- The answer for a target: the bridge has it, or the host is asked.
unfoldable pub answer_target : DataEnv → DataState → ℕ → DataOutcome
unfolding fail answer_self offers_target
answer_target env s n =
    let t = transfer_at s n in
    let offer = offer_of s t.channel in
    if t.target == env.atoms.targets
    then answer_self env s n env.atoms.atom_kind
        (env.atoms.targets ∷ env.atoms.timestamp ∷ offer.targets)
    else if t.target == env.atoms.timestamp
    then answer_self env s n env.atoms.integer_kind (offer.time ∷ [])
    else if offers_target t.target offer.targets
    then (s, emit request_operation t.channel t.serial t.generation (some t.target) none 0 0 0)
    else fail env s n

-- The part of `convert` for a transfer that has its place.
unfoldable pub answer_request : DataEnv → DataState → ℕ → DataOutcome
unfolding fail answer_target
answer_request env s n =
    if unanswerable env (transfer_at s n) then fail env s n else answer_target env s n

-- `convert` for a channel that the host offers.
unfoldable pub convert_local : DataEnv → DataState → Bool → ConvertRequest → DataOutcome
unfolding allocate answer_request
convert_local env s channel r =
    let serial = next_u32 s.request_sequence in
    let u = record s { request_sequence = serial } in
    elim (allocate env u false channel serial (offer_of s channel).generation) [
      | none ↦ (u, notify env (rejected channel r) false)
      | some (v, n) ↦ answer_request env (put_transfer v n (outgoing (transfer_at v n) r)) n
    ]

-- `convert`.
unfoldable pub convert : DataEnv → DataState → ConvertRequest → Option DataOutcome
unfolding convert_local
convert env s r = elim (channel_of_selection env r.selection) [
  | none ↦ none
  | some channel ↦
      if s.enabled && (offer_of s channel).local then some (convert_local env s channel r) else none
]

-- The events that `sendEvent` looks at; a client message has format 32.
pub data SentEvent : Type 0 where
  -- requestor, selection, target and property
  notified : ℕ → ℕ → ℕ → ℕ → SentEvent
  -- window, message, and the first, second and fifth word
  told_xdnd : ℕ → XdndMessage → ℕ → ℕ → ℕ → SentEvent

-- The incoming transfer that a SelectionNotify is about.
unfoldable pub notified_transfer : DataEnv → ℕ → ℕ → ℕ → List Transfer → Option ℕ
notified_transfer env requestor selection target [] = none
notified_transfer env requestor selection target (t ∷ rest) =
    let later = next_place (notified_transfer env requestor selection target rest) in
    if t.used
      && (t.incoming
          && (t.requestor == requestor
              && (t.target == target && selection_atom env t.channel == selection)))
    then some 0
    else later

-- A message to the window that catches an exported drag.
unfoldable pub catcher_told : DataEnv → DataState → XdndMessage → Option DataOutcome
unfolding end_export
catcher_told env s xdnd_position = some (
  s,
  message env s.export.source s.export.source xdnd_status s.export.catcher 3 0 0 env.atoms.copy,
)
catcher_told env s xdnd_enter = some (s, [])
catcher_told env s xdnd_leave = some (s, [])
catcher_told env s xdnd_drop =
    let u = with_export s (record s.export { dropped = true }) in
    some (if u.export.completed then end_export env u else (u, []))
catcher_told env s xdnd_status = none
catcher_told env s xdnd_finished = none

-- A move or a drop that has waited for the status.
unfoldable pub resume_move : DataEnv → DataState → DataOutcome
unfolding move_drag
resume_move env s =
    if s.drag.move_queued
    then move_drag env (with_drag s (record s.drag { move_queued = false })) s.drag.move
    else (s, [])

unfoldable pub resume_drop : DataEnv → DataState → DataOutcome
unfolding drop_drag
resume_drop env s = if s.drag.drop_pending then drop_drag env s else (s, [])

-- The target's answer to a position: its flags and its action.
unfoldable pub status_told : DataEnv → DataState → ℕ → ℕ → DataOutcome
unfolding resume_move resume_drop
status_told env s flags action =
    let accepted = has_bit flags 0 && action == env.atoms.copy in
    let d : DragState = record s.drag { position_pending = false; accepted = accepted } in
    (
      with_drag s d,
      emit status_operation true 0 s.drag_offer.generation none none d.output d.target
          (if accepted then 1 else 0),
    )
    |> (λ u. resume_move env u)
    |> (λ u. resume_drop env u)

-- A message of the target to the source of the drag.
unfoldable pub source_told : DataEnv → DataState → XdndMessage → ℕ → ℕ → Option DataOutcome
unfolding status_told
source_told env s xdnd_status flags action = some (status_told env s flags action)
source_told env s xdnd_finished flags action = some (
  with_drag s (record s.drag { target = 0 }),
  emit finish_operation true 0 s.drag_offer.generation none none s.drag.output s.drag.target
      (if ltb s.drag.version 5 || has_bit flags 0 then 1 else 0),
)
source_told env s xdnd_enter flags action = none
source_told env s xdnd_position flags action = none
source_told env s xdnd_leave flags action = none
source_told env s xdnd_drop flags action = none

abbrev pub or_else : Option DataOutcome → Option DataOutcome → Option DataOutcome
or_else none later = later
or_else (some o) later = some o

-- `sendEvent`.
unfoldable pub send_event : DataEnv → DataState → SentEvent → Option DataOutcome
unfolding notified_transfer receive fail catcher_told source_told
send_event env s (notified requestor selection target property) =
    elim (notified_transfer env requestor selection target s.transfers) [
      | none ↦ none
      | some n ↦
          if not s.enabled
          then none
          else if property == (transfer_at s n).property
          then some (receive env s n true)
          else some (fail env s n)
    ]
send_event env s (told_xdnd window kind first second fifth) =
    let caught =
      if not (s.export.source == 0) && (window == s.export.catcher && first == s.export.source)
      then catcher_told env s kind
      else none in
    let told =
      if window == s.drag.source && (not (s.drag.target == 0) && first == s.drag.target)
      then source_told env s kind second fifth
      else none in
    if s.enabled then or_else caught told else none
