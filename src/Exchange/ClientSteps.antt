-- ===== src/Exchange/ClientSteps.antt =====
-- The same of ConvertSelection and SendEvent; a target's answer to a position counts from the variables
-- that it sets.
use magicdesk_x.Prelude.{
  option-both, ℕ, refl, Bool, true, false, not, ◌&&◌, ◌||◌, Option, none, some, List, [], ◌∷◌, ltb,
  ◌==◌, if◌then◌else◌, if-both,
}
use magicdesk_x.Prelude.Bits.{has_bit}
use magicdesk_x.Exchange.{
  DataState, offer_of, next_u32, change_words, selection_notify, status_operation, finish_operation,
  emit, xdnd_status, xdnd_enter, xdnd_position, xdnd_leave, xdnd_drop, xdnd_finished, XdndMessage,
  message, DataOutcome, ◌|>◌, DataEnv,
}
use magicdesk_x.Exchange.Drag.{with_drag, move_drag, drop_drag}
use magicdesk_x.Exchange.Export.{with_export, end_export}
use magicdesk_x.Exchange.Transfers.{transfer_at, put_transfer, notify, release, fail, allocate}
use magicdesk_x.Exchange.Chunks.{receive}
use magicdesk_x.Exchange.Selections.{
  ConvertRequest, channel_of_selection, outgoing, rejected, offers_target, answer_self,
  unanswerable, answer_target, answer_request, convert_local, convert, SentEvent, notified,
  told_xdnd, notified_transfer, catcher_told, resume_move, resume_drop, status_told, source_told,
  or_else, send_event,
}
use magicdesk_x.Exchange.Protocol.{replay}
use magicdesk_x.Exchange.Steps.{
  IsStep, then-IsStep, from-IsStep, from_put-IsStep, quiet-IsStep, transfer_at-IsSized,
  release-IsStep, fail-IsStep, move_drag-IsStep, drop_drag-IsStep,
}
use magicdesk_x.Exchange.RequestSteps.{allocate-keeps}
use magicdesk_x.Exchange.ChunkSteps.{receive-IsStep}
use magicdesk_x.Exchange.SelectionSteps.{nothing-IsStep, end_export-IsStep}

-- A request that goes on to the X server changes nothing here.
abbrev pub performed : DataState → Option DataOutcome → DataOutcome
performed s none = (s, [])
performed s (some o) = o

answer_self-IsStep :
    (env : DataEnv) (s : DataState) (n kind : ℕ) (values : List ℕ)
    → IsStep s (answer_self env s n kind values)
unfolding answer_self replay
answer_self-IsStep env s n kind values =
    let t = transfer_at s n in
    let told =
      change_words t.requestor t.property kind values
      ∷ selection_notify (env.reachable t.requestor) t
          (if env.change_succeeds then t.property else 0)
      ∷ [] in
    then-IsStep s (s, told) (λ u. release u n) (quiet-IsStep s told (record { quiet = λ p. refl }))
      (release-IsStep s n)

answer_target-IsStep : (env : DataEnv) (s : DataState) (n : ℕ) → IsStep s (answer_target env s n)
unfolding answer_target replay
answer_target-IsStep env s n =
    let t = transfer_at s n in
    let P = IsStep s in
    if-both P (t.target == env.atoms.targets) _ _ (λ f. answer_self-IsStep env s n _ _)
      (λ f.
        if-both P (t.target == env.atoms.timestamp) _ _ (λ g. answer_self-IsStep env s n _ _)
          (λ g.
            if-both P (offers_target t.target (offer_of s t.channel).targets) _ _
              (λ h. quiet-IsStep s _ (record { quiet = λ p. refl })) (λ h. fail-IsStep env s n)))

answer_request-IsStep : (env : DataEnv) (s : DataState) (n : ℕ) → IsStep s (answer_request env s n)
unfolding answer_request
answer_request-IsStep env s n =
    if-both (IsStep s) (unanswerable env (transfer_at s n)) (fail env s n) (answer_target env s n)
      (λ e. fail-IsStep env s n) (λ e. answer_target-IsStep env s n)

convert_local-IsStep :
    (env : DataEnv) (s : DataState) (channel : Bool) (r : ConvertRequest)
    → IsStep s (convert_local env s channel r)
unfolding convert_local replay
convert_local-IsStep env s channel r =
    let serial = next_u32 s.request_sequence in
    let u : DataState = record s { request_sequence = serial } in
    let generation = (offer_of s channel).generation in
    let refused = notify env (rejected channel r) false in
    let answer = λ (o : DataState × ℕ).
      answer_request env (put_transfer o.0 o.1 (outgoing (transfer_at o.0 o.1) r)) o.1 in
    from-IsStep s u (convert_local env s channel r) refl (λ b. b)
      (option-both (IsStep u) (allocate env u false channel serial generation) (u, refused) answer
        (quiet-IsStep u refused (record { quiet = λ p. refl }))
        (λ (v, n) e.
          let (d, b) = allocate-keeps env u v false channel serial generation n e in
          let t = outgoing (transfer_at v n) r in
          from-IsStep u v (answer (v, n)) d b (
            from_put-IsStep v n t (answer (v, n)) (λ c. transfer_at-IsSized v n c)
              (answer_request-IsStep env (put_transfer v n t) n))))

pub convert-IsStep :
    (env : DataEnv) (s : DataState) (r : ConvertRequest) → IsStep s (performed s (convert env s r))
unfolding convert
convert-IsStep env s r =
    let P = λ (o : Option DataOutcome). IsStep s (performed s o) in
    option-both P (channel_of_selection env r.selection) none
      (λ channel.
        if s.enabled && (offer_of s channel).local
        then some (convert_local env s channel r)
        else none)
      (nothing-IsStep s)
      (λ channel e.
        if-both P (s.enabled && (offer_of s channel).local) (some (convert_local env s channel r))
          none (λ f. convert_local-IsStep env s channel r) (λ f. nothing-IsStep s))

-- What a message says that is for the source of the drag.
abbrev pub heard_message : DataEnv → DataState → XdndMessage → ℕ → ℕ → DataState
heard_message env s xdnd_status flags action = with_drag s (record s.drag {
  position_pending = false;
  accepted = has_bit flags 0 && action == env.atoms.copy;
})
heard_message env s xdnd_finished flags action = with_drag s (record s.drag { target = 0 })
heard_message env s xdnd_enter flags action = s
heard_message env s xdnd_position flags action = s
heard_message env s xdnd_leave flags action = s
heard_message env s xdnd_drop flags action = s

resume_move-IsStep : (env : DataEnv) (s : DataState) → IsStep s (resume_move env s)
unfolding resume_move
resume_move-IsStep env s =
    let u = with_drag s (record s.drag { move_queued = false }) in
    if-both (IsStep s) s.drag.move_queued (move_drag env u s.drag.move) (s, [])
      (λ e.
        let k = move_drag-IsStep env u s.drag.move in
        record { agrees = k.agrees; bounds = k.bounds })
      (λ e. nothing-IsStep s)

resume_drop-IsStep : (env : DataEnv) (s : DataState) → IsStep s (resume_drop env s)
unfolding resume_drop
resume_drop-IsStep env s =
    if-both (IsStep s) s.drag.drop_pending (drop_drag env s) (s, []) (λ e. drop_drag-IsStep env s)
      (λ e. nothing-IsStep s)

status_told-IsStep :
    (env : DataEnv) (s : DataState) (flags action : ℕ)
    → IsStep (heard_message env s xdnd_status flags action) (status_told env s flags action)
unfolding status_told replay
status_told-IsStep env s flags action =
    let u = heard_message env s xdnd_status flags action in
    let accepted = has_bit flags 0 && action == env.atoms.copy in
    let told =
      emit status_operation true 0 s.drag_offer.generation none none s.drag.output s.drag.target
        (if accepted then 1 else 0) in
    let moved = (u, told) |> (λ v. resume_move env v) in
    let k =
      then-IsStep u moved (λ v. resume_drop env v)
        (then-IsStep u (u, told) (λ v. resume_move env v)
          (quiet-IsStep u told (record { quiet = λ p. refl })) (resume_move-IsStep env u))
        (resume_drop-IsStep env moved.0) in
    record { agrees = k.agrees; bounds = k.bounds }

-- Whether a message is for the source of the drag, from its target.
abbrev pub from_target : DataState → ℕ → ℕ → Bool
from_target s window first =
    window == s.drag.source && (not (s.drag.target == 0) && first == s.drag.target)

-- The state after what an event says and before what is done about it.
abbrev pub heard_event : DataEnv → DataState → SentEvent → DataState
heard_event env s (notified requestor selection target property) = s
heard_event env s (told_xdnd window kind first flags action) =
    if s.enabled && from_target s window first then heard_message env s kind flags action else s

-- A message that the catcher does not take.
source_sent :
    (enabled caught told : Bool) (s u : DataState) (o : DataOutcome)
    → IsStep u o
    → IsStep (if enabled && told then u else s) (
        performed s (
          if enabled
          then or_else (if caught then none else none) (if told then some o else none)
          else none))
source_sent false caught told s u o h = nothing-IsStep s
source_sent true true true s u o h = h
source_sent true true false s u o h = nothing-IsStep s
source_sent true false true s u o h = h
source_sent true false false s u o h = nothing-IsStep s

-- A message that the source does not take.
catcher_sent :
    (enabled caught told : Bool) (s : DataState) (o : DataOutcome)
    → IsStep s o
    → IsStep (if enabled && told then s else s) (
        performed s (
          if enabled
          then or_else (if caught then some o else none) (if told then none else none)
          else none))
catcher_sent false caught told s o h = nothing-IsStep s
catcher_sent true true true s o h = h
catcher_sent true true false s o h = h
catcher_sent true false true s o h = nothing-IsStep s
catcher_sent true false false s o h = nothing-IsStep s

dropped_on-IsStep :
    (env : DataEnv) (s : DataState)
    → IsStep s (
        let u = with_export s (record s.export { dropped = true }) in
        if u.export.completed then end_export env u else (u, []))
dropped_on-IsStep env s =
    let u = with_export s (record s.export { dropped = true }) in
    from-IsStep s u _ refl (λ b. b)
      (if-both (IsStep u) u.export.completed (end_export env u) (u, [])
        (λ e. end_export-IsStep env u) (λ e. nothing-IsStep u))

message-IsStep :
    (env : DataEnv) (s : DataState) (kind : XdndMessage) (window first flags action : ℕ)
    → IsStep
        (heard_event env s (told_xdnd window kind first flags action))
        (performed s (send_event env s (told_xdnd window kind first flags action)))
unfolding send_event catcher_told source_told replay
message-IsStep env s xdnd_status window first flags action =
    source_sent s.enabled _ (from_target s window first) s
      (heard_message env s xdnd_status flags action) (status_told env s flags action)
      (status_told-IsStep env s flags action)
message-IsStep env s xdnd_finished window first flags action =
    let u = heard_message env s xdnd_finished flags action in
    let told =
      emit finish_operation true 0 s.drag_offer.generation none none s.drag.output s.drag.target
        (if ltb s.drag.version 5 || has_bit flags 0 then 1 else 0) in
    source_sent s.enabled _ (from_target s window first) s u (u, told)
      (quiet-IsStep u told (record { quiet = λ p. refl }))
message-IsStep env s xdnd_enter window first flags action =
    catcher_sent s.enabled _ (from_target s window first) s (s, []) (nothing-IsStep s)
message-IsStep env s xdnd_leave window first flags action =
    catcher_sent s.enabled _ (from_target s window first) s (s, []) (nothing-IsStep s)
message-IsStep env s xdnd_position window first flags action =
    let told =
      message env s.export.source s.export.source xdnd_status s.export.catcher 3 0 0
        env.atoms.copy in
    catcher_sent s.enabled _ (from_target s window first) s (s, told)
      (quiet-IsStep s told (record { quiet = λ p. refl }))
message-IsStep env s xdnd_drop window first flags action =
    catcher_sent s.enabled _ (from_target s window first) s _ (dropped_on-IsStep env s)

pub send_event-IsStep :
    (env : DataEnv) (s : DataState) (event : SentEvent)
    → IsStep (heard_event env s event) (performed s (send_event env s event))
unfolding send_event
send_event-IsStep env s (told_xdnd window kind first flags action) =
    message-IsStep env s kind window first flags action
send_event-IsStep env s (notified requestor selection target property) =
    let P = λ (o : Option DataOutcome). IsStep s (performed s o) in
    option-both P (notified_transfer env requestor selection target s.transfers) none
      (λ n.
        if not s.enabled
        then none
        else if property == (transfer_at s n).property
        then some (receive env s n true)
        else some (fail env s n))
      (nothing-IsStep s)
      (λ n e.
        if-both P (not s.enabled) none
          (if property == (transfer_at s n).property
            then some (receive env s n true)
            else some (fail env s n))
          (λ f. nothing-IsStep s)
          (λ f.
            if-both P (property == (transfer_at s n).property) (some (receive env s n true))
              (some (fail env s n)) (λ g. receive-IsStep env s n true) (λ g. fail-IsStep env s n)))
