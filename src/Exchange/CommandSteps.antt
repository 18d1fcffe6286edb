-- ===== src/Exchange/CommandSteps.antt =====
-- The same of the host's commands and of the reset. Some commands set the drag back without a message.
use magicdesk_x.Prelude.{
  ℕ, zero, suc, ◌+◌, refl, ◌∙◌, Bool, true, false, not, ◌||◌, Option, none, some, List, [], ◌∷◌,
  arith, ltb, ◌==◌, if◌then◌else◌, if-both, length,
}
use magicdesk_x.Prelude.Int.{pos, eqb_ℤ}
use magicdesk_x.Exchange.{
  max_targets, DragMove, DataState, offer_of, with_offer, change_words, own_selection, free_window,
  DataOutcome, ◌|>◌, DataEnv,
}
use magicdesk_x.Exchange.Drag.{with_drag, leave_message, move_drag, drop_drag}
use magicdesk_x.Exchange.Export.{with_export, release_export_pointer, end_export, begin_export}
use magicdesk_x.Exchange.Transfers.{release, request}
use magicdesk_x.Exchange.Commands.{
  idle_drag, passes_through, kept_out, drag_entered, host_entered, export_completed, host_finished,
  disabled, host_command, host_enabled, is_enable, data_command, release_all, data_reset,
}
use magicdesk_x.Exchange.Replies.{
  HostFile, HostOperation, HostEvent, host_enable, host_offer, host_read, host_reply, host_enter,
  host_move, host_leave, host_drop, host_finish, host_cancel, host_begin, host_other, read_targets,
  host_offer_of,
}
use magicdesk_x.Exchange.Protocol.{away, phase_of, replay, replay-append, leave_message-away}
use magicdesk_x.Exchange.Steps.{
  IsStep, quiet-IsStep, IsSilent, then-IsSilent, nothing-IsSilent, release-IsSilent,
  move_drag-IsStep, drop_drag-IsStep,
}
use magicdesk_x.Exchange.RequestSteps.{request-IsStep}
use magicdesk_x.Exchange.ChunkSteps.{with_offer-IsStep}
use magicdesk_x.Exchange.SelectionSteps.{
  nothing-IsStep, same-IsStep, freed-IsQuiet, release_export_pointer-IsSilent, end_export-IsSilent,
  begin_export-IsStep,
}
use magicdesk_x.Exchange.ReplySteps.{
  IsAtMost, read_targets-IsAtMost, then_close-IsStep, host_replied-IsStep,
}

-- What a command says about the drag without a message to its target.
abbrev pub heard_command : DataEnv → DataState → Bool → HostEvent → HostOperation → DataState
heard_command env s channel event host_enter =
    if kept_out s channel event then s else with_drag s (idle_drag s.drag)
heard_command env s channel event host_finish = with_drag s (idle_drag s.drag)
heard_command env s channel event host_cancel = with_drag s (idle_drag s.drag)
heard_command env s channel event host_offer = s
heard_command env s channel event host_read = s
heard_command env s channel event host_reply = s
heard_command env s channel event host_move = s
heard_command env s channel event host_leave = s
heard_command env s channel event host_drop = s
heard_command env s channel event host_begin = s
heard_command env s channel event host_enable = s
heard_command env s channel event host_other = s

host_entered-IsStep :
    (env : DataEnv) (s : DataState) (channel : Bool) (event : HostEvent)
    → IsStep (heard_command env s channel event host_enter) (host_entered env s channel event)
unfolding host_entered replay
host_entered-IsStep env s channel event = entered_on (kept_out s channel event)
  where
    entered_on :
        (b : Bool)
        → IsStep (if b then s else with_drag s (idle_drag s.drag)) (
            if b
            then (
              with_drag s (record s.drag {
                passthrough = passes_through s channel event;
                source = s.bridge;
              }),
              [],
            )
            else (
              with_drag s (drag_entered s channel event),
              change_words s.bridge env.atoms.type_list env.atoms.atom_kind
                    (offer_of s channel).targets
                  ∷ [],
            ))
    entered_on true = record { agrees = refl; bounds = λ b. b }
    entered_on false = record { agrees = refl; bounds = λ b. b }

export_completed-IsSilent :
    (env : DataEnv) (s : DataState) (success : Bool) → IsSilent s (export_completed env s success)
unfolding export_completed
export_completed-IsSilent env s success =
    let u = with_export s (record s.export { completed = true; success = success }) in
    let ends : DataState → DataOutcome =
      λ v. if v.export.dropped then end_export env v else (v, []) in
    let o = release_export_pointer env u in
    if-both (IsSilent s) (s.export.source == 0) (s, []) (o |> ends) (λ e. nothing-IsSilent s)
      (λ e.
        let k = then-IsSilent u o ends (release_export_pointer-IsSilent env u) (
          if-both (IsSilent o.0) o.0.export.dropped (end_export env o.0) (o.0, [])
            (λ f. end_export-IsSilent env o.0) (λ f. nothing-IsSilent o.0)) in
        record { told = k.told; same_drag = k.same_drag; bounds = k.bounds })

host_finished-IsStep :
    (env : DataEnv) (s : DataState) (success : Bool)
    → IsStep (with_drag s (idle_drag s.drag)) (host_finished env s success)
unfolding host_finished replay
host_finished-IsStep env s success =
    let o = export_completed env s success in
    let k = export_completed-IsSilent env s success in
    let p = phase_of (idle_drag s.drag) in
    record { agrees = replay-append o.1 [] p p (k.told.quiet p); bounds = k.bounds }

host_left-IsStep :
    (env : DataEnv) (s : DataState)
    → IsStep s (with_drag s (idle_drag s.drag), leave_message env s.drag)
host_left-IsStep env s = record { agrees = leave_message-away env s.drag; bounds = λ b. b }

host_offered-IsStep :
    (env : DataEnv) (s : DataState) (channel : Bool) (generation : ℕ) (o : Option (List ℕ))
    → IsAtMost max_targets o
    → IsStep s (elim o as (λ p. DataOutcome) [
      | none ↦ (s, [])
      | some targets ↦ (
        with_offer s channel (host_offer_of env s generation targets),
        own_selection channel ∷ [],
      )
    ])
unfolding replay
host_offered-IsStep env s channel generation none h = nothing-IsStep s
host_offered-IsStep env s channel generation (some targets) h =
    let offer = host_offer_of env s generation targets in
    let u = with_offer s channel offer in
    with_offer-IsStep s channel offer (u, own_selection channel ∷ []) h
      (quiet-IsStep u _ (record { quiet = λ p. refl }))

host_asked-IsStep :
    (env : DataEnv) (s : DataState) (channel : Bool) (serial generation : ℕ) (o : Option ℕ)
    → IsStep s (elim o as (λ p. DataOutcome) [
      | none ↦ (s, [])
      | some target ↦ request env s channel serial generation target false
    ])
host_asked-IsStep env s channel serial generation none = nothing-IsStep s
host_asked-IsStep env s channel serial generation (some target) =
    request-IsStep env s channel serial generation target false

host_command-IsStep :
    (env : DataEnv) (s : DataState) (channel : Bool) (event : HostEvent) (operation : HostOperation)
    (file : Option HostFile)
    → IsStep
        (heard_command env s channel event operation)
        (host_command env s channel event operation file)
unfolding host_command
host_command-IsStep env s channel event host_offer file = then_close-IsStep s file _ (
    host_offered-IsStep env s channel event.offer (read_targets env file)
      (read_targets-IsAtMost env file))
host_command-IsStep env s channel event host_read file =
    then_close-IsStep s file _
      (host_asked-IsStep env s channel event.serial event.offer event.target)
host_command-IsStep env s channel event host_reply file =
    host_replied-IsStep env s channel event file
host_command-IsStep env s channel event host_enter file =
    then_close-IsStep _ file (host_entered env s channel event)
      (host_entered-IsStep env s channel event)
host_command-IsStep env s channel event host_move file =
    let move : DragMove = record {
      output = event.output;
      window = event.window;
      x = event.x;
      y = event.y;
    } in
    then_close-IsStep s file (move_drag env s move) (move_drag-IsStep env s move)
host_command-IsStep env s channel event host_leave file =
    then_close-IsStep s file _ (host_left-IsStep env s)
host_command-IsStep env s channel event host_drop file =
    then_close-IsStep s file (drop_drag env s) (drop_drag-IsStep env s)
host_command-IsStep env s channel event host_finish file =
    let success = not (eqb_ℤ event.x (pos 0)) in
    then_close-IsStep (with_drag s (idle_drag s.drag)) file (host_finished env s success)
      (host_finished-IsStep env s success)
host_command-IsStep env s channel event host_cancel file =
    then_close-IsStep (with_drag s (idle_drag s.drag)) file (host_finished env s false)
      (host_finished-IsStep env s false)
host_command-IsStep env s channel event host_begin file =
    then_close-IsStep s file (begin_export env s) (begin_export-IsStep env s)
host_command-IsStep env s channel event host_enable file =
    then_close-IsStep s file (s, []) (nothing-IsStep s)
host_command-IsStep env s channel event host_other file =
    then_close-IsStep s file (s, []) (nothing-IsStep s)

-- The same of any command: one that is not accepted says nothing.
abbrev pub heard_data : DataEnv → DataState → HostEvent → DataState
heard_data env s event =
    if ltb 1 event.channel || (is_enable event.operation || (not s.enabled || s.bridge == 0))
    then s
    else heard_command env s (event.channel == 1) event event.operation

-- The guards of a command.
guarded-IsStep :
    (s heard : DataState) (a b c : Bool) (x y z o : DataOutcome)
    → IsStep s x
    → IsStep s y
    → IsStep s z
    → IsStep heard o
    → IsStep
        (if a || (b || c) then s else heard)
        (if a then x else if b then y else if c then z else o)
guarded-IsStep s heard true b c x y z o p q r h = p
guarded-IsStep s heard false true c x y z o p q r h = q
guarded-IsStep s heard false false true x y z o p q r h = r
guarded-IsStep s heard false false false x y z o p q r h = h

pub data_command-IsStep :
    (env : DataEnv) (s : DataState) (event : HostEvent) (file : Option HostFile)
    → IsStep (heard_data env s event) (data_command env s event file)
unfolding data_command replay
data_command-IsStep env s event file =
    let channel = event.channel == 1 in
    let none_done = then_close-IsStep s file (s, []) (nothing-IsStep s) in
    let enabled = host_enabled env s event.x in
    guarded-IsStep s (heard_command env s channel event event.operation) (ltb 1 event.channel)
      (is_enable event.operation) (not s.enabled || s.bridge == 0) _ _ _ _ none_done
      (then_close-IsStep s file (enabled, [])
        (same-IsStep s enabled [] refl (λ b. b) (record { quiet = λ p. refl })))
      none_done (host_command-IsStep env s channel event event.operation file)

release_all-IsSilent : (first count : ℕ) (s : DataState) → IsSilent s (release_all first count s)
unfolding release_all
release_all-IsSilent first zero s = nothing-IsSilent s
release_all-IsSilent first (suc count) s =
    then-IsSilent s (release s first) (λ u. release_all (first + 1) count u)
      (release-IsSilent s first) (release_all-IsSilent (first + 1) count (release s first).0)

pub data_reset-IsStep :
    (env : DataEnv) (s : DataState)
    → IsStep (with_drag s (record s.drag { target = 0 })) (data_reset env s)
unfolding data_reset replay
data_reset-IsStep env s =
    let o = end_export env s in
    let k = release_all-IsSilent 0 (length o.0.transfers) (disabled o.0) in
    let released : DataOutcome = o |> (λ u. release_all 0 (length u.transfers) (disabled u)) in
    let silent =
      then-IsSilent s o (λ u. release_all 0 (length u.transfers) (disabled u))
        (end_export-IsSilent env s)
        (record { told = k.told; same_drag = k.same_drag; bounds = k.bounds }) in
    let freed = if released.0.bridge == 0 then [] else free_window released.0.bridge ∷ [] in
    record {
      agrees =
          replay-append released.1 freed away away (silent.told.quiet away)
          ∙ (freed-IsQuiet released.0.bridge).quiet away;
      bounds = λ b. ((silent.bounds b).0, (omega arith, omega arith));
    }
