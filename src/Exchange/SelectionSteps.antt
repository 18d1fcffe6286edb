-- ===== src/Exchange/SelectionSteps.antt =====
-- The same of the export and of the requests of X clients.
use magicdesk_x.Prelude.{
  ℕ, zero, suc, ◌+◌, ◌≡◌, refl, Bool, true, false, not, ◌&&◌, ◌||◌, none, List, [], ◌∷◌, ◌++◌,
  arith, ◌==◌, if◌then◌else◌, if-both, length,
}
use magicdesk_x.Exchange.{
  ExportState, DataState, next_u32, DataEffect, free_window, configure_window, pointer_motion,
  release_button, cancel_operation, emit, ◌|>◌, DataEnv,
}
use magicdesk_x.Exchange.Export.{
  with_export, release_export_pointer, finished_told, end_export, export_expired, cannot_export,
  export_begun, catcher_shown, begin_export,
}
use magicdesk_x.Exchange.Transfers.{transfer_at, fail, request}
use magicdesk_x.Exchange.Selections.{
  fail_channel, client_offer, offer_made, offer_replaced, offer_changed, selection_changed,
}
use magicdesk_x.Exchange.Protocol.{replay}
use magicdesk_x.Exchange.Steps.{
  IsBounded, IsStep, then-IsStep, from-IsStep, quiet-IsStep, IsQuiet, append-IsQuiet, IsSilent,
  silent-IsStep, then-IsSilent, nothing-IsSilent, fail-IsStep,
}
use magicdesk_x.Exchange.RequestSteps.{request-IsStep}
use magicdesk_x.Exchange.ChunkSteps.{with_offer-IsStep}

pub nothing-IsStep : (s : DataState) → IsStep s (s, [])
nothing-IsStep s = silent-IsStep s (s, []) (nothing-IsSilent s)

-- Quiet effects and a state with the same drag, transfers and offers.
pub same-IsStep :
    (s u : DataState) (effects : List DataEffect)
    → s.drag ≡ u.drag
    → (IsBounded s → IsBounded u)
    → IsQuiet effects
    → IsStep s (u, effects)
same-IsStep s u effects e b h = from-IsStep s u (u, effects) e b (quiet-IsStep u effects h)

pub release_export_pointer-IsSilent :
    (env : DataEnv) (s : DataState) → IsSilent s (release_export_pointer env s)
unfolding release_export_pointer replay
release_export_pointer-IsSilent env s =
    let e = s.export in
    let there = not (e.catcher == 0) && env.window_exists e.catcher in
    if-both (IsSilent s) (e.output == 0) _ _ (λ z. nothing-IsSilent s)
      (λ z. record {
        told =
            append-IsQuiet (if there then configure_window e.catcher ∷ pointer_motion ∷ [] else [])
              (release_button e.output e.window ∷ [])
              (if-both IsQuiet there (configure_window e.catcher ∷ pointer_motion ∷ []) []
                (λ f. record { quiet = λ p. refl }) (λ f. record { quiet = λ p. refl }))
              (record { quiet = λ p. refl });
        same_drag = refl;
        bounds = λ b. b;
      })

finished_told-IsQuiet : (env : DataEnv) (e : ExportState) → IsQuiet (finished_told env e)
unfolding replay
finished_told-IsQuiet env e =
    if-both IsQuiet (e.source == 0) _ _ (λ f. record { quiet = λ p. refl })
      (λ f. record { quiet = λ p. refl })

pub freed-IsQuiet : (window : ℕ) → IsQuiet (if window == 0 then [] else free_window window ∷ [])
unfolding replay
freed-IsQuiet window =
    if-both IsQuiet (window == 0) [] (free_window window ∷ []) (λ f. record { quiet = λ p. refl })
      (λ f. record { quiet = λ p. refl })

pub end_export-IsSilent : (env : DataEnv) (s : DataState) → IsSilent s (end_export env s)
unfolding end_export
end_export-IsSilent env s =
    let e = s.export in
    let u = with_export s (record e { timer = false; source = 0; catcher = 0 }) in
    let freed = if e.catcher == 0 then [] else free_window e.catcher ∷ [] in
    then-IsSilent s (u, finished_told env e ++ freed) (release_export_pointer env)
      (record {
        told =
            append-IsQuiet (finished_told env e) freed (finished_told-IsQuiet env e)
              (freed-IsQuiet e.catcher);
        same_drag = refl;
        bounds = λ b. b;
      })
      (release_export_pointer-IsSilent env u)

pub end_export-IsStep : (env : DataEnv) (s : DataState) → IsStep s (end_export env s)
end_export-IsStep env s = silent-IsStep s (end_export env s) (end_export-IsSilent env s)

pub export_expired-IsStep : (env : DataEnv) (s : DataState) → IsStep s (export_expired env s)
unfolding export_expired
export_expired-IsStep env s =
    let u = with_export s (record s.export { timer = false; success = false }) in
    from-IsStep s u (end_export env u) refl (λ b. b) (end_export-IsStep env u)

pub begin_export-IsStep : (env : DataEnv) (s : DataState) → IsStep s (begin_export env s)
unfolding begin_export replay
begin_export-IsStep env s =
    let u = with_export s (record s.export { catcher = env.new_window }) in
    let v = with_export s (export_begun env s) in
    let shown = catcher_shown env env.new_window in
    let missing = not (env.window_exists env.new_window) in
    if-both (IsStep s) (cannot_export s) (s, []) (if missing then (u, []) else (v, shown))
      (λ e. nothing-IsStep s)
      (λ e.
        if-both (IsStep s) missing (u, []) (v, shown)
          (λ f. same-IsStep s u [] refl (λ b. b) (record { quiet = λ p. refl }))
          (λ f. same-IsStep s v shown refl (λ b. b) (record { quiet = λ p. refl })))

fail_channel-IsStep :
    (env : DataEnv) (channel : Bool) (first count : ℕ) (s : DataState)
    → IsStep s (fail_channel env channel first count s)
unfolding fail_channel
fail_channel-IsStep env channel first zero s = nothing-IsStep s
fail_channel-IsStep env channel first (suc count) s =
    let t = transfer_at s first in
    let same = if t.channel then channel else not channel in
    let o = if t.used && same then fail env s first else (s, []) in
    then-IsStep s o (λ u. fail_channel env channel (first + 1) count u)
      (if-both (IsStep s) (t.used && same) (fail env s first) (s, []) (λ e. fail-IsStep env s first)
        (λ e. nothing-IsStep s))
      (fail_channel-IsStep env channel (first + 1) count o.0)

offer_made-IsStep :
    (env : DataEnv) (channel : Bool) (window generation : ℕ) (owned : Bool) (s : DataState)
    → IsStep s (offer_made env channel window generation owned s)
unfolding replay
offer_made-IsStep env channel window generation owned s =
    let cancel =
      if channel
      then emit cancel_operation true 0 generation none none s.pointer_output s.pointer_window 0
      else [] in
    let asked = request env s channel 0 generation env.atoms.targets true in
    let active = if channel then s.pointer_down else s.clipboard_active in
    if-both (IsStep s) (not owned || window == 0) (s, cancel) (if active then asked else (s, []))
      (λ e. quiet-IsStep s cancel (
        if-both IsQuiet channel _ _ (λ f. record { quiet = λ p. refl })
          (λ f. record { quiet = λ p. refl })))
      (λ e.
        if-both (IsStep s) active asked (s, [])
          (λ f. request-IsStep env s channel 0 generation env.atoms.targets true)
          (λ f. nothing-IsStep s))

offer_changed-IsStep :
    (env : DataEnv) (channel : Bool) (window time : ℕ) (owned : Bool) (s : DataState)
    → IsStep s (offer_changed env channel window time owned s)
unfolding offer_changed
offer_changed-IsStep env channel window time owned s =
    let failed = fail_channel env channel 0 (length s.transfers) s in
    let generation = next_u32 failed.0.sequence in
    let u : DataState = record failed.0 { sequence = generation } in
    let offer = client_offer generation window time in
    let v = offer_replaced channel window time generation failed.0 in
    let rest = offer_made env channel window generation owned v in
    then-IsStep s failed
      (λ w.
        offer_made env channel window (next_u32 w.sequence) owned
          (offer_replaced channel window time (next_u32 w.sequence) w))
      (fail_channel-IsStep env channel 0 (length s.transfers) s)
      (from-IsStep failed.0 u rest refl (λ b. b)
        (with_offer-IsStep u channel offer rest (omega arith)
          (offer_made-IsStep env channel window generation owned v)))

pub selection_changed-IsStep :
    (env : DataEnv) (s : DataState) (channel : Bool) (window time : ℕ) (owned : Bool)
    → IsStep s (selection_changed env s channel window time owned)
unfolding selection_changed
selection_changed-IsStep env s channel window time owned =
    let ends = channel && (not (s.export.source == 0) && not (window == s.export.source)) in
    let o = if ends then end_export env s else (s, []) in
    if-both (IsStep s) (not s.enabled || window == s.bridge) (s, [])
      (o |> (λ u. offer_changed env channel window time owned u)) (λ e. nothing-IsStep s)
      (λ e.
        then-IsStep s o (λ u. offer_changed env channel window time owned u)
          (if-both (IsStep s) ends (end_export env s) (s, []) (λ f. end_export-IsStep env s)
            (λ f. nothing-IsStep s))
          (offer_changed-IsStep env channel window time owned o.0))
