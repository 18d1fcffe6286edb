-- ===== src/Model/Replies.antt =====
-- The host's confirmations keep the agreement of the records with its table.
use magicdesk_x.Prelude.{
  ℕ, ◌≡◌, refl, Bool, true, false, not, ◌||◌, List, [], ◌∷◌, ◌==◌, if◌then◌else◌, if-both,
}
use magicdesk_x.Prelude.Bits.{has_bit}
use magicdesk_x.Window.State.{foreign_axes}
use magicdesk_x.Model.{
  ModelEnv, net_wm_state, state_fullscreen, state_attention, state_horizontal, state_vertical,
  state_hidden, wm_state, net_active_window, WindowRecord, ModelState, ModelEffect, words_changed,
}
use magicdesk_x.Model.Records.{reference, on_record}
use magicdesk_x.Model.Confirms.{
  states_with, looked_up, settled_flags, set_fullscreen, set_maximized, set_interaction,
  active_changed, foreign_flags, confirm_fullscreen, confirm_maximized, confirm_interaction,
}
use magicdesk_x.Model.Quiet.{
  IsQuiet, same-IsQuiet, silent-IsQuiet, dirty-IsQuiet, IsMarking, marked-AreTouched,
  looked_up-IsQuiet, confirmed-IsQuiet,
}
use magicdesk_x.Model.Table.{Host, heard}

-- The words are changed, and the record if that succeeds.
changed-IsQuiet :
    (t : ModelState) (id : ℕ) (f : WindowRecord → WindowRecord) (memory ok : Bool)
    (es : List ModelEffect)
    → IsMarking f
    → ((h : Host) → heard h es ≡ h)
    → IsQuiet t (
        if not memory
        then (t, [])
        else (if ok then record (on_record t id f) { dirty = true } else t, es))
changed-IsQuiet t id f false ok es k e = same-IsQuiet t
changed-IsQuiet t id f true true es k e =
    silent-IsQuiet t (record (on_record t id f) { dirty = true }) es e
      (dirty-IsQuiet t (record (on_record t id f) { dirty = true }) refl (λ q. q)
        (λ j. marked-AreTouched t.manager id j f t.records k))
changed-IsQuiet t id f true false es k e = silent-IsQuiet t t es e (same-IsQuiet t)

pub fullscreen-IsQuiet :
    (env : ModelEnv) (s : ModelState) (id serial : ℕ) (actual : Bool)
    → IsQuiet s (confirm_fullscreen env s id serial actual)
unfolding confirm_fullscreen
fullscreen-IsQuiet env s id serial actual =
    if-both (IsQuiet s) (s.manager == 0) (s, []) _ (λ e. same-IsQuiet s)
      (λ e.
        confirmed-IsQuiet env s id (λ r. r.fullscreen.serial) serial (looked_up env s id, []) _
          (looked_up-IsQuiet env s id)
          (λ window t.
            changed-IsQuiet t window.id (set_fullscreen serial actual) env.memory
              env.change_succeeds
              (words_changed window.id net_wm_state (
                  states_with env window (env.atom state_fullscreen) (env.atom state_fullscreen)
                    actual false)
                ∷ [])
              (record { told = λ j r. refl; live = λ j r. refl; marks = λ r. refl }) (λ h. refl)))

pub maximized-IsQuiet :
    (env : ModelEnv) (s : ModelState) (id serial axes : ℕ)
    → IsQuiet s (confirm_maximized env s id serial axes)
unfolding confirm_maximized
maximized-IsQuiet env s id serial axes =
    if-both (IsQuiet s) (s.manager == 0 || foreign_axes axes) (s, []) _ (λ e. same-IsQuiet s)
      (λ e.
        confirmed-IsQuiet env s id (λ r. r.maximized.serial) serial (looked_up env s id, []) _
          (looked_up-IsQuiet env s id)
          (λ window t.
            changed-IsQuiet t window.id (set_maximized serial axes) env.memory env.change_succeeds
              (words_changed window.id net_wm_state (
                  states_with env window (env.atom state_horizontal) (env.atom state_vertical)
                    (has_bit axes 0) (has_bit axes 1))
                ∷ [])
              (record { told = λ j r. refl; live = λ j r. refl; marks = λ r. refl }) (λ h. refl)))

active_silent :
    (env : ModelEnv) (id flags : ℕ) (h : Host) → heard h (active_changed env id flags) ≡ h
unfolding reference
active_silent env id flags h =
    if-both (λ (es : List ModelEffect). heard h es ≡ h) (has_bit flags 0 || _)
      (words_changed env.root net_active_window ((if has_bit flags 0 then id else 0) ∷ []) ∷ []) []
      (λ e. refl) (λ e. refl)

pub interaction-IsQuiet :
    (env : ModelEnv) (s : ModelState) (id serial asked : ℕ)
    → IsQuiet s (confirm_interaction env s id serial asked)
unfolding confirm_interaction
interaction-IsQuiet env s id serial asked =
    let flags = settled_flags asked in
    if-both (IsQuiet s) (s.manager == 0 || foreign_flags asked) (s, []) _ (λ e. same-IsQuiet s)
      (λ e.
        confirmed-IsQuiet env s id (λ r. r.interaction.serial) serial (looked_up env s id, []) _
          (looked_up-IsQuiet env s id)
          (λ window t.
            changed-IsQuiet t window.id (set_interaction flags) env.memory true
              (words_changed window.id net_wm_state (
                  states_with env window (env.atom state_hidden) (env.atom state_attention)
                    (has_bit flags 1) (has_bit flags 2))
                ∷ words_changed window.id wm_state ((if has_bit flags 1 then 3 else 1) ∷ 0 ∷ [])
                ∷ active_changed env id flags)
              (record { told = λ j r. refl; live = λ j r. refl; marks = λ r. refl })
              (active_silent env id flags)))
