-- ===== src/Model/Steps.antt =====
-- Every event keeps the agreement of the records with the host's table.
use magicdesk_x.Prelude.{
  ℕ, refl, Bool, true, ◌&&◌, ◌||◌, none, some, List, [], ◌∷◌, leb, ◌==◌, if◌then◌else◌, if-both,
  option-both,
}
use magicdesk_x.Window.State.{fullscreen_request, maximized_request, none_asked, minimize}
use magicdesk_x.Model.{
  ModelWindow, ModelEnv, net_wm_state, state_fullscreen, state_attention, net_active_window,
  wm_change_state, net_wm_moveresize, ModelState, ModelEffect, gesture_told, ModelOutcome,
}
use magicdesk_x.Model.Records.{find_live, record_for}
use magicdesk_x.Model.Messages.{
  RootMessage, requested_on, ask_interaction, keep_attention, ask_activation, ask_iconic,
  attention_after, ask_attention, ask_fullscreen_of, ask_fullscreen, ask_maximized_of,
  ask_maximized, names_state, axes_named, ask_states, ask_gesture, answer_message, root_message,
}
use magicdesk_x.Model.Quiet.{
  IsQuiet, same-IsQuiet, first-IsQuiet, silent-IsQuiet, dirty-IsQuiet, IsMarking, marked-AreTouched,
  requested-IsQuiet, if-IsQuiet, record_for-IsQuiet,
}
use magicdesk_x.Window.State.{InteractionAction, WindowInteraction}

asked-IsMarking :
    (action : InteractionAction) (attention : WindowInteraction → Bool) (serial : ℕ)
    → IsMarking (ask_interaction action attention serial)
asked-IsMarking action attention serial = record {
  told = λ id r. refl;
  live = λ id r. refl;
  marks = λ r. refl;
}

answered-IsQuiet :
    (s : ModelState) (id : ℕ) (action : InteractionAction) (attention : WindowInteraction → Bool)
    → IsQuiet s (requested_on s id (ask_interaction action attention), [])
answered-IsQuiet s id action attention =
    requested-IsQuiet s id (ask_interaction action attention) (asked-IsMarking action attention)

activation-IsQuiet :
    (env : ModelEnv) (s : ModelState) (window : ModelWindow) (time : ℕ)
    → IsQuiet s (ask_activation env s window time, [])
unfolding ask_activation
activation-IsQuiet env s window time =
    dirty-IsQuiet s (ask_activation env s window time) refl (λ e. refl)
      (λ j. marked-AreTouched s.manager window.id j _ s.records (asked-IsMarking _ _ _))

iconic-IsQuiet :
    (s : ModelState) (window : ModelWindow) (state : ℕ) → IsQuiet s (ask_iconic s window state, [])
unfolding ask_iconic
iconic-IsQuiet s window state =
    if-IsQuiet s (state == 3) (requested_on s window.id (ask_interaction minimize keep_attention)) s
      (answered-IsQuiet s window.id minimize keep_attention) (same-IsQuiet s)

attention-IsQuiet :
    (s : ModelState) (window : ModelWindow) (action : ℕ)
    → IsQuiet s (ask_attention s window action, [])
unfolding ask_attention
attention-IsQuiet s window action =
    if-IsQuiet s (leb action 2)
      (requested_on s window.id (ask_interaction none_asked (attention_after action))) s
      (answered-IsQuiet s window.id none_asked (attention_after action)) (same-IsQuiet s)

fullscreen-IsQuiet :
    (s : ModelState) (window : ModelWindow) (action : ℕ)
    → IsQuiet s (ask_fullscreen s window action, [])
unfolding ask_fullscreen
fullscreen-IsQuiet s window action =
    let asked = requested_on s window.id (ask_fullscreen_of action) in
    option-both (λ (t : ModelState). IsQuiet s (t, [])) (find_live window.id s.records) s
      (λ r. if (fullscreen_request r.fullscreen action).1 then asked else s) (same-IsQuiet s)
      (λ r e.
        if-IsQuiet s (fullscreen_request r.fullscreen action).1 asked s
          (requested-IsQuiet s window.id (ask_fullscreen_of action)
            (λ n. record { told = λ id x. refl; live = λ id x. refl; marks = λ x. refl }))
          (same-IsQuiet s))

maximized-IsQuiet :
    (s : ModelState) (window : ModelWindow) (action axes : ℕ)
    → IsQuiet s (ask_maximized s window action axes, [])
unfolding ask_maximized
maximized-IsQuiet s window action axes =
    let asked = requested_on s window.id (ask_maximized_of action axes) in
    option-both (λ (t : ModelState). IsQuiet s (t, [])) (find_live window.id s.records) s
      (λ r. if (maximized_request r.maximized action axes).1 then asked else s) (same-IsQuiet s)
      (λ r e.
        if-IsQuiet s (maximized_request r.maximized action axes).1 asked s
          (requested-IsQuiet s window.id (ask_maximized_of action axes)
            (λ n. record { told = λ id x. refl; live = λ id x. refl; marks = λ x. refl }))
          (same-IsQuiet s))

states-IsQuiet :
    (env : ModelEnv) (s : ModelState) (window : ModelWindow) (m : RootMessage)
    → IsQuiet s (ask_states env s window m, [])
unfolding ask_states
states-IsQuiet env s window m =
    let t = if names_state env m state_fullscreen then ask_fullscreen s window m.first else s in
    let u = if names_state env m state_attention then ask_attention t window m.first else t in
    first-IsQuiet s t (ask_maximized u window m.first (axes_named env m), [])
      (if-IsQuiet s (names_state env m state_fullscreen) (ask_fullscreen s window m.first) s
        (fullscreen-IsQuiet s window m.first) (same-IsQuiet s))
      (first-IsQuiet t u (ask_maximized u window m.first (axes_named env m), [])
        (if-IsQuiet t (names_state env m state_attention) (ask_attention t window m.first) t
          (attention-IsQuiet t window m.first) (same-IsQuiet t))
        (maximized-IsQuiet u window m.first (axes_named env m)))

gesture-IsQuiet :
    (env : ModelEnv) (s : ModelState) (window : ModelWindow) (m : RootMessage)
    → IsQuiet s (s, ask_gesture env window m)
unfolding ask_gesture
gesture-IsQuiet env s window m =
    if-both (λ (es : List ModelEffect). IsQuiet s (s, es))
      (m.third == 11 || (leb m.third 8 && env.gesture_allowed window.id m.fourth))
      (gesture_told window.id m.third ∷ []) []
      (λ e. silent-IsQuiet s s (gesture_told window.id m.third ∷ []) (λ h. refl) (same-IsQuiet s))
      (λ e. same-IsQuiet s)

answer-IsQuiet :
    (env : ModelEnv) (s : ModelState) (window : ModelWindow) (m : RootMessage)
    → IsQuiet s (answer_message env s window m)
unfolding answer_message
answer-IsQuiet env s window m =
    let asked : ModelOutcome = (ask_states env s window m, []) in
    let states = if m.kind == env.atom net_wm_state then asked else (s, []) in
    let gesture : ModelOutcome = (s, ask_gesture env window m) in
    let gestures = if m.kind == env.atom net_wm_moveresize then gesture else states in
    let iconic : ModelOutcome = (ask_iconic s window m.first, []) in
    let changes = if m.kind == env.atom wm_change_state then iconic else gestures in
    if-both (IsQuiet s) (m.kind == env.atom net_active_window)
      (ask_activation env s window m.second, []) changes
      (λ e. activation-IsQuiet env s window m.second)
      (λ e.
        if-both (IsQuiet s) (m.kind == env.atom wm_change_state) iconic gestures
          (λ k. iconic-IsQuiet s window m.first)
          (λ k.
            if-both (IsQuiet s) (m.kind == env.atom net_wm_moveresize) gesture states
              (λ q. gesture-IsQuiet env s window m)
              (λ q.
                if-both (IsQuiet s) (m.kind == env.atom net_wm_state) asked (s, [])
                  (λ w. states-IsQuiet env s window m) (λ w. same-IsQuiet s))))

-- What is done for a message whose window is there.
abbrev answered_for : ModelEnv → ModelState → RootMessage → ModelWindow → ModelOutcome
answered_for env s m window = elim (record_for env s window) [
  | none ↦ (s, [])
  | some t ↦ answer_message env t window m
]

pub message-IsQuiet :
    (env : ModelEnv) (s : ModelState) (m : RootMessage) → IsQuiet s (root_message env s m).0
unfolding root_message
message-IsQuiet env s m =
    let found = if m.window == 0 then none else env.lookup m.window in
    let done : ModelOutcome = elim found [
      | none ↦ (s, [])
      | some window ↦ answered_for env s m window
    ] in
    if-both (λ (o : ModelOutcome × Bool). IsQuiet s o.0) (s.manager == 0) ((s, []), true) (done, _)
      (λ e. same-IsQuiet s)
      (λ e.
        option-both (IsQuiet s) found (s, []) (answered_for env s m) (same-IsQuiet s)
          (λ window k.
            record_for-IsQuiet env s window (s, []) (λ t. answer_message env t window m)
              (same-IsQuiet s) (λ t. answer-IsQuiet env t window m)))
