-- ===== src/Model/Messages.antt =====
-- The client messages to the root window that a window manager answers, and the callbacks of the X
-- server: changes of properties, of the manager's selection, and of windows.
use magicdesk_x.Prelude.{
  ℕ, ◌+◌, Bool, true, false, not, ◌&&◌, ◌||◌, none, some, List, [], ◌∷◌, ◌++◌, leb, ◌==◌,
  if◌then◌else◌,
}
use magicdesk_x.Window.State.{
  next_serial, fullscreen_request, maximized_request, WindowInteraction, InteractionAction,
  none_asked, activate, minimize, activation_timestamp,
}
use magicdesk_x.Model.{
  AtomName, state_fullscreen, state_horizontal, state_vertical, state_attention, net_wm_state,
  wm_change_state, net_active_window, net_wm_moveresize, wm_class, wm_hints, wm_normal_hints,
  supporting_check, net_supported, ModelWindow, WindowRecord, ModelState, ModelEffect, gesture_told,
  property_deleted, window_freed, geometry_changed, outputs_changed, destroyed_told, ModelOutcome,
  ModelEnv,
}
use magicdesk_x.Model.Records.{reference, urgent, find_live, update_live, record_for, on_record}

-- A client message to the root: the window, the type, and the first five words.
pub record RootMessage : Type 0 where
  pub window : ℕ
  pub kind : ℕ
  pub first : ℕ
  pub second : ℕ
  pub third : ℕ
  pub fourth : ℕ

-- A request gets the next serial, and the host is told at the next refresh.
abbrev pub requested_on : ModelState → ℕ → (ℕ → WindowRecord → WindowRecord) → ModelState
requested_on s id f =
    let serial = next_serial s.state_serial in
    record (on_record s id (f serial)) { state_serial = serial; dirty = true }

abbrev pub ask_interaction :
    InteractionAction → (WindowInteraction → Bool) → ℕ → WindowRecord → WindowRecord
ask_interaction action attention serial r = record r {
  interaction = record r.interaction {
    action = action;
    attention = attention r.interaction;
    serial = serial;
  };
  changed = true;
}

abbrev pub keep_attention : WindowInteraction → Bool
keep_attention i = i.attention

-- Whether a window may be activated: its client has had the last input, and recently.
unfoldable pub may_activate : ModelEnv → ModelState → ModelWindow → ℕ → Bool
unfolding activation_timestamp
may_activate env s window time =
    elim (if s.last_input_window == 0 then none else env.lookup s.last_input_window) [
      | none ↦ false
      | some input ↦
          input.client == window.client && activation_timestamp time s.last_input_time env.now
    ]

-- _NET_ACTIVE_WINDOW for a window that has a record; the input that allows it is used up.
unfoldable pub ask_activation : ModelEnv → ModelState → ModelWindow → ℕ → ModelState
unfolding may_activate update_live
ask_activation env s window time =
    let allowed = may_activate env s window time in
    let t = requested_on s window.id (
      ask_interaction (if allowed then activate else none_asked)
        (if allowed then keep_attention else (λ i. true))) in
    record t { last_input_time = 0 }

-- WM_CHANGE_STATE: only IconicState is a request.
unfoldable pub ask_iconic : ModelState → ModelWindow → ℕ → ModelState
unfolding update_live
ask_iconic s window state =
    if state == 3 then requested_on s window.id (ask_interaction minimize keep_attention) else s

abbrev pub attention_after : ℕ → WindowInteraction → Bool
attention_after action i = if action == 2 then not i.attention else action == 1

-- _NET_WM_STATE of the attention.
unfoldable pub ask_attention : ModelState → ModelWindow → ℕ → ModelState
unfolding update_live
ask_attention s window action =
    if leb action 2
    then requested_on s window.id (ask_interaction none_asked (attention_after action))
    else s

abbrev pub ask_fullscreen_of : ℕ → ℕ → WindowRecord → WindowRecord
ask_fullscreen_of action serial r = record r {
  fullscreen = record (fullscreen_request r.fullscreen action).0 { serial = serial };
  changed = true;
}

-- _NET_WM_STATE of the fullscreen state.
unfoldable pub ask_fullscreen : ModelState → ModelWindow → ℕ → ModelState
unfolding fullscreen_request update_live
ask_fullscreen s window action = elim (find_live window.id s.records) [
  | none ↦ s
  | some r ↦
      if (fullscreen_request r.fullscreen action).1
      then requested_on s window.id (ask_fullscreen_of action)
      else s
]

abbrev pub ask_maximized_of : ℕ → ℕ → ℕ → WindowRecord → WindowRecord
ask_maximized_of action axes serial r = record r {
  maximized = record (maximized_request r.maximized action axes).0 { serial = serial };
  changed = true;
}

-- _NET_WM_STATE of the axes.
unfoldable pub ask_maximized : ModelState → ModelWindow → ℕ → ℕ → ModelState
unfolding maximized_request update_live find_live
ask_maximized s window action axes = elim (find_live window.id s.records) [
  | none ↦ s
  | some r ↦
      if (maximized_request r.maximized action axes).1
      then requested_on s window.id (ask_maximized_of action axes)
      else s
]

abbrev pub names_state : ModelEnv → RootMessage → AtomName → Bool
names_state env m name = m.second == env.atom name || m.third == env.atom name

abbrev pub axes_named : ModelEnv → RootMessage → ℕ
axes_named env m =
    (if names_state env m state_horizontal then 1 else 0)
    + (if names_state env m state_vertical then 2 else 0)

-- _NET_WM_STATE for a window that has a record: the fullscreen state, the attention, the axes.
unfoldable pub ask_states : ModelEnv → ModelState → ModelWindow → RootMessage → ModelState
unfolding ask_fullscreen ask_attention ask_maximized
ask_states env s window m =
    let t = if names_state env m state_fullscreen then ask_fullscreen s window m.first else s in
    let u = if names_state env m state_attention then ask_attention t window m.first else t in
    ask_maximized u window m.first (axes_named env m)

-- _NET_WM_MOVERESIZE: the keyboard's end of a move, or a direction that the pressed button allows.
unfoldable pub ask_gesture : ModelEnv → ModelWindow → RootMessage → List ModelEffect
ask_gesture env window m =
    if m.third == 11 || (leb m.third 8 && env.gesture_allowed window.id m.fourth)
    then gesture_told window.id m.third ∷ []
    else []

-- The message for a window that has a record.
unfoldable pub answer_message : ModelEnv → ModelState → ModelWindow → RootMessage → ModelOutcome
unfolding ask_activation ask_iconic ask_gesture ask_states
answer_message env s window m =
    if m.kind == env.atom net_active_window
    then (ask_activation env s window m.second, [])
    else if m.kind == env.atom wm_change_state
    then (ask_iconic s window m.first, [])
    else if m.kind == env.atom net_wm_moveresize
    then (s, ask_gesture env window m)
    else if m.kind == env.atom net_wm_state
    then (ask_states env s window m, [])
    else (s, [])

-- The types that are answered here, whether or not the window has a record.
abbrev pub is_answered : ModelEnv → ℕ → Bool
is_answered env kind =
    kind == env.atom net_active_window
    || (kind == env.atom wm_change_state
        || (kind == env.atom net_wm_moveresize || kind == env.atom net_wm_state))

-- `sendEvent` of a client message to the root: what is done, and whether the X server's own procedure
-- goes on with it.
unfoldable pub root_message : ModelEnv → ModelState → RootMessage → ModelOutcome × Bool
unfolding record_for answer_message
root_message env s m = if s.manager == 0 then ((s, []), true) else (
  elim (if m.window == 0 then none else env.lookup m.window) [
    | none ↦ (s, [])
    | some window ↦ elim (record_for env s window) [
      | none ↦ (s, [])
      | some t ↦ answer_message env t window m
    ]
  ],
  not (is_answered env m.kind),
)

-- `lorieWindowUserInput`.
abbrev pub user_input : ModelEnv → ModelState → ℕ → ModelState
user_input env s window =
    if s.manager == 0 then s else record s { last_input_window = window; last_input_time = env.now }

-- Every record with an id is changed, also one whose window is gone.
unfoldable pub update_all :
    ℕ → (WindowRecord → WindowRecord) → List WindowRecord → List WindowRecord
update_all id f [] = []
update_all id f (r ∷ rest) = (if r.id == id then f r else r) ∷ update_all id f rest

abbrev pub mark_changed : WindowRecord → WindowRecord
mark_changed r = record r { changed = true }

abbrev pub mark_destroyed : WindowRecord → WindowRecord
mark_destroyed r = record r { destroyed = true }

abbrev pub all_changed : List WindowRecord → List WindowRecord
all_changed [] = []
all_changed (r ∷ rest) = mark_changed r ∷ all_changed rest

-- `managerChanged` for the manager's selection: its new owner, and whether its window was destroyed or
-- an owner set. The root's properties go only if they are still the manager's.
unfoldable pub manager_changed : ModelEnv → ModelState → ℕ → Bool → Bool → ModelOutcome
unfolding reference
manager_changed env s owner destroyed set_owner =
    let check = elim (env.lookup env.root) as (λ o. ℕ) [
      | none ↦ 0
      | some root ↦ reference root supporting_check
    ] in
    if s.manager == 0 || (not destroyed && (not set_owner || owner == s.manager))
    then (s, geometry_changed ∷ [])
    else (
      record s { manager = 0; records = all_changed s.records; dirty = true },
      geometry_changed
          ∷ ((if check == s.manager
                then property_deleted env.root supporting_check
                  ∷ property_deleted env.root net_supported
                  ∷ []
                else [])
              ++ (if destroyed then [] else window_freed s.manager ∷ [])),
    )

-- The serials of the records with an id follow one another.
unfoldable pub renew_hints : ℕ → Bool → ℕ → List WindowRecord → List WindowRecord × ℕ
renew_hints id urgency serial [] = ([], serial)
renew_hints id urgency serial (r ∷ rest) =
    let next = next_serial serial in
    let renewed = renew_hints id urgency next rest in
    let kept = renew_hints id urgency serial rest in
    if r.id == id
    then (ask_interaction none_asked (λ i. urgency) next r ∷ renewed.0, renewed.1)
    else (r ∷ kept.0, kept.1)

-- What `propertyChanged` does to the records.
unfoldable pub property_noted : ModelState → ModelWindow → AtomName → ModelState
unfolding urgent renew_hints update_all
property_noted s window wm_hints =
    let (records, serial) = renew_hints window.id (urgent window) s.state_serial s.records in
    if s.manager == 0
    then record s { dirty = true }
    else record s { records = records; state_serial = serial; dirty = true }
property_noted s window wm_class = record s {
  records = update_all window.id mark_changed s.records;
  dirty = true;
}
property_noted s window wm_normal_hints = record s {
  records = update_all window.id mark_changed s.records;
  dirty = true;
}
property_noted s window _ = record s { dirty = true }

-- `propertyChanged`.
unfoldable pub property_changed : ModelState → ModelWindow → AtomName → ModelOutcome
unfolding property_noted
property_changed s window name = (property_noted s window name, outputs_changed ∷ [])

-- `onDestroy`.
unfoldable pub window_destroyed : ModelState → ℕ → ModelOutcome
unfolding update_all
window_destroyed s id = (
  record s { records = update_all id mark_destroyed s.records; dirty = true },
  destroyed_told id ∷ [],
)

-- `onPosition`.
unfoldable pub window_positioned : ModelState → ℕ → ModelOutcome
unfolding update_all
window_positioned s id = (
  record s { records = update_all id mark_changed s.records; dirty = true },
  outputs_changed ∷ [],
)

-- `onRealize` and `onUnrealize`.
abbrev pub window_hooked : ModelState → ModelOutcome
window_hooked s = (record s { dirty = true }, outputs_changed ∷ [])

-- `onRestack`.
abbrev pub window_restacked : ModelState → ModelOutcome
window_restacked s = (record s { dirty = true }, geometry_changed ∷ [])
