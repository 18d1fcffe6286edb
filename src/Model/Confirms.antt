-- ===== src/Model/Confirms.antt =====
-- The host's confirmations of window states, and what they make of _NET_WM_STATE.
use magicdesk_x.Prelude.{
  ℕ, ◌-◌, Bool, true, false, not, ◌||◌, Option, none, some, List, [], ◌∷◌, ◌++◌, ◌==◌,
  if◌then◌else◌,
}
use magicdesk_x.Prelude.Bits.{has_bit, clear_bit}
use Prim.Native.Nat.{bit_and}
use magicdesk_x.Window.State.{
  u32_mod, fullscreen_confirm, foreign_axes, maximized_confirm, none_asked,
}
use magicdesk_x.Model.{
  net_wm_state, state_fullscreen, state_horizontal, state_vertical, state_hidden, state_attention,
  wm_state, net_active_window, xa_atom, ModelWindow, WindowRecord, ModelState, ModelEffect,
  words_changed, ModelOutcome, ModelEnv,
}
use magicdesk_x.Model.Records.{
  typed_items, reference, atoms_of, find_live, update_live, record_for, on_record,
}

-- The atoms of a property that are not two of the states.
unfoldable pub without_states : ℕ → ℕ → List ℕ → List ℕ
without_states first second [] = []
without_states first second (a ∷ rest) =
    let later = without_states first second rest in
    if a == first || a == second then later else a ∷ later

abbrev pub if_set : Bool → ℕ → List ℕ
if_set true a = a ∷ []
if_set false a = []

-- The new states of a window: the others, then these two if they are set.
unfoldable pub states_with : ModelEnv → ModelWindow → ℕ → ℕ → Bool → Bool → List ℕ
unfolding without_states
states_with env window first second has_first has_second =
    without_states first second (atoms_of (typed_items (window.property net_wm_state) xa_atom))
    ++ (if_set has_first first ++ if_set has_second second)

-- The window of a confirmation and the state in which it has a record, for the current serial.
unfoldable pub confirmed_window :
    ModelEnv → ModelState → ℕ → (WindowRecord → ℕ) → ℕ → Option (ModelWindow × ModelState)
unfolding record_for find_live
confirmed_window env s id serial_of serial = elim (if id == 0 then none else env.lookup id) [
  | none ↦ none
  | some window ↦ elim (record_for env s window) [
    | none ↦ none
    | some t ↦ elim (find_live window.id t.records) [
      | none ↦ none
      | some r ↦ if serial_of r == serial then some (window, t) else none
    ]
  ]
]

-- The state that is left when a confirmation is not taken: a record may have been made.
unfoldable pub looked_up : ModelEnv → ModelState → ℕ → ModelState
unfolding record_for
looked_up env s id = elim (if id == 0 then none else env.lookup id) [
  | none ↦ s
  | some window ↦ elim (record_for env s window) [ none ↦ s | some t ↦ t ]
]

abbrev pub set_fullscreen : ℕ → Bool → WindowRecord → WindowRecord
set_fullscreen serial actual r = record r {
  fullscreen = (fullscreen_confirm r.fullscreen serial actual).0;
  changed = true;
}

-- `lorieWindowFullscreenConfirm`.
unfoldable pub confirm_fullscreen : ModelEnv → ModelState → ℕ → ℕ → Bool → ModelOutcome
unfolding confirmed_window looked_up states_with update_live fullscreen_confirm
confirm_fullscreen env s id serial actual =
    if s.manager == 0
    then (s, [])
    else elim (confirmed_window env s id (λ r. r.fullscreen.serial) serial) [
      | none ↦ (looked_up env s id, [])
      | some (window, t) ↦
          let state = env.atom state_fullscreen in
          let words = states_with env window state state actual false in
          if not env.memory then (t, []) else (
            if env.change_succeeds
                then record (on_record t window.id (set_fullscreen serial actual)) { dirty = true }
                else t,
            words_changed window.id net_wm_state words ∷ [],
          )
    ]

abbrev pub set_maximized : ℕ → ℕ → WindowRecord → WindowRecord
set_maximized serial axes r = record r {
  maximized = (maximized_confirm r.maximized serial axes).0;
  changed = true;
}

-- `lorieWindowMaximizedConfirm`.
unfoldable pub confirm_maximized : ModelEnv → ModelState → ℕ → ℕ → ℕ → ModelOutcome
unfolding confirmed_window looked_up states_with update_live maximized_confirm
confirm_maximized env s id serial axes =
    if s.manager == 0 || foreign_axes axes
    then (s, [])
    else elim (confirmed_window env s id (λ r. r.maximized.serial) serial) [
      | none ↦ (looked_up env s id, [])
      | some (window, t) ↦
          let words =
            states_with env window (env.atom state_horizontal) (env.atom state_vertical)
              (has_bit axes 0) (has_bit axes 1) in
          if not env.memory then (t, []) else (
            if env.change_succeeds
                then record (on_record t window.id (set_maximized serial axes)) { dirty = true }
                else t,
            words_changed window.id net_wm_state words ∷ [],
          )
    ]

-- `flags & ~7u`, which is not 0 exactly for a number above 7.
abbrev pub foreign_flags : ℕ → Bool
foreign_flags flags = not (bit_and flags (u32_mod - 1 - 7) == 0)

-- A window that is active needs no attention.
abbrev pub settled_flags : ℕ → ℕ
settled_flags flags = if has_bit flags 0 then clear_bit flags 2 else flags

abbrev pub set_interaction : ℕ → WindowRecord → WindowRecord
set_interaction flags r = record r {
  interaction = record r.interaction {
    actual = flags;
    action = none_asked;
    attention = has_bit flags 2;
  };
  changed = true;
}

-- _NET_ACTIVE_WINDOW of the root: the window becomes active, or is no longer.
abbrev pub active_changed : ModelEnv → ℕ → ℕ → List ModelEffect
active_changed env id flags =
    let active = elim (env.lookup env.root) as (λ o. ℕ) [
      | none ↦ 0
      | some root ↦ reference root net_active_window
    ] in
    if has_bit flags 0 || active == id
    then words_changed env.root net_active_window ((if has_bit flags 0 then id else 0) ∷ []) ∷ []
    else []

-- `lorieWindowInteractionConfirm`.
unfoldable pub confirm_interaction : ModelEnv → ModelState → ℕ → ℕ → ℕ → ModelOutcome
unfolding confirmed_window looked_up states_with update_live reference clear_bit
confirm_interaction env s id serial asked =
    if s.manager == 0 || foreign_flags asked
    then (s, [])
    else elim (confirmed_window env s id (λ r. r.interaction.serial) serial) [
      | none ↦ (looked_up env s id, [])
      | some (window, t) ↦
          let flags = settled_flags asked in
          let words =
            states_with env window (env.atom state_hidden) (env.atom state_attention)
              (has_bit flags 1) (has_bit flags 2) in
          if not env.memory then (t, []) else (
            record (on_record t window.id (set_interaction flags)) { dirty = true },
            words_changed window.id net_wm_state words
                ∷ words_changed window.id wm_state ((if has_bit flags 1 then 3 else 1) ∷ 0 ∷ [])
                ∷ active_changed env id flags,
          )
    ]
