-- ===== src/Outputs/Callbacks.antt =====
-- What the X server and the other parts call in window_outputs.c: the end of a drag, of a window, of a
-- whole server generation. The window images are left out.
use magicdesk_x.Prelude.{
  ℕ, zero, suc, ◌≡◌, refl, inl, inr, Bool, true, false, not, ◌&&◌, ◌||◌, Option, none, some, List,
  [], ◌∷◌, ◌++◌, map, arith, ltb, ◌==◌, if◌then◌else◌, Bool-cases, length, get_elem?, set,
}
use magicdesk_x.Cursor.{CursorState, cursor_select, cursor_release}
use magicdesk_x.DirectInput.{DirectInput, direct_input_release}
use magicdesk_x.Outputs.{
  OutputSelection, Effect, device_event, shell_geometry_changed, shell_reset, window_model_reset,
  Server,
}
use magicdesk_x.Outputs.Leases.{output_button, release_input, Released}
use magicdesk_x.Outputs.Commands.{erase_at, drop_output}
use magicdesk_x.Outputs.Dispatch.{Outcome, kill}

abbrev one_further : Option ℕ → Option ℕ
one_further none = none
one_further (some n) = some (suc n)

-- The place of the output that shows a window.
pub find_output : ℕ → ℕ → List OutputSelection → Option ℕ
find_output id window [] = none
find_output id window (o ∷ rest) =
    let later = one_further (find_output id window rest) in
    if o.id == id && o.window == window then some 0 else later

abbrev contacts_released : Bool → DirectInput → ℕ → DirectInput × List Effect
contacts_released true direct id =
    let (direct', events) = direct_input_release direct id in (direct', map device_event events)
contacts_released false direct id = (direct, [])

abbrev button_released : Server → ℕ → ℕ → OutputSelection → Outcome
button_released s button n o =
    let (direct, contacts) = contacts_released (button == 1) s.direct o.id in
    let (o', events) = output_button o (erase_at n s.selections) button false in
    (record s { selections = set s.selections n o'; direct = direct }, contacts ++ events)

-- `lorieReleaseOutputButton`.
unfoldable pub release_output_button : Server → ℕ → ℕ → ℕ → Outcome
unfolding find_output
release_output_button s id window button =
    if ltb button 1 || ltb 7 button then (s, []) else elim (find_output id window s.selections) [
      | none ↦ (s, [])
      | some n ↦ elim (get_elem? s.selections n) [
        | none ↦ (s, [])
        | some o ↦ button_released s button n o
      ]
    ]

abbrev released_if : Bool → OutputSelection → List OutputSelection → DirectInput → Released
released_if true o others direct = release_input o others direct
released_if false o others direct = record { output = o; direct = direct; effects = [] }

abbrev changed_if : Bool → (OutputSelection → OutputSelection) → OutputSelection → OutputSelection
changed_if true change o = change o
changed_if false change o = o

-- The loop that releases the outputs of a kind; those before the current one are the first list.
unfoldable pub release_where :
    (OutputSelection → Bool)
    → (OutputSelection → OutputSelection)
    → List OutputSelection
    → List OutputSelection
    → DirectInput
    → List OutputSelection × (DirectInput × List Effect)
release_where test change before [] direct = (before, (direct, []))
release_where test change before (o ∷ rest) direct =
    let r = released_if (test o) o (before ++ rest) direct in
    let (selections, (direct', effects)) =
      release_where test change (before ++ (changed_if (test o) change r.output ∷ [])) rest
        r.direct in
    (selections, (direct', r.effects ++ effects))

-- `lorieReleaseOutputInput`.
unfoldable pub release_output_input : Server → Outcome
unfolding release_where
release_output_input s =
    let (selections, (direct, effects)) =
      release_where (λ o. true) (λ o. o) [] s.selections s.direct in
    (record s { selections = selections; direct = direct }, effects)

abbrev geometry_told : OutputSelection → OutputSelection
geometry_told o = if o.window == 0 then o else record o { geometry_pending = true }

-- `lorieOutputGeometryChanged`.
unfoldable pub output_geometry_changed : Server → Outcome
output_geometry_changed s =
    (record s { selections = map geometry_told s.selections }, shell_geometry_changed ∷ [])

-- The cursor leaves each output of the window.
pub cursor_left : ℕ → List OutputSelection → CursorState → CursorState
cursor_left window [] cursor = cursor
cursor_left window (o ∷ rest) cursor =
    cursor_left window rest (if o.window == window then cursor_release cursor o.id else cursor)

-- `lorieOutputWindowDestroyed`.
unfoldable pub output_window_destroyed : Server → ℕ → Outcome
unfolding release_where cursor_left
output_window_destroyed s window =
    let (selections, (direct, effects)) =
      release_where (λ o. o.window == window) kill [] s.selections s.direct in
    (
      record {
        selections = selections;
        direct = direct;
        cursor = cursor_left window s.selections s.cursor;
      },
      shell_geometry_changed ∷ effects,
    )

-- `while (selections)`, with fuel.
unfoldable pub release_all : ℕ → Server → Outcome
release_all zero s = (s, [])
release_all (suc fuel) s =
    let (t, effects) = drop_output s 0 in let (u, more) = release_all fuel t in (u, effects ++ more)

-- `lorieResetOutputs`.
unfoldable pub reset_outputs : Server → Outcome
unfolding release_all
reset_outputs s =
    let (t, effects) =
      release_all (length s.selections) (record s { cursor = cursor_select s.cursor 0 0 }) in
    (t, shell_reset ∷ (window_model_reset ∷ effects))

pub live_on : ℕ → List OutputSelection → Bool
live_on window [] = false
live_on window (o ∷ rest) = (o.window == window && not o.dead) || live_on window rest

live_on-append :
    (window : ℕ) (a b : List OutputSelection)
    → live_on window a ≡ false
    → live_on window b ≡ false
    → live_on window (a ++ b) ≡ false
unfolding live_on
live_on-append window [] b p q = q
live_on-append window (o ∷ a) b p q = let rest = live_on-append window a b in ground arith

dead_after :
    (window : ℕ) (o : OutputSelection) (others : List OutputSelection) (direct : DirectInput)
    → let test = o.window == window in
      live_on window (changed_if test kill (released_if test o others direct).output ∷ []) ≡ false
unfolding live_on
dead_after window o others direct = elim (Bool-cases (o.window == window)) [
  | inl e ↦ rw e (ground arith)
  | inr e ↦ rw e (ground arith)
]

release_where-dead :
    (window : ℕ) (rest before : List OutputSelection) (direct : DirectInput)
    → live_on window before ≡ false
    → live_on window (release_where (λ o. o.window == window) kill before rest direct).0 ≡ false
unfolding release_where
release_where-dead window [] before direct h = h
release_where-dead window (o ∷ rest) before direct h =
    let test = o.window == window in
    let r = released_if test o (before ++ rest) direct in
    let last = changed_if test kill r.output ∷ [] in
    release_where-dead window rest (before ++ last) r.direct
      (live_on-append window before last h (dead_after window o (before ++ rest) direct))

-- When a window has been destroyed, no live output shows it, whichever outputs there were.
output_window_destroyed-dead :
    (s : Server) (window : ℕ)
    → live_on window (output_window_destroyed s window).0.selections ≡ false
unfolding output_window_destroyed live_on
output_window_destroyed-dead s window = release_where-dead window s.selections [] s.direct refl
