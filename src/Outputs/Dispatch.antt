-- ===== src/Outputs/Dispatch.antt =====
-- The handlers of window_outputs.c that act on a bound output: the rest of `lorieOutputCommand`,
-- `lorieOutputPoint` and what the window model calls back.
use magicdesk_x.Prelude.{
  ℕ, ◌*◌, ◌^◌, Bool, true, false, not, ◌&&◌, ◌||◌, Option, none, some, List, [], ◌∷◌, ◌++◌, map,
  ltb, leb, ◌==◌, if◌then◌else◌, get_elem?, set,
}
use magicdesk_x.Prelude.Int.{ℤ, pos_part, neg_part, ◌+ℤ◌, ◌-ℤ◌}
use magicdesk_x.Prelude.Bits.{has_bit}
use magicdesk_x.Cursor.{cursor_select}
use magicdesk_x.DirectInput.{
  Float, is_finite, finite, TouchPhase, begin_touch, direct_input_release, direct_input_pressed,
}
use magicdesk_x.DirectInput.Tools.{DirectEvent, touch, tablet, other_operation, direct_input}
use magicdesk_x.Window.Placement.{output_axis}
use magicdesk_x.Outputs.{
  OutputSelection, Effect, device_event, data_pointer, motion_event, scroll_event, keysym_event,
  user_input, focus_window, blur_window, shell_configure, observe, inspect, set_dpi,
  set_color_scheme, close_window, fullscreen_confirmed, maximized_confirmed, interaction_confirmed,
  Server, borrowed,
}
use magicdesk_x.Outputs.Leases.{output_key, output_button, release_input}
use magicdesk_x.Outputs.Commands.{
  Operation, bind, resize, pointer, key, release_output, focus, text, observe_windows, close, dpi,
  fullscreen_confirm, inspect_window, shell, viewport, blur, maximized_confirm, scroll,
  touch_operation, tablet_operation, cancel_contacts, interaction_confirm, color_scheme, Command,
  Env, to_u32, link_to, erase_at, bind_new, drop_output, viewport_valid, resize_output,
}

-- `lorieOutputPoint`: the root coordinates of a point, from the first output of that name that still
-- shows the window.
abbrev pub origin_of : Env → ℕ → Option (ℤ × ℤ)
origin_of env window = if window == 0 then some env.root else env.lookup window

abbrev pub point_on : OutputSelection → ℤ → ℤ → ℤ × ℤ → ℤ × ℤ
point_on o x y (left, top) =
    let v = o.viewport in
    if borrowed o
    then (
      output_axis x (left +ℤ v.left) (v.right -ℤ v.left),
      output_axis y (top +ℤ v.top) (v.bottom -ℤ v.top),
    )
    else (output_axis x left o.content_width, output_axis y top o.content_height)

unfoldable pub output_point : Env → List OutputSelection → ℕ → ℕ → ℤ → ℤ → Option (ℤ × ℤ)
output_point env [] id window x y = none
output_point env (o ∷ rest) id window x y =
    let later = output_point env rest id window x y in
    if o.id == id && (o.window == window && not o.dead)
    then elim (origin_of env window) [ none ↦ none | some origin ↦ some (point_on o x y origin) ]
    else later

-- What a handler leaves: the server, and the effects in order.
abbrev pub Outcome : Type 0
Outcome = Server × List Effect

abbrev pub after : List Effect → Outcome → Outcome
after effects (s, more) = (s, effects ++ more)

-- The output at a place with its input released, and then changed.
unfoldable pub released_at :
    Server → ℕ → OutputSelection → (OutputSelection → OutputSelection) → Outcome
released_at s n o change =
    let r = release_input o (erase_at n s.selections) s.direct in
    (record s { selections = set s.selections n (change r.output); direct = r.direct }, r.effects)

abbrev pub kill : OutputSelection → OutputSelection
kill o = record o { dead = true; changed = true }

abbrev unchanged : OutputSelection → OutputSelection
unchanged o = o

abbrev begins_touch : TouchPhase → Bool
begins_touch begin_touch = true
begins_touch _ = false

-- Input by which the user acts on the window, which is remembered with its time.
abbrev acts : Operation → Command → Bool
acts key c = c.down
acts pointer c = c.down && not (c.detail == 0)
acts touch_operation c = begins_touch c.phase
acts tablet_operation c = c.down
acts text c = true
acts _ c = false

abbrev focuses : Operation → Bool → Command → Bool
focuses focus shell_output c = true
focuses key shell_output c = true
focuses text shell_output c = true
focuses _ shell_output c = not shell_output && c.down

abbrev direct_event : Operation → Command → DirectEvent
direct_event touch_operation c = touch c.detail c.phase
direct_event tablet_operation c = tablet c.tablet
direct_event _ c = other_operation

-- LORIE_OUTPUT_TOUCH and LORIE_OUTPUT_TABLET.
unfoldable pub contact_command : Env → Server → OutputSelection → Command → Outcome
contact_command env s o c = elim (output_point env s.selections o.id o.window c.x c.y) [
  | none ↦ (s, [])
  | some (x, y) ↦
      let (direct, events) =
        direct_input env.pen_added env.eraser_added env.screen s.direct o.id
          (direct_event c.operation c) c.pressure x y in
      (
        record s { cursor = cursor_select s.cursor o.id o.window; direct = direct },
        map device_event events
            ++ (data_pointer o.id o.window 1 (direct_input_pressed direct o.id) ∷ []),
      )
]

-- `fabsf(f) > 32` of a finite number.
abbrev beyond_wheel : Float → Bool
beyond_wheel (finite m k) = ltb (32 * 2 ^ k) (pos_part m) || ltb (32 * 2 ^ k) (neg_part m)
beyond_wheel _ = true

abbrev is_zero : Float → Bool
is_zero (finite m k) = (pos_part m == 0) && (neg_part m == 0)
is_zero _ = false

abbrev scroll_effects : Command → List Effect
scroll_effects c =
    if not (is_finite c.horizontal)
      || (not (is_finite c.vertical) || (beyond_wheel c.horizontal || beyond_wheel c.vertical))
    then []
    else if is_zero c.horizontal && is_zero c.vertical
    then []
    else scroll_event c.horizontal c.vertical ∷ []

-- A press or release of button 1 to 7 at the pointer's new place.
unfoldable pub button_command : Server → ℕ → OutputSelection → Command → Outcome
button_command s n o c =
    if leb 1 c.detail && leb c.detail 7
    then (let (o', events) = output_button o (erase_at n s.selections) c.detail c.down in
        (record s { selections = set s.selections n o' }, events))
    else (s, [])

abbrev pointed : Bool → Server → ℕ → OutputSelection → Command → Outcome
pointed true s n o c = (s, scroll_effects c)
pointed false s n o c = button_command s n o c

-- LORIE_OUTPUT_POINTER and LORIE_OUTPUT_SCROLL.
unfoldable pub pointer_command : Env → Bool → Server → ℕ → OutputSelection → Command → Outcome
unfolding button_command
pointer_command env scrolls s n o c =
    after (if scrolls then [] else data_pointer o.id o.window c.detail c.down ∷ [])
      (elim (output_point env s.selections o.id o.window c.x c.y) [
        | none ↦ (s, [])
        | some (x, y) ↦
            after (motion_event x y ∷ [])
              (pointed scrolls (record s { cursor = cursor_select s.cursor o.id o.window }) n o c)
      ])

unfoldable pub key_command : Server → ℕ → OutputSelection → Command → Outcome
key_command s n o c =
    if leb 8 c.detail && leb c.detail 255
    then (let (o', events) = output_key o (erase_at n s.selections) c.detail c.down in
        (record s { selections = set s.selections n o' }, events))
    else (s, [])

-- The last chain of tests.
unfoldable pub input_command : Env → Operation → Server → ℕ → OutputSelection → Command → Outcome
unfolding contact_command pointer_command key_command
input_command env touch_operation s n o c = contact_command env s o c
input_command env tablet_operation s n o c = contact_command env s o c
input_command env pointer s n o c = pointer_command env false s n o c
input_command env scroll s n o c = pointer_command env true s n o c
input_command env key s n o c = key_command s n o c
input_command env text s n o c =
    let keysym = env.ucs_to_keysym c.x in
    (s, keysym_event keysym true ∷ keysym_event keysym false ∷ [])
input_command env _ s n o c = (s, [])

abbrev blurred : OutputSelection → Outcome → Outcome
blurred o (s, effects) = (s, effects ++ (if o.window == 0 then [] else blur_window o.window ∷ []))

-- From the lookup of the window on.
unfoldable pub window_command : Env → Operation → Server → ℕ → OutputSelection → Command → Outcome
unfolding released_at input_command
window_command env blur s n o c = blurred o (released_at s n o unchanged)
window_command env cancel_contacts s n o c =
    let (direct, contacts) = direct_input_release s.direct o.id in
    (
      record s { direct = direct },
      map device_event contacts ++ (data_pointer o.id o.window 1 (has_bit o.buttons 1) ∷ []),
    )
window_command env operation s n o c =
    after (if acts operation c then user_input o.window ∷ [] else []) (
      after
        (if not (o.window == 0) && focuses operation o.shell c
          then focus_window o.window ∷ []
          else [])
        (input_command env operation s n o c))

abbrev viewed : Server → ℕ → OutputSelection → Command → Server
viewed s n o c =
    if not (borrowed o) || (c.serial == 0 || not (viewport_valid c.viewport)) then s else record s {
      selections =
          set s.selections n
            (record o { viewport = c.viewport; presentation = c.serial; changed = true });
    }

abbrev resized : Server → ℕ → OutputSelection → Command → Server
resized s n o c =
    if borrowed o then s else record s { selections = resize_output s.selections n o c }

-- A live output that shows the window of the command.
unfoldable pub bound_command : Env → Operation → Server → ℕ → OutputSelection → Command → Outcome
unfolding window_command resize_output
bound_command env viewport s n o c = (viewed s n o c, [])
bound_command env resize s n o c = (resized s n o c, [])
bound_command env operation s n o c =
    if o.window == 0 then window_command env operation s n o c else elim (env.lookup o.window) [
      | none ↦ (s, [])
      | some place ↦ window_command env operation s n o c
    ]

unfoldable pub found_command : Env → Server → ℕ → OutputSelection → Command → Outcome
unfolding bound_command released_at
found_command env s n o c =
    if o.dead || not (o.window == c.window)
    then (s, [])
    else if o.shell && not (env.shell_window o.window)
    then released_at s n o kill
    else bound_command env c.operation s n o c

abbrev bound_again : Env → ℕ → Command → Outcome → Outcome
bound_again env n c (s, effects) =
    (record s { selections = bind_new env n c s.selections }, effects)

-- The operations on one output.
unfoldable pub selection_command : Env → Operation → Server → Command → Outcome
unfolding drop_output bind_new found_command
selection_command env release_output s c = drop_output s (link_to c.output s.selections)
selection_command env bind s c =
    let n = link_to c.output s.selections in bound_again env n c (drop_output s n)
selection_command env operation s c =
    let n = link_to c.output s.selections in
    elim (get_elem? s.selections n) [ none ↦ (s, []) | some o ↦ found_command env s n o c ]

-- `lorieOutputCommand`.
unfoldable pub command : Env → Operation → Server → Command → Outcome
unfolding selection_command
command env shell s c = (s, shell_configure c.output c.x c.y ∷ [])
command env observe_windows s c = (s, observe ∷ [])
command env inspect_window s c = (s, inspect c.output c.window c.detail ∷ [])
command env dpi s c = (s, set_dpi c.x ∷ [])
command env color_scheme s c = (s, set_color_scheme c.x ∷ [])
command env close s c = (s, close_window c.window c.down ∷ [])
command env fullscreen_confirm s c = (s, fullscreen_confirmed c.window (to_u32 c.x) c.down ∷ [])
command env maximized_confirm s c = (s, maximized_confirmed c.window (to_u32 c.x) (to_u32 c.y) ∷ [])
command env interaction_confirm s c =
    (s, interaction_confirmed c.window (to_u32 c.x) (to_u32 c.y) ∷ [])
command env operation s c = if c.output == 0 then (s, []) else selection_command env operation s c

unfoldable pub output_command : Env → Server → Command → Outcome
unfolding command
output_command env s c = elim (env.screen) [
  | none ↦ (s, [])
  | some size ↦ command env c.operation s c
]
