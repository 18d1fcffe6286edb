-- ===== src/DirectInput/Tools.antt =====
-- The rest of direct_input.c under lorie/src/main/cpp/lorie: the tablet tools, the devices that
-- `lorieSetStylusEnabled` of InitInput.c adds and removes, and `lorieDirectInput` over both.
use magicdesk_x.Prelude.{
  ℕ, ◌+◌, ◌*◌, ◌/◌, ◌%◌, Bool, true, false, not, ◌||◌, Option, none, some, List, [], ◌∷◌, ◌++◌, ltb,
  ◌==◌, if◌then◌else◌,
}
use magicdesk_x.Prelude.Int.{ℤ, pos}
use magicdesk_x.Prelude.Bits.{has_bit}
use magicdesk_x.DirectInput.{
  Float, finite, is_finite, exceeds, below_zero, Position, Tablet, Devices, DirectInput, TouchPhase,
  DeviceEvent, proximity_in, tablet_motion, tablet_press, tablet_release, tablet_released,
  direct_touch,
}

-- `lorieSetStylusEnabled`; the arguments say whether the X server could add each device.
unfoldable pub set_stylus_enabled : Bool → Bool → Bool → Devices → Devices
set_stylus_enabled pen_added eraser_added true d =
    if d.pen || pen_added then record d { pen = true; eraser = d.eraser || eraser_added } else d
set_stylus_enabled pen_added eraser_added false d = record d { pen = false; eraser = false }

-- The fields of LORIE_OUTPUT_TABLET.
pub record TabletEvent : Type 0 where
  pub buttons : ℕ
  pub eraser : ℕ
  pub proximity : Bool
  pub tilt_x : Float
  pub tilt_y : Float

abbrev pub tablet_of : Bool → DirectInput → Tablet
tablet_of false s = s.pen
tablet_of true s = s.eraser

abbrev pub device_of : Bool → DirectInput → Bool
device_of false s = s.devices.pen
device_of true s = s.devices.eraser

abbrev pub with_tablet : Bool → DirectInput → Tablet → DirectInput
with_tablet false s t = record s { pen = t }
with_tablet true s t = record s { eraser = t }

-- `tabletRelease` on the whole state.
unfoldable pub tool_released : Bool → DirectInput → DirectInput × List DeviceEvent
unfolding tablet_released
tool_released tool s =
    let (t, events) = tablet_released tool (device_of tool s) (tablet_of tool s) in
    (with_tablet tool s t, events)

-- Tip, first barrel and second barrel become left, right and middle.
unfoldable pub tablet_buttons : ℕ → ℕ
tablet_buttons buttons = buttons % 2 + buttons / 2 % 2 * 4 + buttons / 4 % 2 * 2

abbrev pub changed_button : Bool → ℕ → ℕ → ℕ → List DeviceEvent
changed_button tool old next i =
    if has_bit next i
    then (if has_bit old i then [] else tablet_press tool (i + 1) ∷ [])
    else (if has_bit old i then tablet_release tool (i + 1) ∷ [] else [])

-- From `entering` on: the tool is near, on this output.
unfoldable pub tool_moved : Bool → ℕ → ℕ → Position → Tablet → Tablet × List DeviceEvent
tool_moved tool output next position t = (
  record { output = output; buttons = next; position = position },
  (if t.output == 0 then proximity_in tool position ∷ [] else [])
      ++ (tablet_motion tool position
          ∷ (changed_button tool t.buttons next 0
              ++ (changed_button tool t.buttons next 1 ++ changed_button tool t.buttons next 2))),
)

abbrev other_tool_released : Bool → DirectInput → DirectInput × List DeviceEvent
other_tool_released tool s =
    if (tablet_of (not tool) s).output == 0 then (s, []) else tool_released (not tool) s

abbrev foreign_tool_released : Bool → ℕ → DirectInput → DirectInput × List DeviceEvent
foreign_tool_released tool output s =
    let o = (tablet_of tool s).output in
    if o == 0 || o == output then (s, []) else tool_released tool s

-- The branch for a tool in proximity whose device exists.
unfoldable pub tool_near : Bool → ℕ → ℕ → Position → DirectInput → DirectInput × List DeviceEvent
unfolding tool_released tool_moved
tool_near tool output next position s =
    let (u, others) = other_tool_released tool s in
    let (v, foreign) = foreign_tool_released tool output u in
    let (t, moved) = tool_moved tool output next position (tablet_of tool v) in
    (with_tablet tool v t, others ++ (foreign ++ moved))

abbrev with_devices : DirectInput → Devices → DirectInput
with_devices s d = record s { devices = d }

-- The part of `lorieDirectInput` for LORIE_OUTPUT_TABLET after the common guards.
unfoldable pub direct_tablet :
    Bool → Bool → DirectInput → ℕ → TabletEvent → Position → DirectInput × List DeviceEvent
unfolding tool_released tool_near tablet_buttons set_stylus_enabled
direct_tablet pen_added eraser_added s output event position =
    if ltb 7 event.buttons
      || (ltb 1 event.eraser || (not (is_finite event.tilt_x) || not (is_finite event.tilt_y)))
    then (s, [])
    else let tool = event.eraser == 1 in
      if not event.proximity
      then (if (tablet_of tool s).output == output then tool_released tool s else (s, []))
      else let u =
          if not s.devices.pen || not s.devices.eraser
          then with_devices s (set_stylus_enabled pen_added eraser_added true s.devices)
          else s in
        if not (device_of tool u)
        then (u, [])
        else tool_near tool output (tablet_buttons event.buttons) position u

pub data DirectEvent : Type 0 where
  touch : ℕ → TouchPhase → DirectEvent
  tablet : TabletEvent → DirectEvent
  other_operation : DirectEvent

abbrev tilt_of : DirectEvent → Float × Float
tilt_of (tablet e) = (e.tilt_x, e.tilt_y)
tilt_of _ = (finite (pos 0) 0, finite (pos 0) 0)

abbrev scale_of : DirectEvent → ℕ
scale_of (tablet e) = 0x3ffff
scale_of _ = 65535

abbrev pub direct_branch :
    Bool → Bool → DirectInput → ℕ → DirectEvent → Position → DirectInput × List DeviceEvent
direct_branch pen_added eraser_added s output (touch contact phase) position =
    direct_touch s output contact phase position
direct_branch pen_added eraser_added s output (tablet e) position =
    direct_tablet pen_added eraser_added s output e position
direct_branch pen_added eraser_added s output other_operation position = (s, [])

-- `lorieDirectInput`; the screen is its width and height.
unfoldable pub direct_input :
    Bool
    → Bool
    → Option (ℕ × ℕ)
    → DirectInput
    → ℕ
    → DirectEvent
    → Float
    → ℤ
    → ℤ
    → DirectInput × List DeviceEvent
unfolding direct_touch direct_tablet
direct_input pen_added eraser_added none s output event pressure x y = (s, [])
direct_input pen_added eraser_added (some (width, height)) s output event pressure x y =
    if output == 0
      || (width == 0
          || (height == 0
              || (not (is_finite pressure) || (below_zero pressure || exceeds pressure 1))))
    then (s, [])
    else direct_branch pen_added eraser_added s output event (record {
      x = x;
      y = y;
      width = width;
      height = height;
      scale = scale_of event;
      pressure = pressure;
      tilt_x = (tilt_of event).0;
      tilt_y = (tilt_of event).1;
    })
