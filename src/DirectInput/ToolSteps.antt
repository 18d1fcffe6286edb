-- ===== src/DirectInput/ToolSteps.antt =====
-- The operations of direct_input.c on the tools leave the touches alone.
use magicdesk_x.Prelude.{
  ℕ, ◌≡◌, refl, sym, ap, ◌∙◌, Bool, true, false, not, ◌||◌, some, List, [], ◌++◌, ltb, ◌==◌,
  if◌then◌else◌, if-both,
}
use magicdesk_x.DirectInput.{
  is_finite, Position, Devices, DirectInput, DeviceEvent, Tablet, tablet_released,
}
use magicdesk_x.DirectInput.Contacts.{occupied, touch_replay}
use magicdesk_x.DirectInput.Neutral.{
  IsNeutral, IsNeutral-append, tablet_released-IsNeutral, tool_moved-IsNeutral,
}
use magicdesk_x.DirectInput.Tools.{
  set_stylus_enabled, TabletEvent, tablet_of, device_of, with_tablet, tool_released, tool_moved,
  tool_near, tablet_buttons, direct_tablet,
}

-- An operation whose events the X server can take in order, as long as it has the touch device, and after
-- which it holds the touches of the occupied slots.
abbrev pub IsTouchStep : DirectInput → DirectInput × List DeviceEvent → Type 0
IsTouchStep s (t, events) =
    (touch_replay (occupied s.contacts) events ≡ some (occupied t.contacts))
    × (t.devices.touch ≡ s.devices.touch)

-- An operation of the tools only.
abbrev pub IsToolStep : DirectInput → DirectInput × List DeviceEvent → Type 0
IsToolStep s (t, events) =
    (t.contacts ≡ s.contacts) × ((t.devices.touch ≡ s.devices.touch) × IsNeutral events)

pub tool_step-IsTouchStep :
    (s : DirectInput) (x : DirectInput × List DeviceEvent) → IsToolStep s x → IsTouchStep s x
tool_step-IsTouchStep s (t, events) (c, (d, n)) =
    (n (occupied s.contacts) ∙ ap (λ l. some (occupied l)) (sym c), d)

unchanged-IsToolStep : (s : DirectInput) → IsToolStep s (s, [])
unchanged-IsToolStep s = (refl, (refl, λ flags. refl))

tools_twice :
    (s : DirectInput) (x y : DirectInput × List DeviceEvent)
    → IsToolStep s x
    → IsToolStep x.0 y
    → IsToolStep s (y.0, x.1 ++ y.1)
tools_twice s (u, first) (v, second) (c, (d, n)) (e, (f, m)) =
    (e ∙ c, (f ∙ d, IsNeutral-append first second n m))

with_tablet-IsToolStep :
    (tool : Bool) (s : DirectInput) (t : Tablet) (events : List DeviceEvent)
    → IsNeutral events
    → IsToolStep s (with_tablet tool s t, events)
with_tablet-IsToolStep false s t events n = (refl, (refl, n))
with_tablet-IsToolStep true s t events n = (refl, (refl, n))

tool_released-IsToolStep : (tool : Bool) (s : DirectInput) → IsToolStep s (tool_released tool s)
unfolding tool_released
tool_released-IsToolStep tool s =
    with_tablet-IsToolStep tool s (tablet_released tool (device_of tool s) (tablet_of tool s)).0
      (tablet_released tool (device_of tool s) (tablet_of tool s)).1
      (tablet_released-IsNeutral tool (device_of tool s) (tablet_of tool s))

tool_near-IsToolStep :
    (tool : Bool) (output next : ℕ) (position : Position) (s : DirectInput)
    → IsToolStep s (tool_near tool output next position s)
unfolding tool_near
tool_near-IsToolStep tool output next position s =
    let x = if (tablet_of (not tool) s).output == 0 then (s, []) else tool_released (not tool) s in
    let o = (tablet_of tool x.0).output in
    let y = if o == 0 || o == output then (x.0, []) else tool_released tool x.0 in
    let z = tool_moved tool output next position (tablet_of tool y.0) in
    tools_twice s x (with_tablet tool y.0 z.0, y.1 ++ z.1)
      (if-both (IsToolStep s) ((tablet_of (not tool) s).output == 0) (s, [])
        (tool_released (not tool) s) (λ e. unchanged-IsToolStep s)
        (λ e. tool_released-IsToolStep (not tool) s))
      (tools_twice x.0 y (with_tablet tool y.0 z.0, z.1)
        (if-both (IsToolStep x.0) (o == 0 || o == output) (x.0, []) (tool_released tool x.0)
          (λ e. unchanged-IsToolStep x.0) (λ e. tool_released-IsToolStep tool x.0))
        (with_tablet-IsToolStep tool y.0 z.0 z.1
          (tool_moved-IsNeutral tool output next position (tablet_of tool y.0))))

pub stylus-touch :
    (pen_added eraser_added enabled : Bool) (d : Devices)
    → (set_stylus_enabled pen_added eraser_added enabled d).touch ≡ d.touch
unfolding set_stylus_enabled
stylus-touch pen_added eraser_added true d =
    if-both (λ (e : Devices). e.touch ≡ d.touch) (d.pen || pen_added) _ _ (λ e. refl) (λ e. refl)
stylus-touch pen_added eraser_added false d = refl

pub direct_tablet-IsToolStep :
    (pen_added eraser_added : Bool) (s : DirectInput) (output : ℕ) (event : TabletEvent)
    (position : Position)
    → IsToolStep s (direct_tablet pen_added eraser_added s output event position)
unfolding direct_tablet
direct_tablet-IsToolStep pen_added eraser_added s output event position =
    let tool = event.eraser == 1 in
    let ready : DirectInput = record s {
      devices = set_stylus_enabled pen_added eraser_added true s.devices;
    } in
    let u = if not s.devices.pen || not s.devices.eraser then ready else s in
    let has_devices : IsToolStep s (u, []) =
      if-both (λ v. IsToolStep s (v, [])) (not s.devices.pen || not s.devices.eraser) ready s
        (λ e. (refl, (stylus-touch pen_added eraser_added true s.devices, λ flags. refl)))
        (λ e. unchanged-IsToolStep s) in
    let near = tool_near tool output (tablet_buttons event.buttons) position u in
    if-both (IsToolStep s)
      (ltb 7 event.buttons
        || (ltb 1 event.eraser || (not (is_finite event.tilt_x) || not (is_finite event.tilt_y))))
      _ _ (λ e. unchanged-IsToolStep s)
      (λ e.
        if-both (IsToolStep s) (not event.proximity) _ _
          (λ f.
            if-both (IsToolStep s) ((tablet_of tool s).output == output) (tool_released tool s)
              (s, []) (λ g. tool_released-IsToolStep tool s) (λ g. unchanged-IsToolStep s))
          (λ f.
            if-both (IsToolStep s) (not (device_of tool u)) (u, []) near (λ g. has_devices)
              (λ g.
                tools_twice s (u, []) near has_devices
                  (tool_near-IsToolStep tool output (tablet_buttons event.buttons) position u))))
