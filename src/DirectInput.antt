-- ===== src/DirectInput.antt =====
-- Touch contacts and the two tablet tools: direct_input.c under lorie/src/main/cpp/lorie. The static
-- arrays are the record `DirectInput`; what is queued for the X server is a list of events. A float of
-- the wire is not a number, infinite, or a whole number of fractions 2 ^ -k, and the quotients that
-- the code computes in `double` are kept as their operands.
pub mod Contacts
pub mod Tools
pub mod Neutral
pub mod ToolSteps
pub mod Runs
pub mod Held
pub mod Release
mod Tests
use magicdesk_x.Prelude.{
  ℕ, zero, ◌+◌, ◌*◌, ◌^◌, Bool, true, false, not, ◌&&◌, ◌||◌, Option, none, some, List, [], ◌∷◌,
  ◌++◌, ltb, ◌==◌, if◌then◌else◌, set, replicate,
}
use magicdesk_x.Prelude.Int.{ℤ, pos, ltb_ℤ}
use magicdesk_x.Prelude.Bits.{has_bit}

-- `finite m k` is m / 2 ^ k.
pub data Float : Type 0 where
  not_a_number infinite : Float
  finite : ℤ → ℕ → Float

abbrev pub is_finite : Float → Bool
is_finite (finite m k) = true
is_finite _ = false

-- `f > n`, and `f < 0`; every comparison with a value that is not a number fails.
abbrev pub exceeds : Float → ℕ → Bool
exceeds (finite m k) n = ltb_ℤ (pos (n * 2 ^ k)) m
exceeds _ n = false

abbrev pub below_zero : Float → Bool
below_zero (finite m k) = ltb_ℤ m (pos 0)
below_zero _ = false

-- A `ValuatorMask`: the coordinates with the width and height that they are divided by, the scale,
-- the pressure, and for a tablet the tilt.
pub record Position : Type 0 where
  pub x : ℤ
  pub y : ℤ
  pub width : ℕ
  pub height : ℕ
  pub scale : ℕ
  pub pressure : Float
  pub tilt_x : Float
  pub tilt_y : Float

abbrev pub zero_position : Position
zero_position = record {
  x = pos 0;
  y = pos 0;
  width = 0;
  height = 0;
  scale = 0;
  pressure = finite (pos 0) 0;
  tilt_x = finite (pos 0) 0;
  tilt_y = finite (pos 0) 0;
}

pub record Contact : Type 0 where
  pub output : ℕ
  pub contact : ℕ
  pub position : Position

abbrev pub no_contact : Contact
no_contact = record { output = 0; contact = 0; position = zero_position }

pub record Tablet : Type 0 where
  pub output : ℕ
  pub buttons : ℕ
  pub position : Position

abbrev pub no_tablet : Tablet
no_tablet = record { output = 0; buttons = 0; position = zero_position }

-- Which of `lorieTouch`, `loriePen` and `lorieEraser` exist.
pub record Devices : Type 0 where
  pub touch : Bool
  pub pen : Bool
  pub eraser : Bool

pub record DirectInput : Type 0 where
  pub contacts : List Contact
  pub pen : Tablet
  pub eraser : Tablet
  pub devices : Devices

-- The phases of a touch, and any other code.
pub data TouchPhase : Type 0 where
  begin_touch update_touch end_touch : TouchPhase
  unknown_phase : TouchPhase

-- What is queued for the X server. A tool is false for the pen and true for the eraser.
pub data DeviceEvent : Type 0 where
  touch_begin touch_update touch_end : ℕ → Position → DeviceEvent
  proximity_in proximity_out : Bool → Position → DeviceEvent
  tablet_motion : Bool → Position → DeviceEvent
  tablet_press tablet_release : Bool → ℕ → DeviceEvent

unfoldable pub direct_input_reset : DirectInput → DirectInput
direct_input_reset s = record s {
  contacts = replicate 20 no_contact;
  pen = no_tablet;
  eraser = no_tablet;
}

pub any_contact : ℕ → List Contact → Bool
any_contact output [] = false
any_contact output (c ∷ contacts) = c.output == output || any_contact output contacts

unfoldable pub direct_input_pressed : DirectInput → ℕ → Bool
unfolding any_contact
direct_input_pressed s output =
    if output == 0
    then false
    else any_contact output s.contacts
      || ((s.pen.output == output && has_bit s.pen.buttons 0)
          || (s.eraser.output == output && has_bit s.eraser.buttons 0))

-- `tabletRelease` on the state of one tool, whose device exists or not.
abbrev pub released_button : Bool → Tablet → ℕ → List DeviceEvent
released_button tool t i = if has_bit t.buttons i then tablet_release tool (i + 1) ∷ [] else []

unfoldable pub tablet_released : Bool → Bool → Tablet → Tablet × List DeviceEvent
tablet_released tool device t = (
  no_tablet,
  if not (t.output == 0) && device
      then released_button tool t 0
        ++ (released_button tool t 1
            ++ (released_button tool t 2 ++ (proximity_out tool t.position ∷ [])))
      else [],
)

-- The loop over the contacts, from slot `i` on.
unfoldable pub release_contacts : Bool → ℕ → ℕ → List Contact → List Contact × List DeviceEvent
release_contacts device output i [] = ([], [])
release_contacts device output i (c ∷ contacts) =
    let (rest, events) = release_contacts device output (i + 1) contacts in
    if c.output == output && not (output == 0)
    then (no_contact ∷ rest, (if device then touch_end (i + 1) c.position ∷ events else events))
    else (c ∷ rest, events)

abbrev pub release_tool : Bool → Bool → ℕ → Tablet → Tablet × List DeviceEvent
release_tool tool device output t =
    if t.output == output && not (output == 0) then tablet_released tool device t else (t, [])

unfoldable pub direct_input_release : DirectInput → ℕ → DirectInput × List DeviceEvent
unfolding release_contacts tablet_released
direct_input_release s output =
    let (contacts, touches) = release_contacts s.devices.touch output 0 s.contacts in
    let (pen, pens) = release_tool false s.devices.pen output s.pen in
    let (eraser, erasers) = release_tool true s.devices.eraser output s.eraser in
    (record s { contacts = contacts; pen = pen; eraser = eraser }, touches ++ (pens ++ erasers))

-- The first slot of an output's contact, and the first free one, counted from `i`.
unfoldable pub find_contact : ℕ → ℕ → ℕ → List Contact → Option ℕ
find_contact output contact i [] = none
find_contact output contact i (c ∷ contacts) =
    if c.output == output && c.contact == contact
    then some i
    else find_contact output contact (i + 1) contacts

unfoldable pub find_free : ℕ → List Contact → Option ℕ
find_free i [] = none
find_free i (c ∷ contacts) = if c.output == 0 then some i else find_free (i + 1) contacts

abbrev touch_event : TouchPhase → ℕ → Position → DeviceEvent
touch_event begin_touch slot p = touch_begin slot p
touch_event end_touch slot p = touch_end slot p
touch_event _ slot p = touch_update slot p

abbrev kept_contact : TouchPhase → Contact → Contact
kept_contact end_touch c = no_contact
kept_contact _ c = c

-- The slot that the event is for; `none` is the slot 20 of the code.
unfoldable pub slot_for : List Contact → ℕ → ℕ → TouchPhase → Option ℕ
unfolding find_contact find_free
slot_for contacts output contact begin_touch = elim (find_contact output contact 0 contacts) [
  | none ↦ find_free 0 contacts
  | some i ↦ none
]
slot_for contacts output contact _ = find_contact output contact 0 contacts

abbrev touch_slot : DirectInput → ℕ → ℕ → TouchPhase → Position → ℕ → DirectInput × List DeviceEvent
touch_slot s output contact phase position slot =
    let c : Contact = record { output = output; contact = contact; position = position } in
    (
      record s { contacts = set s.contacts slot (kept_contact phase c) },
      touch_event phase (slot + 1) position ∷ [],
    )

abbrev pub at_slot :
    DirectInput → ℕ → ℕ → TouchPhase → Position → Option ℕ → DirectInput × List DeviceEvent
at_slot s output contact phase position none = (s, [])
at_slot s output contact phase position (some slot) =
    touch_slot s output contact phase position slot

abbrev pub is_known : TouchPhase → Bool
is_known unknown_phase = false
is_known _ = true

-- The branch of LORIE_OUTPUT_TOUCH after the common guards.
unfoldable pub direct_touch :
    DirectInput → ℕ → ℕ → TouchPhase → Position → DirectInput × List DeviceEvent
unfolding slot_for
direct_touch s output contact phase position =
    if not s.devices.touch || (ltb 31 contact || not (is_known phase))
    then (s, [])
    else at_slot s output contact phase position (slot_for s.contacts output contact phase)
