-- ===== src/DirectInput/Held.antt =====
-- What the X server holds of a tablet tool: whether it is near, and its three buttons.
use magicdesk_x.Prelude.{
  ℕ, ◌+◌, ◌-◌, ◌≡◌, refl, ◌∙◌, inl, inr, Bool, true, false, not, ◌&&◌, Option, none, some, List, [],
  ◌∷◌, ◌++◌, arith, ◌==◌, if◌then◌else◌, Option-cases, if-both, get_or, set,
}
use magicdesk_x.Prelude.Bits.{has_bit, beqb}
use magicdesk_x.DirectInput.{
  Position, Contact, no_contact, Tablet, DeviceEvent, touch_begin, touch_update, touch_end,
  proximity_in, proximity_out, tablet_motion, tablet_press, tablet_release, released_button,
  tablet_released, release_contacts, release_tool,
}

-- A tool that is near, with its buttons; `none` if it is not.
abbrev pub held : Tablet → Option (List Bool)
held t =
    if t.output == 0
    then none
    else some (has_bit t.buttons 0 ∷ has_bit t.buttons 1 ∷ has_bit t.buttons 2 ∷ [])

abbrev all_up : List Bool → Bool
all_up [] = true
all_up (b ∷ rest) = not b && all_up rest

-- What an event of a tool makes of it. Only a tool that is not near comes near; only one that is near
-- moves, or presses a button that is up, or releases one that is down; and it leaves with all buttons up.
abbrev own_event : Option (List Bool) → DeviceEvent → Option (Option (List Bool))
own_event none (proximity_in tool p) = some (some (false ∷ false ∷ false ∷ []))
own_event none _ = none
own_event (some flags) (proximity_out tool p) = if all_up flags then some none else none
own_event (some flags) (tablet_motion tool p) = some (some flags)
own_event (some flags) (tablet_press tool button) =
    if get_or flags (button - 1) true then none else some (some (set flags (button - 1) true))
own_event (some flags) (tablet_release tool button) =
    if get_or flags (button - 1) false then some (some (set flags (button - 1) false)) else none
own_event (some flags) _ = none

abbrev is_of : Bool → DeviceEvent → Bool
is_of tool (touch_begin slot p) = false
is_of tool (touch_update slot p) = false
is_of tool (touch_end slot p) = false
is_of tool (proximity_in other p) = beqb tool other
is_of tool (proximity_out other p) = beqb tool other
is_of tool (tablet_motion other p) = beqb tool other
is_of tool (tablet_press other button) = beqb tool other
is_of tool (tablet_release other button) = beqb tool other

abbrev tool_replay_one : Bool → Option (List Bool) → DeviceEvent → Option (Option (List Bool))
tool_replay_one tool state e = if is_of tool e then own_event state e else some state

-- The events of a tool, taken in order; `none` if the X server cannot take one.
abbrev pub tool_replay : Bool → Option (List Bool) → List DeviceEvent → Option (Option (List Bool))
tool_replay tool state [] = some state
tool_replay tool state (e ∷ events) = elim (tool_replay_one tool state e) [
  | none ↦ none
  | some next ↦ tool_replay tool next events
]

pub tool_replay-append :
    (tool : Bool) (state next : Option (List Bool)) (xs ys : List DeviceEvent)
    → tool_replay tool state xs ≡ some next
    → tool_replay tool state (xs ++ ys) ≡ tool_replay tool next ys
tool_replay-append tool state next [] ys h = cc
tool_replay-append tool state next (e ∷ xs) ys h =
    elim (Option-cases (tool_replay_one tool state e)) [
      | inl n ↦ absurd (no_result (rw (n, tool_replay) at h))
      | inr (m, one) ↦
          rw (tool_replay, one) (tool_replay-append tool m next xs ys (rw (one, tool_replay) at h))
    ]
  where
    no_result : none ≡ some next → ⊥
    no_result e = cc

-- Events of no tool, or of the other one.
abbrev pub IsForeign : Bool → List DeviceEvent → Type 0
IsForeign tool events = (state : Option (List Bool)) → tool_replay tool state events ≡ some state

pub IsForeign-append :
    (tool : Bool) (xs ys : List DeviceEvent)
    → IsForeign tool xs
    → IsForeign tool ys
    → IsForeign tool (xs ++ ys)
IsForeign-append tool xs ys a b state =
    tool_replay-append tool state state xs ys (a state) ∙ b state

pub release_contacts-IsForeign :
    (tool device : Bool) (output i : ℕ) (contacts : List Contact)
    → IsForeign tool (release_contacts device output i contacts).1
unfolding release_contacts
release_contacts-IsForeign tool device output i [] = λ state. refl
release_contacts-IsForeign tool device output i (c ∷ contacts) =
    let (rest, events) = release_contacts device output (i + 1) contacts in
    let later = release_contacts-IsForeign tool device output (i + 1) contacts in
    if-both (λ (x : List Contact × List DeviceEvent). IsForeign tool x.1)
      (c.output == output && not (output == 0))
      (no_contact ∷ rest, (if device then touch_end (i + 1) c.position ∷ events else events))
      (c ∷ rest, events)
      (λ e.
        if-both (IsForeign tool) device (touch_end (i + 1) c.position ∷ events) events
          (λ d state. later state) (λ d. later))
      (λ e. later)

not_other : (tool : Bool) → beqb (not tool) tool ≡ false
not_other true = refl
not_other false = refl

button-IsForeign :
    (tool : Bool) (t : Tablet) (i : ℕ) → IsForeign (not tool) (released_button tool t i)
button-IsForeign tool t i =
    if-both (IsForeign (not tool)) (has_bit t.buttons i) (tablet_release tool (i + 1) ∷ []) []
      (λ e state. rw (tool_replay, not_other tool) refl) (λ e state. refl)

tablet_released-IsForeign :
    (tool device : Bool) (t : Tablet) → IsForeign (not tool) (tablet_released tool device t).1
unfolding tablet_released
tablet_released-IsForeign tool device t =
    if-both (IsForeign (not tool)) (not (t.output == 0) && device) _ _
      (λ e. IsForeign-append (not tool) (released_button tool t 0) _ (button-IsForeign tool t 0) (
        IsForeign-append (not tool) (released_button tool t 1) _ (button-IsForeign tool t 1) (
          IsForeign-append (not tool) (released_button tool t 2) _ (button-IsForeign tool t 2)
            (λ state. rw (tool_replay, not_other tool) refl))))
      (λ e state. refl)

pub release_tool-IsForeign :
    (tool device : Bool) (output : ℕ) (t : Tablet)
    → IsForeign (not tool) (release_tool tool device output t).1
release_tool-IsForeign tool device output t =
    if-both (λ (x : Tablet × List DeviceEvent). IsForeign (not tool) x.1)
      (t.output == output && not (output == 0)) (tablet_released tool device t) (t, [])
      (λ e. tablet_released-IsForeign tool device t) (λ e state. refl)

-- The buttons that are down come up, and then the tool leaves.
tool_left :
    (tool : Bool) (p : Position) (a b c : Bool)
    → tool_replay tool (some (a ∷ b ∷ c ∷ [])) (
        (if a then tablet_release tool 1 ∷ [] else [])
        ++ ((if b then tablet_release tool 2 ∷ [] else [])
            ++ ((if c then tablet_release tool 3 ∷ [] else []) ++ (proximity_out tool p ∷ []))))
      ≡ some none
tool_left false p true true true = refl
tool_left false p true true false = refl
tool_left false p true false true = refl
tool_left false p true false false = refl
tool_left false p false true true = refl
tool_left false p false true false = refl
tool_left false p false false true = refl
tool_left false p false false false = refl
tool_left true p true true true = refl
tool_left true p true true false = refl
tool_left true p true false true = refl
tool_left true p true false false = refl
tool_left true p false true true = refl
tool_left true p false true false = refl
tool_left true p false false true = refl
tool_left true p false false false = refl

tablet_released-held :
    (tool device : Bool) (t : Tablet)
    → device ≡ true
    → (t.output == 0) ≡ false
    → tool_replay tool (held t) (tablet_released tool device t).1 ≡ some none
unfolding tablet_released
tablet_released-held tool device t d near =
    rw (near, d)
      (tool_left tool t.position (has_bit t.buttons 0) (has_bit t.buttons 1) (has_bit t.buttons 2))

-- The release of a tool, as the X server sees it.
pub release_tool-held :
    (tool device : Bool) (output : ℕ) (t : Tablet)
    → device ≡ true
    → tool_replay tool (held t) (release_tool tool device output t).1
      ≡ some (held (release_tool tool device output t).0)
unfolding tablet_released
release_tool-held tool device output t d =
    if-both (λ (x : Tablet × List DeviceEvent). tool_replay tool (held t) x.1 ≡ some (held x.0))
      (t.output == output && not (output == 0)) (tablet_released tool device t) (t, [])
      (λ e. tablet_released-held tool device t d (ground arith)) (λ e. refl)
