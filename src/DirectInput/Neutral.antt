-- ===== src/DirectInput/Neutral.antt =====
-- The events of direct_input.c that are of no touch leave the touches alone.
use magicdesk_x.Prelude.{
  ℕ, ◌+◌, ◌≡◌, refl, ◌∙◌, inl, inr, Bool, not, ◌&&◌, none, some, List, [], ◌∷◌, ◌++◌, ◌==◌,
  if◌then◌else◌, Option-cases, if-both,
}
use magicdesk_x.Prelude.Bits.{has_bit}
use magicdesk_x.DirectInput.{
  Position, Tablet, DeviceEvent, proximity_in, tablet_motion, tablet_release, released_button,
  tablet_released,
}
use magicdesk_x.DirectInput.Contacts.{touch_replay_one, touch_replay}
use magicdesk_x.DirectInput.Tools.{changed_button, tool_moved}

pub touch_replay-append :
    (flags next : List Bool) (xs ys : List DeviceEvent)
    → touch_replay flags xs ≡ some next
    → touch_replay flags (xs ++ ys) ≡ touch_replay next ys
touch_replay-append flags next [] ys h = cc
touch_replay-append flags next (e ∷ xs) ys h = elim (Option-cases (touch_replay_one flags e)) [
  | inl n ↦ absurd (no_result (rw (n, touch_replay) at h))
  | inr (m, one) ↦
      rw (touch_replay, one) (touch_replay-append m next xs ys (rw (one, touch_replay) at h))
]
  where
    no_result : none ≡ some next → ⊥
    no_result e = cc

-- Events that are of no touch.
abbrev pub IsNeutral : List DeviceEvent → Type 0
IsNeutral events = (flags : List Bool) → touch_replay flags events ≡ some flags

pub IsNeutral-append :
    (xs ys : List DeviceEvent) → IsNeutral xs → IsNeutral ys → IsNeutral (xs ++ ys)
IsNeutral-append xs ys a b flags = touch_replay-append flags flags xs ys (a flags) ∙ b flags

released_button-IsNeutral :
    (tool : Bool) (t : Tablet) (i : ℕ) → IsNeutral (released_button tool t i)
released_button-IsNeutral tool t i =
    if-both IsNeutral (has_bit t.buttons i) (tablet_release tool (i + 1) ∷ []) [] (λ e flags. refl)
      (λ e flags. refl)

pub tablet_released-IsNeutral :
    (tool device : Bool) (t : Tablet) → IsNeutral (tablet_released tool device t).1
unfolding tablet_released
tablet_released-IsNeutral tool device t =
    if-both IsNeutral (not (t.output == 0) && device) _ _
      (λ e. IsNeutral-append (released_button tool t 0) _ (released_button-IsNeutral tool t 0) (
        IsNeutral-append (released_button tool t 1) _ (released_button-IsNeutral tool t 1) (
          IsNeutral-append (released_button tool t 2) _ (released_button-IsNeutral tool t 2)
            (λ flags. refl))))
      (λ e flags. refl)

changed_button-IsNeutral :
    (tool : Bool) (old next i : ℕ) → IsNeutral (changed_button tool old next i)
changed_button-IsNeutral tool old next i =
    if-both IsNeutral (has_bit next i) _ _
      (λ e. if-both IsNeutral (has_bit old i) _ _ (λ f flags. refl) (λ f flags. refl))
      (λ e. if-both IsNeutral (has_bit old i) _ _ (λ f flags. refl) (λ f flags. refl))

pub tool_moved-IsNeutral :
    (tool : Bool) (output next : ℕ) (position : Position) (t : Tablet)
    → IsNeutral (tool_moved tool output next position t).1
unfolding tool_moved
tool_moved-IsNeutral tool output next position t =
    let entering = if t.output == 0 then proximity_in tool position ∷ [] else [] in
    let changed = changed_button-IsNeutral tool t.buttons next in
    let second = changed_button tool t.buttons next 1 in
    let third = changed_button tool t.buttons next 2 in
    let buttons = changed_button tool t.buttons next 0 ++ (second ++ third) in
    IsNeutral-append entering (tablet_motion tool position ∷ buttons)
      (if-both IsNeutral (t.output == 0) _ _ (λ e flags. refl) (λ e flags. refl))
      (IsNeutral-append (tablet_motion tool position ∷ []) buttons (λ flags. refl)
        (IsNeutral-append (changed_button tool t.buttons next 0) (second ++ third) (changed 0)
          (IsNeutral-append second third (changed 1) (changed 2))))
