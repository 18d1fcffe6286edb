-- ===== src/DirectInput/Tests.antt =====
-- Runs of direct_input.c at fixed inputs, and the theorems about it applied to them.
use magicdesk_x.Prelude.{◌≡◌, refl, true, false, some, List, [], ◌∷◌, arith, replicate}
use magicdesk_x.DirectInput.{
  zero_position, no_contact, no_tablet, DirectInput, begin_touch, end_touch, touch_end, finite,
  tablet_release, proximity_out, direct_touch, direct_input_pressed, direct_input_release,
}
use magicdesk_x.DirectInput.Release.{IsReleased, direct_input_release-IsReleased}
use magicdesk_x.DirectInput.Contacts.{touch_replay, occupied}
use magicdesk_x.Prelude.Int.{pos}
use magicdesk_x.DirectInput.Tools.{touch}
use magicdesk_x.DirectInput.Runs.{
  DirectAction, output_input, output_released, stylus_set, direct_run, direct_run-protocol,
}

abbrev empty : DirectInput
empty = record {
  contacts = replicate 20 no_contact;
  pen = no_tablet;
  eraser = no_tablet;
  devices = record { touch = true; pen = true; eraser = false };
}

-- The first contact of output 3 is in slot 0.
abbrev one_touch : DirectInput
one_touch = (direct_touch empty 3 5 begin_touch zero_position).0

one_touch_pressed :
    direct_input_pressed one_touch 3 ≡ true × direct_input_pressed one_touch 4 ≡ false
unfolding direct_touch direct_input_pressed
one_touch_pressed = (refl, refl)

begun_again : (direct_touch one_touch 3 5 begin_touch zero_position).1 ≡ []
unfolding direct_touch
begun_again = refl

ended : (direct_touch one_touch 3 5 end_touch zero_position).1 ≡ touch_end 1 zero_position ∷ []
unfolding direct_touch
ended = refl

-- A touch of output 7 begins beside that of output 3, which is then released; a pen comes near.
abbrev some_actions : List DirectAction
some_actions =
    output_input true true (some (100, 100)) 7 (touch 5 begin_touch) (finite (pos 1) 1) (pos 3)
      (pos 4)
    ∷ (output_released 3 ∷ (stylus_set true true true ∷ []))

one_touch_device : one_touch.devices.touch ≡ true
unfolding direct_touch
one_touch_device = refl

direct_run-protocol_example :
    let (t, events) = direct_run one_touch some_actions in
    touch_replay (occupied one_touch.contacts) events ≡ some (occupied t.contacts)
direct_run-protocol_example = direct_run-protocol one_touch some_actions one_touch_device

run_events : (direct_run one_touch (output_released 3 ∷ [])).1 ≡ touch_end 1 zero_position ∷ []
unfolding direct_touch direct_input_release
run_events = refl

-- The same with a pen that is near output 3, with its tip and a barrel button down.
abbrev with_pen : DirectInput
with_pen = record one_touch {
  pen = record { output = 3; buttons = 5; position = zero_position };
  devices = record { touch = true; pen = true; eraser = true };
}

direct_input_release-IsReleased_example :
    IsReleased with_pen 3 (direct_input_release with_pen 3).0 (direct_input_release with_pen 3).1
direct_input_release-IsReleased_example =
    direct_input_release-IsReleased with_pen 3 (λ (e : 3 ≡ 0). absurd (omega arith)) refl refl refl

released_events :
    (direct_input_release with_pen 3).1
    ≡ touch_end 1 zero_position
      ∷ (tablet_release false 1
          ∷ (tablet_release false 3 ∷ (proximity_out false zero_position ∷ [])))
unfolding direct_touch direct_input_release
released_events = refl
