-- ===== src/Outputs/Leases.antt =====
-- Keys and buttons are leased: several outputs may hold one, and the X server is told of the first
-- press and the last release only (`outputKey`, `outputButton` and `releaseInput` of
-- window_outputs.c). The other outputs of the list are an argument.
use magicdesk_x.Prelude.{
  ℕ, zero, suc, ◌+◌, ◌/◌, ◌%◌, Bool, true, false, not, ◌&&◌, ◌||◌, List, [], ◌∷◌, ◌++◌, map, ltb,
  ◌==◌, if◌then◌else◌, get_or, set,
}
use magicdesk_x.Prelude.Bits.{has_bit, set_bit, clear_bit}
use magicdesk_x.DirectInput.{DirectInput, direct_input_release}
use magicdesk_x.Outputs.{
  OutputSelection, Effect, key_event, button_event, device_event, data_pointer, borrowed,
}

-- `keys[key / 8] & (1u << (key % 8))`.
abbrev pub key_held : OutputSelection → ℕ → Bool
key_held o key = has_bit (get_or o.keys (key / 8) 0) (key % 8)

abbrev pub button_held : OutputSelection → ℕ → Bool
button_held o button = has_bit o.buttons button

abbrev pub any_key : List OutputSelection → ℕ → Bool
any_key [] key = false
any_key (o ∷ rest) key = key_held o key || any_key rest key

abbrev pub any_button : List OutputSelection → ℕ → Bool
any_button [] button = false
any_button (o ∷ rest) button = button_held o button || any_button rest button

abbrev pub same : Bool → Bool → Bool
same true b = b
same false b = not b

abbrev pub with_key : OutputSelection → ℕ → Bool → OutputSelection
with_key o key down =
    let byte = get_or o.keys (key / 8) 0 in
    record o {
      keys =
          set o.keys (key / 8) (if down then set_bit byte (key % 8) else clear_bit byte (key % 8));
    }

unfoldable pub output_key :
    OutputSelection → List OutputSelection → ℕ → Bool → OutputSelection × List Effect
output_key o others key down =
    if same (key_held o key) down
    then (o, [])
    else (with_key o key down, if any_key others key then [] else key_event down key ∷ [])

abbrev pub with_button : OutputSelection → ℕ → Bool → OutputSelection
with_button o button down = record o {
  buttons = if down then set_bit o.buttons button else clear_bit o.buttons button;
}

unfoldable pub output_button :
    OutputSelection → List OutputSelection → ℕ → Bool → OutputSelection × List Effect
output_button o others button down = if same (button_held o button) down then (o, []) else (
  with_button o button down,
  if any_button others button then [] else button_event down button ∷ [],
)

-- `for (key = first; ...; key++) outputKey(output, key, FALSE)` for a number of keys.
unfoldable pub release_keys :
    ℕ → ℕ → OutputSelection → List OutputSelection → OutputSelection × List Effect
unfolding output_key
release_keys zero key o others = (o, [])
release_keys (suc n) key o others =
    let (o', event) = output_key o others key false in
    let (o'', events) = release_keys n (key + 1) o' others in (o'', event ++ events)

unfoldable pub release_buttons :
    ℕ → ℕ → OutputSelection → List OutputSelection → OutputSelection × List Effect
unfolding output_button
release_buttons zero button o others = (o, [])
release_buttons (suc n) button o others =
    let (o', event) = output_button o others button false in
    let (o'', events) = release_buttons n (button + 1) o' others in (o'', event ++ events)

-- What releasing the input of an output changes: the output, the contacts, and the effects.
pub record Released : Type 0 where
  pub output : OutputSelection
  pub direct : DirectInput
  pub effects : List Effect

unfoldable pub release_input : OutputSelection → List OutputSelection → DirectInput → Released
release_input o others direct =
    let (direct', contacts) = direct_input_release direct o.id in
    let (o', keys) = release_keys 248 8 o others in
    let (o'', buttons) = release_buttons 7 1 o' others in
    record {
      output = o'';
      direct = direct';
      effects =
          map device_event contacts ++ (data_pointer o.id o.window 1 false ∷ (keys ++ buttons));
    }

-- The loop of `lorieWindowGestureAllowed`: any button does for button 0.
pub gesture_held : List OutputSelection → ℕ → ℕ → Bool
gesture_held [] window button = false
gesture_held (o ∷ rest) window button =
    (not o.dead
      && (not (borrowed o)
          && (o.window == window
              && (if button == 0 then not (o.buttons == 0) else has_bit o.buttons button))))
    || gesture_held rest window button

unfoldable pub window_gesture_allowed : List OutputSelection → ℕ → ℕ → Bool
unfolding gesture_held
window_gesture_allowed selections window button =
    if ltb 7 button then false else gesture_held selections window button
