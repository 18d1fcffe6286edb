-- ===== src/Outputs/Tests.antt =====
-- Runs of window_outputs.c at fixed inputs, and the theorems about it applied to them.
use magicdesk_x.Prelude.{
  ◌&&◌, ℕ, ◌≡◌, refl, true, false, [], ◌∷◌, ◌++◌, map, arith, ◌==◌, if◌then◌else◌, replicate,
}
use magicdesk_x.Prelude.Int.{pos}
use magicdesk_x.Prelude.Bits.{set_bit}
use magicdesk_x.DirectInput.{
  zero_position, direct_input_pressed, no_contact, no_tablet, DirectInput, direct_input_release,
}
use magicdesk_x.Cursor.{cursor_hidden}
use magicdesk_x.Outputs.{Server, OutputSelection, device_event, data_pointer}
use magicdesk_x.Outputs.Leases.{
  output_key, output_button, key_held, button_held, any_key, release_input,
}
use magicdesk_x.Outputs.LeaseLaws.{
  zeros-All, IsSound, key_change, output_key-lease, output_button-lease,
}
use magicdesk_x.Outputs.Callbacks.{reset_outputs}
use magicdesk_x.Outputs.ResetLaws.{has_output, reset_outputs-released}
use magicdesk_x.Outputs.ReleaseLaws.{sole_keys, sole_buttons, release_input-lem}

abbrev shown : ℕ → OutputSelection
shown id = record {
  id = id;
  window = 9;
  changed = false;
  dead = false;
  resize_pending = false;
  geometry_pending = false;
  owns_size = false;
  shell = false;
  parent = 0;
  viewport = record { left = pos 0; top = pos 0; right = pos 0; bottom = pos 0 };
  presentation = 0;
  width = pos 100;
  height = pos 80;
  content_width = pos 100;
  content_height = pos 80;
  keys = replicate 32 0;
  buttons = 0;
}

-- Output 2 holds key 38 and button 1.
abbrev typing : OutputSelection
typing = (output_button (output_key (shown 2) [] 38 true).0 [] 1 true).0

typing_held : key_held typing 38 ≡ true × key_held typing 39 ≡ false × button_held typing 1 ≡ true
unfolding output_key output_button set_bit
typing_held = (refl, refl, refl)

second_press : (output_key (shown 3) (typing ∷ []) 38 true).1 ≡ []
unfolding output_key output_button set_bit
second_press = refl

shown-IsSound : (id : ℕ) → IsSound (shown id)
shown-IsSound id = record { size = refl; bytes = zeros-All 32; button_byte = omega arith }

typing-IsSound : IsSound typing
typing-IsSound =
    let pressed = (output_key (shown 2) [] 38 true).0 in
    let sound = (output_key-lease (shown 2) [] 38 0 true (shown-IsSound 2) (omega arith)).0 in
    (output_button-lease pressed [] 1 0 true sound (omega arith) (omega arith)).0

output_key-lease_example :
    let (o', effects) = output_key typing (shown 3 ∷ []) 38 false in
    IsSound o'
    × (key_held o' 39 ≡ (if 38 == 39 then false else key_held typing 39))
    × (effects
        ≡ key_change (any_key (typing ∷ shown 3 ∷ []) 38) (any_key (o' ∷ shown 3 ∷ []) 38) 38)
output_key-lease_example =
    output_key-lease typing (shown 3 ∷ []) 38 39 false typing-IsSound (omega arith)

abbrev idle : DirectInput
idle = record {
  contacts = replicate 20 no_contact;
  pen = no_tablet;
  eraser = no_tablet;
  devices = record { touch = true; pen = false; eraser = false };
}

release_input-lem_example :
    let r = release_input typing (shown 3 ∷ []) idle in
    (key_held r.output 38 ≡ false)
    × (button_held r.output 1 ≡ false)
    × (r.output ≡ record typing { keys = r.output.keys; buttons = r.output.buttons })
    × (r.effects
        ≡ map device_event (direct_input_release idle typing.id).1
          ++ (data_pointer typing.id typing.window 1 false
              ∷ (sole_keys 248 8 typing (shown 3 ∷ []) ++ sole_buttons 7 1 typing (shown 3 ∷ []))))
    × (r.direct ≡ (direct_input_release idle typing.id).0)
    × IsSound r.output
release_input-lem_example =
    release_input-lem typing (shown 3 ∷ []) idle 38 1 typing-IsSound (omega arith) (omega arith)
      (omega arith) (omega arith)

abbrev server : Server
server = record {
  selections = typing ∷ shown 3 ∷ [];
  direct = idle;
  cursor = record {
    info = record { kind = cursor_hidden; width = 0; height = 0; hotspot_x = 0; hotspot_y = 0 };
    pixels = λ i. 0;
    output = 2;
    window = 9;
    pending = false;
  };
}

-- Output 3 has a touch.
abbrev touched : Server
touched = record server {
  direct = record idle {
    contacts =
        record { output = 3; contact = 0; position = zero_position } ∷ replicate 19 no_contact;
  };
}

touched_pressed : direct_input_pressed touched.direct 3 ≡ true
unfolding direct_input_pressed
touched_pressed = refl

reset_outputs-released_example :
    let t = (reset_outputs touched).0 in
    (t.selections ≡ [])
    × ((t.cursor.output ≡ 0)
        × ((has_output 3 touched.selections && direct_input_pressed t.direct 3) ≡ false))
reset_outputs-released_example = reset_outputs-released touched 3
