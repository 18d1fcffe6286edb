-- ===== src/Cursor/Tests.antt =====
-- Concrete cursors, and the theorems at inputs that meet their hypotheses.
use magicdesk_x.Prelude.{◌+◌, ◌*◌, ◌/◌, ◌^◌, ◌≤◌, ◌<◌, ◌≡◌, refl, false, none, [], ◌∷◌, map, arith}
use magicdesk_x.Cursor.{
  plain, CursorBits, bits, CursorState, cursor_set, cursor_straight_argb, channel, cursor_valid,
  cursor_default, fill_rows,
}
use magicdesk_x.Cursor.Image.{premultiplied, argb, straight_argb-premultiplied, fill_rows_lem}
use magicdesk_x.Cursor.Publish.{
  set_cursor, select, release, publish, run, InSync, run-InSync, cursor_set-inside,
}

straight_argb-premultiplied_example :
    let s = cursor_straight_argb (argb 128 64 128 3) in
    (s / 2 ^ 24 ≡ 128)
    × (premultiplied 128 (channel s 16) ≡ 64)
    × (premultiplied 128 (channel s 8) ≡ 128)
    × (premultiplied 128 (channel s 0) ≡ 3)
straight_argb-premultiplied_example =
    straight_argb-premultiplied 128 64 128 3 (omega arith) (omega arith) (omega arith) (omega arith)
      (omega arith)

half_red : cursor_straight_argb 0x80400000 ≡ 0x80800000
unfolding cursor_straight_argb
half_red = refl

-- An arrow of 3 x 2 pixels with its hotspot at (1, 1).
abbrev arrow : CursorBits
arrow = record {
  width = 3;
  height = 2;
  xhot = 1;
  yhot = 1;
  empty_mask = false;
  argb = none;
  source = λ i. 5;
  mask = λ i. 7;
  fore_red = 0xffff;
  fore_green = 0;
  fore_blue = 0;
  back_red = 0;
  back_green = 0;
  back_blue = 0xffff;
}

abbrev initial : CursorState
initial = record {
  info = plain cursor_default;
  pixels = λ i. 0;
  output = 0;
  window = 0;
  pending = false;
}

initial-InSync : InSync (initial, none)
unfolding cursor_valid
initial-InSync = record { valid = refl; known = λ p o. absurd (o refl) }

arrow_pixels :
    map (cursor_set false (λ w. 4) initial (bits arrow)).pixels (0 ∷ 1 ∷ 5 ∷ 6 ∷ [])
    ≡ 0xffff0000 ∷ 0xff0000ff ∷ 0xffff0000 ∷ 0 ∷ []
unfolding cursor_set
arrow_pixels = refl

cursor_set-inside_example : (cursor_set false (λ w. 4) initial (bits arrow)).pixels 262144 ≡ 0
cursor_set-inside_example =
    cursor_set-inside false (λ w. 4) initial (bits arrow) 262144 (omega arith)

run-InSync_example : InSync (
    run false
      (λ w. 4)
      (initial, none)
      (select 3 9 ∷ set_cursor (bits arrow) ∷ publish ∷ release 3 ∷ []))
run-InSync_example =
    run-InSync false (λ w. 4) (select 3 9 ∷ set_cursor (bits arrow) ∷ publish ∷ release 3 ∷ [])
      initial none initial-InSync

fill_rows_lem_example :
    (1 < 2 → 2 < 3 → fill_rows 2 3 (λ y x. y + x) (λ i. 9) (1 * 3 + 2) ≡ 3)
    × (2 * 3 ≤ 8 → fill_rows 2 3 (λ y x. y + x) (λ i. 9) 8 ≡ 9)
fill_rows_lem_example = fill_rows_lem 2 3 (λ y x. y + x) (λ i. 9) 1 2 8
