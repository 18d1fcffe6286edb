-- ===== src/Transport/Layout.antt =====
-- The layout test of buffer_layout.h: how many bytes an imported buffer must have.
use magicdesk_x.Prelude.{
  ℕ, ◌+◌, ◌-◌, ◌*◌, ◌/◌, ◌%◌, ◌^◌, ◌≤◌, ◌<◌, ◌≡◌, Bool, not, ◌&&◌, ◌||◌, Option, none, some, arith,
  ltb, ◌==◌, if◌then◌else◌,
}
use magicdesk_x.Prelude.Int.{ℤ, pos, pos_part, ◌≤ℤ◌, ltb_ℤ, leb_ℤ, eqb_ℤ, no_negative_part}

abbrev pub int32_max : ℕ
int32_max = 2147483647

abbrev pub int64_max : ℕ
int64_max = 2 ^ 63 - 1

-- On the 64-bit ABI that the program targets.
abbrev pub size_max : ℕ
size_max = 2 ^ 64 - 1

-- `(uint64_t)(height - 1) * stride + width) * 4`, with the wrap-around of uint64_t.
abbrev pub layout_size : ℕ → ℕ → ℕ → ℕ
layout_size width stride height = (((height - 1) * stride + width) * 4) % 2 ^ 64

-- `none` for `false`; the number is what goes through `bytes`.
unfoldable pub buffer_layout : ℤ → ℤ → ℤ → ℕ → Option ℕ
buffer_layout width stride height offset =
    if leb_ℤ width (pos 0)
      || (leb_ℤ height (pos 0)
          || (ltb_ℤ stride width || (ltb_ℤ (pos (int32_max / 4)) stride || not (offset % 4 == 0))))
    then none
    else let size = layout_size (pos_part width) (pos_part stride) (pos_part height) in
      if ltb size_max size || (ltb int64_max offset || ltb (int64_max - offset) size)
      then none
      else some size

unfoldable pub present_size_matches : ℤ → ℤ → ℤ → ℤ → Bool
present_size_matches screen_width screen_height width height =
    ltb_ℤ (pos 0) screen_width
    && (ltb_ℤ (pos 0) screen_height && (eqb_ℤ screen_width width && eqb_ℤ screen_height height))

rows_le : (y height stride : ℕ) → y < height → y * stride ≤ (height - 1) * stride
rows_le y height stride h = grind arith

area_bound :
    (height stride : ℕ)
    → height ≤ int32_max
    → stride ≤ int32_max / 4
    → (height - 1) * stride ≤ 2147483646 * 536870911
area_bound height stride h s = grind arith

layout_facts :
    (width stride height : ℤ) (offset size : ℕ)
    → buffer_layout width stride height offset ≡ some size
    → (0 < pos_part width)
      × (0 < pos_part height)
      × (pos_part width ≤ pos_part stride)
      × (pos_part stride ≤ int32_max / 4)
      × (size ≡ layout_size (pos_part width) (pos_part stride) (pos_part height))
      × (size + offset ≤ int64_max)
      × (offset % 4 ≡ 0)
unfolding buffer_layout
layout_facts width stride height offset size h = ground arith

-- An accepted layout is one whose 64-bit size did not wrap: the size is that of the pixels from the
-- first one to the last one, every pixel of every row lies inside it, the file range that begins at
-- the offset ends within a signed 64-bit file offset, and the offset is a whole number of pixels.
pub buffer_layout-inside :
    (width stride height : ℤ) (offset size x y : ℕ)
    → height ≤ℤ pos int32_max
    → buffer_layout width stride height offset ≡ some size
    → x < pos_part width
    → y < pos_part height
    → ((y * pos_part stride + x) * 4 + 4 ≤ size)
      × (size ≡ ((pos_part height - 1) * pos_part stride + pos_part width) * 4)
      × (offset + size ≤ int64_max)
      × (offset % 4 ≡ 0)
buffer_layout-inside width stride height offset size x y bound h hx hy =
    let (w, t, s, limit, exact, fits, whole) = layout_facts width stride height offset size h in
    let area =
      area_bound (pos_part height) (pos_part stride) (omega (arith, no_negative_part height t))
        limit in
    let row = rows_le y (pos_part height) (pos_part stride) hy in
    (omega arith, omega arith, omega arith, whole)
