-- ===== src/Icon.antt =====
-- The choice and the fitting of a window's icon: window_icon.h under lorie/src/main/cpp/lorie. The
-- property's data is memory from a pointer on, of which `count` words may be read.
pub mod Choice
pub mod Pixels
pub mod Memory
mod Tests
use magicdesk_x.Prelude.{
  ℕ, zero, suc, ◌+◌, ◌-◌, ◌*◌, ◌/◌, ◌%◌, ◌^◌, ◌≤◌, ◌<◌, min, max, ◌≡◌, refl, sym, ap, ◌∙◌, ◌≢◌, ◌↔◌,
  ◌⊎◌, inl, inr, Bool, true, false, not, ◌&&◌, ◌||◌, Option, none, some, List, [], ◌∷◌, ◌++◌, map,
  arith, ltb, leb, ◌==◌, if◌then◌else◌, ltb→lt, lt→ltb, leb→le, ==_iff, tests, Bool-cases,
  Option-cases, length, get_elem?, get_or, set, replicate, length-append, length-set,
  get_or-default, get_or-set_self, get_or-set_ne, All,
}
use magicdesk_x.Prelude.Int.{
  ℤ, pos, negsuc, pos_part, neg_part, sub_ℕ, ◌+ℤ◌, ◌-ℤ◌, ◌≤ℤ◌, ◌<ℤ◌, ltb_ℤ, leb_ℤ, eqb_ℤ, max_ℤ,
  min_ℤ, lt_ℤ-cases, int_laws, neg_part_of_le, negative_part, no_negative_part, +ℤ_parts, -ℤ_parts,
  eq_of_parts,
}
use magicdesk_x.Prelude.Bits.{has_bit, set_bit, clear_bit}
use magicdesk_x.Cursor.{fill}

abbrev pub icon_size : ℕ
icon_size = 64

abbrev pub icon_pixels : ℕ
icon_pixels = 4096

-- An image of the property: where its pixels begin, and its size.
pub record IconImage : Type 0 where
  pub start : ℕ
  pub width : ℕ
  pub height : ℕ

abbrev pub side : IconImage → ℕ
side i = if ltb i.height i.width then i.width else i.height

-- How the loop over the property ends: `return 0`, or with the best image so far.
pub data Scan : Type 0 where
  refused out_of_fuel : Scan
  chosen : Option IconImage → Scan

abbrev pub header_at : (ℕ → ℕ) → ℕ → IconImage
header_at words offset = record {
  start = offset + 2;
  width = words offset;
  height = words (offset + 1);
}

abbrev pub after_image : IconImage → ℕ
after_image i = i.start + i.width * i.height

abbrev pub better : Option IconImage → IconImage → IconImage
better none new = new
better (some best) new =
    if (ltb (side best) icon_size && ltb (side best) (side new))
      || (leb icon_size (side new) && ltb (side new) (side best))
    then new
    else best

abbrev pub image_fits : ℕ → IconImage → Bool
image_fits count i =
    not (i.width == 0 || (i.height == 0 || ltb ((count - i.start) / i.height) i.width))

-- The loop, with fuel.
unfoldable pub scan : (ℕ → ℕ) → ℕ → ℕ → ℕ → Option IconImage → Scan
scan words count zero offset best = if ltb offset count then out_of_fuel else chosen best
scan words count (suc fuel) offset best =
    let image = header_at words offset in
    let rest = scan words count fuel (after_image image) (some (better best image)) in
    if not (ltb offset count)
    then chosen best
    else if ltb (count - offset) 2 || not (image_fits count image)
    then refused
    else rest

-- A side of the fitted image.
abbrev pub fitted : ℕ → ℕ → ℕ
fitted length longest =
    let scaled = length * icon_size / longest in if scaled == 0 then 1 else scaled

unfoldable pub fitted_width : IconImage → ℕ
fitted_width i = fitted i.width (side i)

unfoldable pub fitted_height : IconImage → ℕ
fitted_height i = fitted i.height (side i)

-- The word of the image that pixel `x` of row `y` is taken from, with the wrap-around of uint32_t.
abbrev pub source_of : IconImage → ℕ → ℕ → ℕ → ℕ → ℕ
source_of i width height y x =
    (y * i.height) % 2 ^ 32 / height * i.width + (x * i.width) % 2 ^ 32 / width

-- The rows below `y`, from the corner on.
unfoldable pub icon_rows : ℕ → ℕ → ℕ → (ℕ → ℕ → ℕ) → (ℕ → ℕ) → (ℕ → ℕ)
icon_rows zero corner width value result = result
icon_rows (suc y) corner width value result =
    fill width (corner + y * icon_size) (value y) (icon_rows y corner width value result)

abbrev pub corner_of : ℕ → ℕ → ℕ
corner_of width height = (icon_size - height) / 2 * icon_size + (icon_size - width) / 2

unfoldable pub draw_icon : (ℕ → ℕ) → IconImage → (ℕ → ℕ) → (ℕ → ℕ)
unfolding icon_rows fitted_width fitted_height
draw_icon words i result =
    let width = fitted_width i in
    let height = fitted_height i in
    icon_rows height (corner_of width height) width
      (λ y x. words (i.start + source_of i width height y x)) result

abbrev pub cleared : (ℕ → ℕ) → (ℕ → ℕ)
cleared result i = if ltb i icon_pixels then 0 else result i

abbrev pub drawn : (ℕ → ℕ) → (ℕ → ℕ) → Scan → Bool × (ℕ → ℕ)
drawn words result (chosen (some i)) = (true, draw_icon words i result)
drawn words result _ = (false, result)

-- `lorieWindowIcon`: what it returns, and the array that it writes.
unfoldable pub window_icon : Option (ℕ → ℕ) → ℕ → (ℕ → ℕ) → Bool × (ℕ → ℕ)
unfolding scan draw_icon
window_icon none count result = (false, cleared result)
window_icon (some words) count result =
    if ltb (1024 * 1024) count
    then (false, cleared result)
    else drawn words (cleared result) (scan words count count 0 none)
