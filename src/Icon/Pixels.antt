-- ===== src/Icon/Pixels.antt =====
-- The fitting of the chosen image into the icon of window_icon.h: what is read and what is written.
use magicdesk_x.Prelude.{
  ℕ, zero, suc, ◌+◌, ◌*◌, ◌/◌, ◌%◌, ◌^◌, ◌≤◌, ◌<◌, ◌≡◌, refl, ◌∙◌, arith, length,
}
use native.Mathlib.Decide.{dec_lt}
use magicdesk_x.Cursor.Image.{fill_lem}
use magicdesk_x.Icon.{
  icon_size, icon_pixels, IconImage, side, fitted, source_of, fitted_width, fitted_height,
  icon_rows, corner_of, draw_icon,
}
use magicdesk_x.Icon.Choice.{IsInside}

quotient_le : (n d k : ℕ) → 0 < d → n ≤ k * d → n / d ≤ k
quotient_le n d k h l = grind arith

quotient_lt : (y b h : ℕ) → 0 < b → y < h → y * b / h < b
quotient_lt y b h p l = grind arith

row_before : (r w x h : ℕ) → x < w → r < h → r * w + x < w * h
row_before r w x h p l = grind arith

-- A side of the fitted image is at least one pixel, and at most the icon.
fitted_bounds :
    (length longest : ℕ)
    → 0 < longest
    → length ≤ longest
    → 1 ≤ fitted length longest × fitted length longest ≤ 64
fitted_bounds length longest h l =
    let most = quotient_le (length * 64) longest 64 h (omega arith) in (ground arith, ground arith)

area_le : (w h n : ℕ) → 0 < w → 0 < h → w * h ≤ n → w ≤ n × h ≤ n
area_le w h n p q l = (grind arith, grind arith)

product_le : (y b m : ℕ) → y < 64 → b ≤ m → y * b ≤ 64 * m
product_le y b m h l = grind arith

icon_rows_lem :
    (height corner width : ℕ) (value : ℕ → ℕ → ℕ) (result : ℕ → ℕ) (y x j : ℕ)
    → width ≤ 64
    → (y < height
        → x < width
        → icon_rows height corner width value result (corner + y * 64 + x) ≡ value y x)
      × (corner + height * 64 + width ≤ j + 64
          → icon_rows height corner width value result j ≡ result j)
unfolding icon_rows
icon_rows_lem zero corner width value result y x j w = (λ h. absurd (omega arith), λ h. refl)
icon_rows_lem (suc r) corner width value result y x j w =
    let (inside, outside) = icon_rows_lem r corner width value result y x j w in
    let before = icon_rows r corner width value result in
    let row = fill_lem width (corner + r * 64) (value r) before in
    (
      λ hy hx. elim (dec_lt y r) [
        | yes earlier ↦ (row (corner + y * 64 + x)).1 (omega arith) ∙ inside earlier hx
        | no last ↦ let same : y ≡ r = omega arith in rw same ((row x).0 hx)
      ],
      λ h. (row j).2 (omega arith) ∙ outside (omega arith),
    )

side_le : (i : IconImage) → i.width ≤ side i × i.height ≤ side i
side_le i = (ground arith, ground arith)

pub fitted_sides :
    (count : ℕ) (i : IconImage)
    → IsInside count i
    → (1 ≤ fitted_width i × fitted_width i ≤ 64) × (1 ≤ fitted_height i × fitted_height i ≤ 64)
unfolding fitted_width fitted_height
fitted_sides count i v =
    let (wide, tall) = side_le i in
    let w = v.wide in
    (
      fitted_bounds i.width (side i) (omega arith) wide,
      fitted_bounds i.height (side i) (omega arith) tall,
    )

source_row :
    (y b h count : ℕ)
    → y < h
    → h ≤ 64
    → 0 < b
    → b ≤ count
    → count ≤ 1024 * 1024
    → (y * b) % 2 ^ 32 / h < b
source_row y b h count l m p q c =
    let small = product_le y b (1024 * 1024) (omega arith) (omega arith) in
    let whole : (y * b) % 2 ^ 32 ≡ y * b = omega arith in rw whole (quotient_lt y b h p l)

pub source_inside :
    (count y x : ℕ) (i : IconImage)
    → IsInside count i
    → count ≤ 1024 * 1024
    → y < fitted_height i
    → x < fitted_width i
    → i.start + source_of i (fitted_width i) (fitted_height i) y x < count
source_inside count y x i v c hy hx =
    let ((w1, w2), (h1, h2)) = fitted_sides count i v in
    let ends = v.ends in
    let (wl, hl) = area_le i.width i.height count v.wide v.tall (omega arith) in
    let row = source_row y i.height (fitted_height i) count hy h2 v.tall hl c in
    let column = source_row x i.width (fitted_width i) count hx w2 v.wide wl c in
    let inside =
      row_before ((y * i.height) % 2 ^ 32 / fitted_height i) i.width
        ((x * i.width) % 2 ^ 32 / fitted_width i) i.height column row in
    omega arith

pub draw_icon-inside :
    (words result : ℕ → ℕ) (count y x j : ℕ) (i : IconImage)
    → IsInside count i
    → count ≤ 1024 * 1024
    → y < fitted_height i
    → x < fitted_width i
    → icon_pixels ≤ j
    → let width = fitted_width i in
      let height = fitted_height i in
      let place = corner_of width height + y * icon_size + x in
      let source = i.start + source_of i width height y x in
      (1 ≤ width × width ≤ icon_size × 1 ≤ height × height ≤ icon_size)
      × place < icon_pixels
      × source < count
      × draw_icon words i result place ≡ words source
      × draw_icon words i result j ≡ result j
unfolding draw_icon fitted_width fitted_height
draw_icon-inside words result count y x j i v c hy hx far =
    let ((w1, w2), (h1, h2)) = fitted_sides count i v in
    let width = fitted_width i in
    let height = fitted_height i in
    let corner = corner_of width height in
    let (inside, outside) =
      icon_rows_lem height corner width (λ y x. words (i.start + source_of i width height y x))
        result y x j w2 in
    (
      (w1, w2, h1, h2),
      omega arith,
      source_inside count y x i v c hy hx,
      inside hy hx,
      outside (omega arith),
    )
