-- ===== src/Cursor.antt =====
-- The pointer's shape: cursor_image.h and cursor.c under lorie/src/main/cpp/lorie. The state of
-- cursor.c is the record `CursorState`; the X server's cursor is the record `CursorBits`, and what its
-- headers define (the bit order and the padding of bitmap rows) is an argument.
pub mod Image
pub mod Publish
mod Tests
use Prim.Native.Nat.{bit_and}
use magicdesk_x.Prelude.{
  ℕ, zero, suc, ◌+◌, ◌-◌, ◌*◌, ◌/◌, ◌%◌, ◌^◌, ◌≤◌, ◌<◌, min, max, ◌≡◌, refl, sym, ap, ◌∙◌, ◌≢◌, ◌↔◌,
  ◌⊎◌, inl, inr, Bool, true, false, not, ◌&&◌, ◌||◌, Option, none, some, List, [], ◌∷◌, ◌++◌, map,
  arith, ltb, leb, ◌==◌, if◌then◌else◌, ltb→lt, lt→ltb, leb→le, ==_iff, tests, Bool-cases,
  Option-cases, length, get_elem?, get_or, set, replicate, length-append, length-set,
  get_or-default, get_or-set_self, get_or-set_ne, All,
}
use magicdesk_x.Prelude.Int.{
  ℤ, pos, negsuc, pos_part, neg_part, sub_ℕ, ◌+ℤ◌, ◌-ℤ◌, ◌≤ℤ◌, ◌<ℤ◌, ltb_ℤ, leb_ℤ, eqb_ℤ, max_ℤ,
  min_ℤ, lt_ℤ-cases, int_laws, neg_part_of_le, negative_part, no_negative_part, +ℤ_parts, -ℤ_parts,
  eq_of_parts,
}
use magicdesk_x.Prelude.Bits.{has_bit, set_bit, clear_bit}

abbrev pub cursor_size_limit : ℕ
cursor_size_limit = 512

-- LORIE_CURSOR_DEFAULT, LORIE_CURSOR_HIDDEN and LORIE_CURSOR_IMAGE are 0, 1 and 2.
abbrev pub cursor_default : ℕ
cursor_default = 0

abbrev pub cursor_hidden : ℕ
cursor_hidden = 1

abbrev pub cursor_image : ℕ
cursor_image = 2

-- `LorieCursorInfo`.
pub record CursorInfo : Type 0 where
  pub kind : ℕ
  pub width : ℕ
  pub height : ℕ
  pub hotspot_x : ℕ
  pub hotspot_y : ℕ

abbrev pub plain : ℕ → CursorInfo
plain kind = record { kind = kind; width = 0; height = 0; hotspot_x = 0; hotspot_y = 0 }

unfoldable pub cursor_valid : CursorInfo → Bool
cursor_valid info =
    if info.kind == cursor_default || info.kind == cursor_hidden
    then (info.width == 0 && info.height == 0) && (info.hotspot_x == 0 && info.hotspot_y == 0)
    else info.kind == cursor_image
      && (not (info.width == 0)
          && (not (info.height == 0)
              && (leb info.width cursor_size_limit
                  && (leb info.height cursor_size_limit
                      && (ltb info.hotspot_x info.width && ltb info.hotspot_y info.height)))))

unfoldable pub cursor_pixel_count : CursorInfo → ℕ
unfolding cursor_valid
cursor_pixel_count info = if cursor_valid info then info.width * info.height else 0

-- One round of the loop over the colours: the byte at `shift`, divided by the alpha and rounded.
abbrev pub straight_channel : ℕ → ℕ → ℕ
straight_channel alpha value =
    let color = (value * 255 + alpha / 2) / alpha in if ltb 255 color then 255 else color

abbrev pub channel : ℕ → ℕ → ℕ
channel pixel shift = pixel / 2 ^ shift % 256

-- The four bytes that `|=` puts into `result` stand at different places, so their union is a sum.
unfoldable pub cursor_straight_argb : ℕ → ℕ
cursor_straight_argb pixel =
    let alpha = pixel / 2 ^ 24 in
    if alpha == 0
    then 0
    else if alpha == 255
    then pixel
    else alpha * 2 ^ 24
      + straight_channel alpha (channel pixel 0)
      + straight_channel alpha (channel pixel 8) * 2 ^ 8
      + straight_channel alpha (channel pixel 16) * 2 ^ 16

-- `0xff000000 | colour` for a colour of 24 bits.
unfoldable pub cursor_mono_pixel : (ℕ → ℕ) → (ℕ → ℕ) → ℕ → ℕ → ℕ → ℕ → ℕ
cursor_mono_pixel source mask offset bit foreground background =
    if bit_and (mask offset) bit == 0
    then 0
    else 0xff000000 + (if bit_and (source offset) bit == 0 then background else foreground)

-- The part of the X server's `CursorRec` and `CursorBits` that is read.
pub record CursorBits : Type 0 where
  pub width : ℕ
  pub height : ℕ
  pub xhot : ℕ
  pub yhot : ℕ
  pub empty_mask : Bool
  pub argb : Option (ℕ → ℕ)
  pub source : ℕ → ℕ
  pub mask : ℕ → ℕ
  pub fore_red : ℕ
  pub fore_green : ℕ
  pub fore_blue : ℕ
  pub back_red : ℕ
  pub back_green : ℕ
  pub back_blue : ℕ

-- `cursor` is null, the root cursor, or another one with or without bits.
pub data Cursor : Type 0 where
  null root_cursor no_bits : Cursor
  bits : CursorBits → Cursor

pub record CursorState : Type 0 where
  pub info : CursorInfo
  pub pixels : ℕ → ℕ
  pub output : ℕ
  pub window : ℕ
  pub pending : Bool

abbrev pub write_pixel : (ℕ → ℕ) → ℕ → ℕ → (ℕ → ℕ)
write_pixel pixels at value i = if i == at then value else pixels i

-- `for (i = 0; i < count; i++) cursorPixels[i] = f(i)`, and so for one row from its first pixel.
unfoldable pub fill : ℕ → ℕ → (ℕ → ℕ) → (ℕ → ℕ) → (ℕ → ℕ)
fill zero base value pixels = pixels
fill (suc n) base value pixels = write_pixel (fill n base value pixels) (base + n) (value n)

-- The rows below `y`.
pub fill_rows : ℕ → ℕ → (ℕ → ℕ → ℕ) → (ℕ → ℕ) → (ℕ → ℕ)
unfolding fill
fill_rows zero width value pixels = pixels
fill_rows (suc y) width value pixels =
    fill width (y * width) (value y) (fill_rows y width value pixels)

-- `((red & 0xff00) << 8) | (green & 0xff00) | (blue >> 8)` of 16-bit colours.
abbrev pub packed_color : ℕ → ℕ → ℕ → ℕ
packed_color red green blue = red / 2 ^ 8 * 2 ^ 16 + green / 2 ^ 8 * 2 ^ 8 + blue / 2 ^ 8

-- `msb_first` is BITMAP_BIT_ORDER == MSBFirst, `byte_pad` is BitmapBytePad.
module _ (msb_first : Bool) (byte_pad : ℕ → ℕ) where
  abbrev pub bit_at : ℕ → ℕ
  bit_at x = if msb_first then 128 / 2 ^ (x % 8) else 2 ^ (x % 8)

  mono_pixels : CursorBits → (ℕ → ℕ) → (ℕ → ℕ)
  unfolding fill_rows cursor_mono_pixel
  mono_pixels b pixels =
      fill_rows b.height b.width
        (λ y x.
          cursor_mono_pixel b.source b.mask (y * byte_pad b.width + x / 8) (bit_at x)
            (packed_color b.fore_red b.fore_green b.fore_blue)
            (packed_color b.back_red b.back_green b.back_blue))
        pixels

  abbrev pub image_info : CursorBits → CursorInfo
  image_info b = record {
    kind = cursor_image;
    width = b.width;
    height = b.height;
    hotspot_x = b.xhot;
    hotspot_y = b.yhot;
  }

  abbrev bits_pixels : CursorBits → Option (ℕ → ℕ) → (ℕ → ℕ) → (ℕ → ℕ)
  bits_pixels b none pixels = mono_pixels b pixels
  bits_pixels b (some argb) pixels =
      fill (cursor_pixel_count (image_info b)) 0 (λ i. cursor_straight_argb (argb i)) pixels

  unfoldable pub cursor_set : CursorState → Cursor → CursorState
  unfolding cursor_valid cursor_pixel_count mono_pixels cursor_straight_argb fill
  cursor_set s null = record s { info = plain cursor_hidden; pending = true }
  cursor_set s root_cursor = record s { info = plain cursor_default; pending = true }
  cursor_set s no_bits = record s { info = plain cursor_hidden; pending = true }
  cursor_set s (bits b) =
      if not (b.width == 0) && (not (b.height == 0) && not b.empty_mask)
      then (if not (cursor_valid (image_info b))
          then record s { info = plain cursor_default; pending = true }
          else record s {
            info = image_info b;
            pixels = bits_pixels b b.argb s.pixels;
            pending = true;
          })
      else record s { info = plain cursor_hidden; pending = true }

unfoldable pub cursor_select : CursorState → ℕ → ℕ → CursorState
cursor_select s output window =
    if s.output == output && s.window == window
    then s
    else record s { output = output; window = window; pending = true }

unfoldable pub cursor_release : CursorState → ℕ → CursorState
unfolding cursor_select
cursor_release s output = if s.output == output then cursor_select s 0 0 else s

-- EVENT_OUTPUT_CURSOR with the pixels handed to `lorieSendCursor`.
pub record CursorEvent : Type 0 where
  pub output : ℕ
  pub window : ℕ
  pub info : CursorInfo
  pub pixels : ℕ → ℕ

unfoldable pub cursor_publish : CursorState → CursorState × Option CursorEvent
cursor_publish s = if s.output == 0 || not s.pending then (s, none) else (
  record s { pending = false },
  some (record { output = s.output; window = s.window; info = s.info; pixels = s.pixels }),
)
