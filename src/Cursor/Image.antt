-- ===== src/Cursor/Image.antt =====
-- The pixels of an image: straight alpha and the loops that fill the buffer.
use magicdesk_x.Prelude.{
  ℕ, zero, suc, ◌+◌, ◌*◌, ◌/◌, ◌^◌, ◌≤◌, ◌<◌, ◌≡◌, refl, ◌∙◌, false, arith, ltb, ◌==◌,
}
use native.Mathlib.Decide.{dec_lt}
use magicdesk_x.Cursor.{cursor_straight_argb, straight_channel, channel, fill, fill_rows}

-- The premultiplied value of a straight colour, to the nearest whole number.
abbrev pub premultiplied : ℕ → ℕ → ℕ
premultiplied alpha straight = (straight * alpha + 127) / 255

quotient_bounds : (n a : ℕ) → 0 < a → (n / a * a ≤ n) × (n < n / a * a + a)
quotient_bounds n a h = (grind arith, grind arith)

quotient_small : (q a : ℕ) → 0 < a → q * a < 256 * a → q < 256
quotient_small q a h l = grind arith

-- The rounded quotient `q` of a channel fits in a byte and goes back to its value.
round_back :
    (alpha value q : ℕ)
    → 0 < alpha
    → alpha < 256
    → value ≤ alpha
    → q * alpha ≤ value * 255 + alpha / 2
    → value * 255 + alpha / 2 < q * alpha + alpha
    → (q < 256) × (premultiplied alpha q ≡ value)
round_back alpha value q a b c low high = (quotient_small q alpha a (omega arith), omega arith)

straight_channel-round :
    (alpha value : ℕ)
    → 0 < alpha
    → alpha < 256
    → value ≤ alpha
    → (straight_channel alpha value < 256)
      × (premultiplied alpha (straight_channel alpha value) ≡ value)
straight_channel-round alpha value a b c =
    let n = value * 255 + alpha / 2 in
    let (low, high) = quotient_bounds n alpha a in
    let (small, back) = round_back alpha value (n / alpha) a b c low high in
    let held : ltb 255 (n / alpha) ≡ false = ground arith in rw held (small, back)

-- A pixel's four bytes.
abbrev pub argb : ℕ → ℕ → ℕ → ℕ → ℕ
argb alpha red green blue = alpha * 2 ^ 24 + blue + green * 2 ^ 8 + red * 2 ^ 16

argb_bytes :
    (alpha red green blue : ℕ)
    → red < 256
    → green < 256
    → blue < 256
    → let p = argb alpha red green blue in
      (p / 2 ^ 24 ≡ alpha) × (channel p 16 ≡ red) × (channel p 8 ≡ green) × (channel p 0 ≡ blue)
argb_bytes alpha red green blue r g b = omega arith

straight_argb_partial :
    (p alpha : ℕ)
    → p / 2 ^ 24 ≡ alpha
    → 0 < alpha
    → alpha < 255
    → cursor_straight_argb p
      ≡ argb alpha
          (straight_channel alpha (channel p 16))
          (straight_channel alpha (channel p 8))
          (straight_channel alpha (channel p 0))
unfolding cursor_straight_argb
straight_argb_partial p alpha e a b =
    let clear : (alpha == 0) ≡ false = ground arith in
    let opaque : (alpha == 255) ≡ false = ground arith in rw (e, clear, opaque)

straight_argb_opaque : (p : ℕ) → p / 2 ^ 24 ≡ 255 → cursor_straight_argb p ≡ p
unfolding cursor_straight_argb
straight_argb_opaque p e = rw e

-- A premultiplied pixel becomes a straight one with the same alpha, all of whose colours fit in a
-- byte, and premultiplying those colours again gives back the colours that the X server supplied.
pub straight_argb-premultiplied :
    (alpha red green blue : ℕ)
    → 0 < alpha
    → alpha < 256
    → red ≤ alpha
    → green ≤ alpha
    → blue ≤ alpha
    → let s = cursor_straight_argb (argb alpha red green blue) in
      (s / 2 ^ 24 ≡ alpha)
      × (premultiplied alpha (channel s 16) ≡ red)
      × (premultiplied alpha (channel s 8) ≡ green)
      × (premultiplied alpha (channel s 0) ≡ blue)
straight_argb-premultiplied alpha red green blue a b r g c =
    let p = argb alpha red green blue in
    let (pa, pr, pg, pb) =
      argb_bytes alpha red green blue (omega arith) (omega arith) (omega arith) in
    elim (dec_lt alpha 255) [
      | yes partial ↦
          let (rs, rb) = straight_channel-round alpha red a b r in
          let (gs, gb) = straight_channel-round alpha green a b g in
          let (bs, bb) = straight_channel-round alpha blue a b c in
          let (qa, qr, qg, qb) =
            argb_bytes alpha (straight_channel alpha red) (straight_channel alpha green)
              (straight_channel alpha blue) rs gs bs in
          rw (straight_argb_partial p alpha pa a partial, pr, pg, pb)
            (qa, rw qr rb, rw qg gb, rw qb bb)
      | no whole ↦
          let full : alpha ≡ 255 = omega arith in
          rw (straight_argb_opaque p (pa ∙ full)) (
            pa,
            rw (pr, full) (omega arith),
            rw (pg, full) (omega arith),
            rw (pb, full) (omega arith),
          )
    ]

pub fill_lem :
    (n base : ℕ) (value pixels : ℕ → ℕ) (i : ℕ)
    → (i < n → fill n base value pixels (base + i) ≡ value i)
      × (i < base → fill n base value pixels i ≡ pixels i)
      × (base + n ≤ i → fill n base value pixels i ≡ pixels i)
unfolding fill
fill_lem zero base value pixels i = (λ h. elim h [ ], λ h. refl, λ h. refl)
fill_lem (suc n) base value pixels i =
    let (inside, below, above) = fill_lem n base value pixels i in
    (λ h. ground arith, λ h. ground arith, λ h. ground arith)

suc-mul : (r w : ℕ) → suc r * w ≡ r * w + w
suc-mul r w = grind arith

row_before : (y r w x : ℕ) → x < w → y < r → y * w + x < r * w
row_before y r w x h l = grind arith

-- The nested loops write pixel `x` of row `y` at `y * width + x` for every pixel of the image, and
-- leave every place from the image's size on as it was.
pub fill_rows_lem :
    (height width : ℕ) (value : ℕ → ℕ → ℕ) (pixels : ℕ → ℕ) (y x i : ℕ)
    → (y < height → x < width → fill_rows height width value pixels (y * width + x) ≡ value y x)
      × (height * width ≤ i → fill_rows height width value pixels i ≡ pixels i)
unfolding fill_rows
fill_rows_lem zero width value pixels y x i = (λ h. elim h [ ], λ h. refl)
fill_rows_lem (suc r) width value pixels y x i =
    let (inside, outside) = fill_rows_lem r width value pixels y x i in
    let before = fill_rows r width value pixels in
    let row = fill_lem width (r * width) (value r) before in
    (
      λ hy hx. elim (dec_lt y r) [
        | yes earlier ↦
            (row (y * width + x)).1 (omega (arith, row_before y r width x hx earlier))
            ∙ inside earlier hx
        | no last ↦ let same : y ≡ r = omega arith in rw same ((row x).0 hx)
      ],
      λ h. (row i).2 (omega (arith, suc-mul r width)) ∙ outside (omega (arith, suc-mul r width)),
    )
