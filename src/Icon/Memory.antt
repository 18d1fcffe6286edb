-- ===== src/Icon/Memory.antt =====
-- What window_icon.h reads and writes as a whole.
use magicdesk_x.Prelude.{
  ℕ, zero, suc, ◌+◌, ◌-◌, ◌*◌, ◌≤◌, ◌<◌, ◌≡◌, refl, ◌∙◌, inl, inr, Option, none, some, arith, ltb,
  Bool-cases,
}
use magicdesk_x.Cursor.{fill}
use magicdesk_x.Icon.{
  icon_pixels, IconImage, Scan, refused, out_of_fuel, chosen, scan, header_at, better, after_image,
  fitted_width, fitted_height, icon_rows, draw_icon, cleared, drawn, window_icon,
}
use magicdesk_x.Icon.Choice.{IsInside, scan-ForBest}
use magicdesk_x.Icon.Pixels.{source_inside, draw_icon-inside, fitted_sides}

fill-agree :
    (n base : ℕ) (f g r s : ℕ → ℕ) (k : ℕ)
    → ((x : ℕ) → x < n → f x ≡ g x)
    → r k ≡ s k
    → fill n base f r k ≡ fill n base g s k
unfolding fill
fill-agree zero base f g r s k h e = e
fill-agree (suc n) base f g r s k h e =
    let rest = fill-agree n base f g r s k (λ x l. h x (omega arith)) e in
    rw (h n (omega arith), rest)

icon_rows-agree :
    (height corner width : ℕ) (f g : ℕ → ℕ → ℕ) (result : ℕ → ℕ) (k : ℕ)
    → ((y x : ℕ) → y < height → x < width → f y x ≡ g y x)
    → icon_rows height corner width f result k ≡ icon_rows height corner width g result k
unfolding icon_rows
icon_rows-agree zero corner width f g result k h = refl
icon_rows-agree (suc y) corner width f g result k h =
    fill-agree width (corner + y * 64) (f y) (g y) (icon_rows y corner width f result)
      (icon_rows y corner width g result) k (λ x l. h y x (omega arith) l)
      (icon_rows-agree y corner width f g result k (λ z x l m. h z x (omega arith) m))

module _ (p q : ℕ → ℕ) (count : ℕ) (agree : (k : ℕ) → k < count → p k ≡ q k) where
  scan-agree :
      (fuel offset : ℕ) (best : Option IconImage)
      → scan p count fuel offset best ≡ scan q count fuel offset best
  unfolding scan
  scan-agree zero offset best = refl
  scan-agree (suc fuel) offset best = elim (Bool-cases (ltb offset count)) [
    | inr past ↦ rw past
    | inl more ↦ elim (Bool-cases (ltb (count - offset) 2)) [
      | inl short ↦ rw (more, short)
      | inr long ↦
          let here = agree offset (ground arith) in
          let next = agree (offset + 1) (ground arith) in
          let image = header_at q offset in
          rw
            (more, long, here, next, scan-agree fuel (after_image image) (some (better best image)))
    ]
  ]

  draw-agree :
      (i : IconImage) (result : ℕ → ℕ) (k : ℕ)
      → IsInside count i
      → count ≤ 1024 * 1024
      → draw_icon p i result k ≡ draw_icon q i result k
  unfolding draw_icon fitted_width fitted_height
  draw-agree i result k v c =
      icon_rows-agree (fitted_height i) _ (fitted_width i) _ _ result k
        (λ y x hy hx. agree _ (source_inside count y x i v c hy hx))

  drawn-agree :
      (s : Scan) (result : ℕ → ℕ) (k j : ℕ)
      → ((i : IconImage) → s ≡ chosen (some i) → IsInside count i)
      → count ≤ 1024 * 1024
      → icon_pixels ≤ j
      → ((drawn p result s).0 ≡ (drawn q result s).0)
        × ((drawn p result s).1 k ≡ (drawn q result s).1 k)
        × ((drawn p result s).1 j ≡ result j)
  drawn-agree refused result k j v c far = (refl, refl, refl)
  drawn-agree out_of_fuel result k j v c far = (refl, refl, refl)
  drawn-agree (chosen none) result k j v c far = (refl, refl, refl)
  drawn-agree (chosen (some i)) result k j v c far =
      let inside = v i refl in
      let ((w1, w2), (h1, h2)) = fitted_sides count i inside in
      (
        refl,
        draw-agree i result k inside c,
        (draw_icon-inside p result count 0 0 j i inside c (omega arith) (omega arith) far).4,
      )

cleared_past : (result : ℕ → ℕ) (j : ℕ) → icon_pixels ≤ j → cleared result j ≡ result j
cleared_past result j h = ground arith

-- Fitting an icon reads only the first `count` words of the property, whatever these are: with other
-- memory behind them it returns the same and writes the same pixels. It writes nothing past the 64 by
-- 64 pixels of the icon.
pub window_icon-inside :
    (p q : ℕ → ℕ) (count : ℕ) (result : ℕ → ℕ) (k j : ℕ)
    → ((n : ℕ) → n < count → p n ≡ q n)
    → icon_pixels ≤ j
    → ((window_icon (some p) count result).0 ≡ (window_icon (some q) count result).0)
      × ((window_icon (some p) count result).1 k ≡ (window_icon (some q) count result).1 k)
      × ((window_icon (some p) count result).1 j ≡ result j)
unfolding window_icon
window_icon-inside p q count result k j agree far = elim (Bool-cases (ltb (1024 * 1024) count)) [
  | inl long ↦ rw long (refl, refl, cleared_past result j far)
  | inr fits ↦
      let (same, pixels, past) =
        drawn-agree p q count agree (scan q count count 0 none) (cleared result) k j
          (λ i e. scan-ForBest (IsInside count) q count count 0 none i (λ c v. v) tt e)
          (ground arith) far in
      rw (fits, scan-agree p q count agree count 0 none)
        (same, pixels, past ∙ cleared_past result j far)
]
