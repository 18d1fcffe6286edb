-- ===== src/Icon/Choice.antt =====
-- The loop of window_icon.h over the images of a property: it ends, and chooses the best image.
use magicdesk_x.Prelude.{
  ℕ, zero, suc, ◌+◌, ◌-◌, ◌*◌, ◌/◌, ◌≤◌, ◌<◌, ◌≡◌, sym, ap, ◌∙◌, ◌≢◌, ◌⊎◌, inl, inr, Bool, true,
  false, not, ◌&&◌, ◌||◌, Option, none, some, arith, ltb, leb, if◌then◌else◌, Bool-cases,
}
use mathlib.Core.Path.{subst}
use magicdesk_x.Icon.{
  icon_size, IconImage, side, Scan, refused, out_of_fuel, chosen, header_at, after_image, better,
  image_fits, scan,
}

-- The image has an area and lies in the words that may be read.
pub record IsInside (count : ℕ) (i : IconImage) : Type 0 where
  pub wide : 0 < i.width
  pub tall : 0 < i.height
  pub ends : after_image i ≤ count

quotient_times : (w h n : ℕ) → 0 < h → w ≤ n / h → w * h ≤ n
quotient_times w h n p q = grind arith

fits-IsInside :
    (count : ℕ) (i : IconImage) → i.start ≤ count → image_fits count i ≡ true → IsInside count i
fits-IsInside count i h e =
    let wide : 0 < i.width = ground arith in
    let tall : 0 < i.height = ground arith in
    let within : i.width ≤ (count - i.start) / i.height = ground arith in
    record {
      wide = wide;
      tall = tall;
      ends = omega (arith, quotient_times i.width i.height (count - i.start) tall within);
    }

-- A turn of the loop: the end, a refusal, or an image inside of the property and the rest.
scan-cases :
    (words : ℕ → ℕ) (count fuel offset : ℕ) (best : Option IconImage)
    → let image = header_at words offset in
      (count ≤ offset × (scan words count (suc fuel) offset best ≡ chosen best))
      ⊎ ((scan words count (suc fuel) offset best ≡ refused)
          ⊎ (IsInside count image
              × (scan words count (suc fuel) offset best
                  ≡ scan words count fuel (after_image image) (some (better best image)))))
unfolding scan
scan-cases words count fuel offset best =
    let image = header_at words offset in
    elim (Bool-cases (ltb offset count)) [
      | inr past ↦ inl (ground arith, rw past)
      | inl more ↦ inr (elim (Bool-cases (ltb (count - offset) 2 || not (image_fits count image))) [
        | inl bad ↦ inl (rw (more, bad))
        | inr good ↦ inr (fits-IsInside count image (ground arith) (ground arith), rw (more, good))
      ])
    ]

scan_zero :
    (words : ℕ → ℕ) (count offset : ℕ) (best : Option IconImage)
    → (count ≤ offset × (scan words count 0 offset best ≡ chosen best))
      ⊎ (offset < count × (scan words count 0 offset best ≡ out_of_fuel))
unfolding scan
scan_zero words count offset best = elim (Bool-cases (ltb offset count)) [
  | inr past ↦ inl (ground arith, rw past)
  | inl more ↦ inr (ground arith, rw more)
]

-- With as much fuel as there are words left the loop over the images ends by itself.
scan-ends :
    (words : ℕ → ℕ) (count fuel offset : ℕ) (best : Option IconImage)
    → count ≤ offset + fuel
    → scan words count fuel offset best ≢ out_of_fuel
scan-ends words count zero offset best h = elim (scan_zero words count offset best) [
  | inl (past, e) ↦ λ q. absurd cc
  | inr (more, e) ↦ absurd (omega arith)
]
scan-ends words count (suc fuel) offset best h = elim (scan-cases words count fuel offset best) [
  | inl (past, e) ↦ λ q. absurd cc
  | inr (inl e) ↦ λ q. absurd cc
  | inr (inr (inside, e)) ↦ λ q.
      scan-ends words count fuel (after_image (header_at words offset))
        (some (better best (header_at words offset))) (omega arith) (sym e ∙ q)
]

-- What is said of an image holds of the best image so far, where there is one.
abbrev pub ForBest : (IconImage → Type 0) → Option IconImage → Type 0
ForBest P none = Unit
ForBest P (some i) = P i

better-ForBest :
    (P : IconImage → Type 0) (best : Option IconImage) (new : IconImage)
    → ForBest P best
    → P new
    → P (better best new)
better-ForBest P none new b n = n
better-ForBest P (some best) new b n =
    elim (Bool-cases (
      (ltb (side best) icon_size && ltb (side best) (side new))
      || (leb icon_size (side new) && ltb (side new) (side best)))) [
        | inl e ↦ rw e n
        | inr e ↦ rw e b
      ]

abbrev best_of : Scan → Option IconImage
best_of (chosen best) = best
best_of _ = none

ForBest-chosen :
    (P : IconImage → Type 0) (best : Option IconImage) (i : IconImage)
    → ForBest P best
    → chosen best ≡ chosen (some i)
    → P i
ForBest-chosen P best i b h = subst (λ c. ForBest P c) (ap best_of h) b

-- What holds of the images inside of the property holds of the chosen one.
pub scan-ForBest :
    (P : IconImage → Type 0) (words : ℕ → ℕ) (count fuel offset : ℕ) (best : Option IconImage)
    (i : IconImage)
    → ((c : IconImage) → IsInside count c → P c)
    → ForBest P best
    → scan words count fuel offset best ≡ chosen (some i)
    → P i
scan-ForBest P words count zero offset best i all b h = elim (scan_zero words count offset best) [
  | inl (past, e) ↦ ForBest-chosen P best i b (sym e ∙ h)
  | inr (more, e) ↦ absurd cc
]
scan-ForBest P words count (suc fuel) offset best i all b h =
    let image = header_at words offset in
    elim (scan-cases words count fuel offset best) [
      | inl (past, e) ↦ ForBest-chosen P best i b (sym e ∙ h)
      | inr (inl e) ↦ absurd cc
      | inr (inr (inside, e)) ↦
          scan-ForBest P words count fuel (after_image image) (some (better best image)) i all
            (better-ForBest P best image b (all image inside)) (sym e ∙ h)
    ]

-- One longest side is at least as good as another: the smallest of those that are large enough for
-- the icon, or else the largest.
abbrev pub preferred : ℕ → ℕ → Bool
preferred a b = if leb icon_size a then ltb b icon_size || leb a b else leb b a

preferred_refl : (a : ℕ) → preferred a a ≡ true
preferred_refl a = ground arith

preferred_trans : (a b c : ℕ) → preferred a b ≡ true → preferred b c ≡ true → preferred a c ≡ true
preferred_trans a b c p q = ground arith

takes_new : ℕ → ℕ → Bool
takes_new best new = (ltb best icon_size && ltb best new) || (leb icon_size new && ltb new best)

takes_new-preferred :
    (best new : ℕ)
    → (takes_new best new ≡ true → preferred new best ≡ true)
      × (takes_new best new ≡ false → preferred best new ≡ true)
unfolding takes_new
takes_new-preferred best new = (λ h. ground arith, λ h. ground arith)

-- The better of two is at least as good as both.
better-preferred :
    (best new : IconImage)
    → preferred (side (better (some best) new)) (side best) ≡ true
      × preferred (side (better (some best) new)) (side new) ≡ true
unfolding takes_new
better-preferred best new = elim (Bool-cases (takes_new (side best) (side new))) [
  | inl e ↦ rw e ((takes_new-preferred (side best) (side new)).0 e, preferred_refl (side new))
  | inr e ↦ rw e (preferred_refl (side best), (takes_new-preferred (side best) (side new)).1 e)
]

better_new :
    (best : Option IconImage) (new : IconImage)
    → preferred (side (better best new)) (side new) ≡ true
better_new none new = preferred_refl (side new)
better_new (some best) new = (better-preferred best new).1

-- The images from one offset on: each begins where the one before it ends.
pub data From (words : ℕ → ℕ) : ℕ → ℕ → Type 0 where
  here : (o : ℕ) → From words o o
  later : (o p : ℕ) → From words (after_image (header_at words o)) p → From words o p

scan_prefers_best :
    (words : ℕ → ℕ) (count fuel offset : ℕ) (best i : IconImage)
    → scan words count fuel offset (some best) ≡ chosen (some i)
    → preferred (side i) (side best) ≡ true
scan_prefers_best words count zero offset best i h =
    elim (scan_zero words count offset (some best)) [
      | inl (past, e) ↦
          ForBest-chosen (λ c. preferred (side c) (side best) ≡ true) (some best) i
            (preferred_refl (side best)) (sym e ∙ h)
      | inr (more, e) ↦ absurd cc
    ]
scan_prefers_best words count (suc fuel) offset best i h =
    let image = header_at words offset in
    elim (scan-cases words count fuel offset (some best)) [
      | inl (past, e) ↦
          ForBest-chosen (λ c. preferred (side c) (side best) ≡ true) (some best) i
            (preferred_refl (side best)) (sym e ∙ h)
      | inr (inl e) ↦ absurd cc
      | inr (inr (inside, e)) ↦
          preferred_trans (side i) (side (better (some best) image)) (side best)
            (scan_prefers_best words count fuel (after_image image) (better (some best) image) i
              (sym e ∙ h))
            (better-preferred best image).0
    ]

From-le : (words : ℕ → ℕ) (o p : ℕ) → From words o p → o ≤ p
From-le words _ _ (here o) = omega arith
From-le words _ _ (later o p f) =
    let far = From-le words (after_image (header_at words o)) p f in omega arith

-- Of the images that begin before the end, none is better than the chosen one.
scan_prefers :
    (words : ℕ → ℕ) (count fuel offset p : ℕ) (best : Option IconImage) (i : IconImage)
    → From words offset p
    → p < count
    → scan words count fuel offset best ≡ chosen (some i)
    → preferred (side i) (side (header_at words p)) ≡ true
scan_prefers words count zero offset p best i f l h =
    let far = From-le words offset p f in
    elim (scan_zero words count offset best) [
      | inl (past, e) ↦ absurd (omega arith)
      | inr (more, e) ↦ absurd cc
    ]
scan_prefers words count (suc fuel) _ _ best i (here o) l h =
    let image = header_at words o in
    elim (scan-cases words count fuel o best) [
      | inl (past, e) ↦ absurd (omega arith)
      | inr (inl e) ↦ absurd cc
      | inr (inr (inside, e)) ↦
          preferred_trans (side i) (side (better best image)) (side image)
            (scan_prefers_best words count fuel (after_image image) (better best image) i
              (sym e ∙ h))
            (better_new best image)
    ]
scan_prefers words count (suc fuel) _ _ best i (later o p f) l h =
    let image = header_at words o in
    let far = From-le words (after_image image) p f in
    elim (scan-cases words count fuel o best) [
      | inl (past, e) ↦ absurd (omega arith)
      | inr (inl e) ↦ absurd cc
      | inr (inr (inside, e)) ↦
          scan_prefers words count fuel (after_image image) p (some (better best image)) i f l
            (sym e ∙ h)
    ]

-- An image that the loop over a property chooses has an area, lies inside of the words that may be
-- read, and is at least as good an icon as every image of the property that begins before the end.
pub scan-chooses :
    (words : ℕ → ℕ) (count p : ℕ) (i : IconImage)
    → From words 0 p
    → p < count
    → scan words count count 0 none ≡ chosen (some i)
    → IsInside count i × preferred (side i) (side (header_at words p)) ≡ true
scan-chooses words count p i f l h = (
  scan-ForBest (IsInside count) words count count 0 none i (λ c v. v) tt h,
  scan_prefers words count count 0 p none i f l h,
)
