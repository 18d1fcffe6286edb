-- ===== src/Window/Size/Laws.antt =====
-- What the constraints of window_size.h guarantee to the host.
use magicdesk_x.Prelude.{
  ℕ, ◌*◌, ◌≤◌, ◌<◌, ◌≡◌, refl, ◌⊎◌, inl, inr, Option, none, some, List, [], ◌∷◌, arith, ltb,
  Bool-cases,
}
use magicdesk_x.Prelude.Int.{ℤ, pos, ◌≤ℤ◌}
use magicdesk_x.Window.Size.{
  size_limit, int32_max, ResizeRules, WindowConstraints, AxisRules, declared_minimum,
  declared_maximum, limit, settle, size_axis, axis_rules, size_hints, plain_constraints, with_rules,
  aspect_declared,
}

settle_range :
    (minimum maximum : ℕ) (requested : ℤ)
    → 1 ≤ minimum
    → minimum ≤ size_limit
    → maximum ≤ size_limit
    → (1 ≤ settle minimum maximum requested) × (settle minimum maximum requested ≤ size_limit)
settle_range minimum maximum requested a b c = ground arith

declared_minimum_range :
    (beyond : ℕ) (hints : List ℕ) (axis : ℕ)
    → (1 ≤ declared_minimum beyond hints axis) × (declared_minimum beyond hints axis ≤ size_limit)
unfolding declared_minimum
declared_minimum_range beyond hints axis = ground arith

declared_maximum_range :
    (beyond : ℕ) (hints : List ℕ) (axis : ℕ)
    → (1 ≤ declared_maximum beyond hints axis) × (declared_maximum beyond hints axis ≤ size_limit)
unfolding declared_maximum
declared_maximum_range beyond hints axis = ground arith

limit_stable :
    (minimum maximum : ℕ) (requested : ℤ)
    → minimum ≤ maximum
    → limit minimum maximum (pos (limit minimum maximum requested))
      ≡ limit minimum maximum requested
limit_stable minimum maximum requested h = ground arith

limit_mono :
    (minimum maximum : ℕ) (r s : ℤ)
    → minimum ≤ maximum
    → r ≤ℤ s
    → limit minimum maximum r ≤ limit minimum maximum s
limit_mono minimum maximum r s h l = ground arith

settle_stable :
    (minimum maximum : ℕ) (requested : ℤ)
    → settle minimum maximum (pos (settle minimum maximum requested))
      ≡ settle minimum maximum requested
settle_stable minimum maximum requested = elim (Bool-cases (ltb maximum minimum)) [
  | inl e ↦ rw e (limit_stable 1 size_limit requested (omega arith))
  | inr e ↦ rw e (limit_stable minimum maximum requested (ground arith))
]

settle_mono :
    (minimum maximum : ℕ) (r s : ℤ) → r ≤ℤ s → settle minimum maximum r ≤ settle minimum maximum s
settle_mono minimum maximum r s l = elim (Bool-cases (ltb maximum minimum)) [
  | inl e ↦ rw e (limit_mono 1 size_limit r s (omega arith) l)
  | inr e ↦ rw e (limit_mono minimum maximum r s (ground arith) l)
]

-- The size granted on an axis is between 1 and the limit, whatever the client declares, and asking
-- again for the granted size grants it unchanged, so that no resize feedback loop arises.
pub size_axis-stable :
    (beyond : ℕ) (requested : ℤ) (hints : Option (List ℕ)) (axis : ℕ)
    → let granted = size_axis beyond requested hints axis in
      (1 ≤ granted) × (granted ≤ size_limit) × (size_axis beyond (pos granted) hints axis ≡ granted)
unfolding size_axis
size_axis-stable beyond requested none axis =
    let (a, b) = settle_range 1 size_limit requested (omega arith) (omega arith) (omega arith) in
    (a, b, settle_stable 1 size_limit requested)
size_axis-stable beyond requested (some hints) axis =
    let low = declared_minimum beyond hints axis in
    let high = declared_maximum beyond hints axis in
    let (a, b) = declared_minimum_range beyond hints axis in
    let (c, d) = declared_maximum_range beyond hints axis in
    let (e, f) = settle_range low high requested a b d in (e, f, settle_stable low high requested)

-- A larger request is never granted a smaller size.
size_axis_mono :
    (beyond : ℕ) (r s : ℤ) (hints : Option (List ℕ)) (axis : ℕ)
    → r ≤ℤ s
    → size_axis beyond r hints axis ≤ size_axis beyond s hints axis
unfolding size_axis
size_axis_mono beyond r s none axis h = settle_mono 1 size_limit r s h
size_axis_mono beyond r s (some hints) axis h =
    settle_mono (declared_minimum beyond hints axis) (declared_maximum beyond hints axis) r s h

axis_range :
    (beyond : ℕ) (hints : Option (List ℕ)) (axis : ℕ)
    → (1 ≤ size_axis beyond (pos 1) hints axis)
      × (size_axis beyond (pos 1) hints axis ≤ size_axis beyond (pos int32_max) hints axis)
      × (size_axis beyond (pos int32_max) hints axis ≤ size_limit)
axis_range beyond hints axis = (
  (size_axis-stable beyond (pos 1) hints axis).0,
  size_axis_mono beyond (pos 1) (pos int32_max) hints axis (omega arith),
  (size_axis-stable beyond (pos int32_max) hints axis).1,
)

-- What one axis of the published constraints satisfies.
abbrev pub AxisIsSane : ℕ → ℕ → ℕ → ℕ → ℕ → Type 0
AxisIsSane minimum maximum base increment aspect_base =
    (1 ≤ minimum)
    × (minimum ≤ maximum)
    × (maximum ≤ size_limit)
    × (base ≤ size_limit)
    × (1 ≤ increment)
    × (increment ≤ size_limit)
    × (aspect_base ≤ size_limit)

axis_rules-sane :
    (beyond : ℕ) (hints : List ℕ) (axis minimum maximum : ℕ)
    → 1 ≤ minimum
    → minimum ≤ maximum
    → maximum ≤ size_limit
    → let r = axis_rules beyond hints axis minimum maximum in
      AxisIsSane r.minimum maximum r.base r.increment r.aspect_base
unfolding axis_rules
axis_rules-sane beyond hints axis minimum maximum a b c = ground arith

abbrev pub AspectIsSane : ResizeRules → Type 0
AspectIsSane r =
    ((r.min_aspect_x ≡ 0) × (r.min_aspect_y ≡ 0) × (r.max_aspect_x ≡ 0) × (r.max_aspect_y ≡ 0))
    ⊎ ((0 < r.min_aspect_x)
        × (0 < r.min_aspect_y)
        × (0 < r.max_aspect_x)
        × (0 < r.max_aspect_y)
        × (r.min_aspect_x * r.max_aspect_y ≤ r.max_aspect_x * r.min_aspect_y))

aspect_sane :
    (beyond : ℕ) (hints : List ℕ) (wide high : AxisRules) (plain : WindowConstraints)
    → AspectIsSane (with_rules beyond hints wide high plain).resize
aspect_sane beyond hints wide high plain = elim (Bool-cases (aspect_declared beyond hints)) [
  | inl e ↦ rw e (inr (ground arith))
  | inr e ↦ rw e (inl (refl, refl, refl, refl))
]

-- What holds of the constraints whatever the property is: sizes within the limit, and no aspect range or
-- a proper one.
abbrev pub SizesAreSane : WindowConstraints → Type 0
SizesAreSane c =
    (1 ≤ c.min_width)
    × (c.min_width ≤ c.max_width)
    × (c.max_width ≤ size_limit)
    × (1 ≤ c.min_height)
    × (c.min_height ≤ c.max_height)
    × (c.max_height ≤ size_limit)

-- No rule at all: every number is 0.
abbrev pub HasNoRules : ResizeRules → Type 0
HasNoRules r =
    (r.base_width ≡ 0)
    × (r.base_height ≡ 0)
    × (r.width_increment ≡ 0)
    × (r.height_increment ≡ 0)
    × (r.min_aspect_x ≡ 0)
    × (r.min_aspect_y ≡ 0)
    × (r.max_aspect_x ≡ 0)
    × (r.max_aspect_y ≡ 0)
    × (r.aspect_base_width ≡ 0)
    × (r.aspect_base_height ≡ 0)

-- Bases within the limit, and increments of at least one pixel.
abbrev pub RulesAreSane : ResizeRules → Type 0
RulesAreSane r =
    (r.base_width ≤ size_limit)
    × (r.base_height ≤ size_limit)
    × (1 ≤ r.width_increment)
    × (r.width_increment ≤ size_limit)
    × (1 ≤ r.height_increment)
    × (r.height_increment ≤ size_limit)
    × (r.aspect_base_width ≤ size_limit)
    × (r.aspect_base_height ≤ size_limit)
    × AspectIsSane r

abbrev pub RulesOf : Option (List ℕ) → ResizeRules → Type 0
RulesOf none r = HasNoRules r
RulesOf (some []) r = HasNoRules r
RulesOf (some (flags ∷ words)) r = RulesAreSane r

plain-sane : (beyond : ℕ) (hints : Option (List ℕ)) → SizesAreSane (plain_constraints beyond hints)
plain-sane beyond hints =
    let (a, b, c) = axis_range beyond hints 0 in
    let (d, e, f) = axis_range beyond hints 1 in (a, b, c, d, e, f)

no_rules_there :
    (beyond : ℕ) (hints : Option (List ℕ)) → HasNoRules (plain_constraints beyond hints).resize
no_rules_there beyond hints = (refl, refl, refl, refl, refl, refl, refl, refl, refl, refl)

-- Whatever a client puts into the property, each axis of the constraints has a nonempty range of sizes
-- within the limit. If the property has words, the base sizes are within the limit, the increments are at
-- least one pixel, and an aspect range is either absent or has positive terms with its minimum at most its
-- maximum; if it has none or is not there, every rule for resizing is 0.
pub size_hints-sane :
    (beyond : ℕ) (hints : Option (List ℕ))
    → SizesAreSane (size_hints beyond hints) × RulesOf hints (size_hints beyond hints).resize
unfolding size_hints
size_hints-sane beyond none = (plain-sane beyond none, no_rules_there beyond none)
size_hints-sane beyond (some []) = (plain-sane beyond (some []), no_rules_there beyond (some []))
size_hints-sane beyond (some (flags ∷ words)) =
    let hints = flags ∷ words in
    let plain = plain_constraints beyond (some hints) in
    let wide = axis_rules beyond hints 0 plain.min_width plain.max_width in
    let high = axis_rules beyond hints 1 plain.min_height plain.max_height in
    let (a, b, c) = axis_range beyond (some hints) 0 in
    let (d, e, f) = axis_range beyond (some hints) 1 in
    let (w1, w2, w3, w4, w5, w6, w7) =
      axis_rules-sane beyond hints 0 plain.min_width plain.max_width a b c in
    let (h1, h2, h3, h4, h5, h6, h7) =
      axis_rules-sane beyond hints 1 plain.min_height plain.max_height d e f in
    (
      (w1, w2, w3, h1, h2, h3),
      (w4, h4, w5, w6, h5, h6, w7, h7, aspect_sane beyond hints wide high plain),
    )
