-- ===== src/Window/Size/Reads.antt =====
-- window_size.h reads inside the array of hints only: its results do not depend on `beyond`.
use magicdesk_x.Prelude.{
  ℕ, ◌+◌, ◌≤◌, ◌<◌, ◌≡◌, refl, inl, inr, Option, none, some, List, [], ◌∷◌, arith, if◌then◌else◌,
  Bool-cases, get_or, get_or-default,
}
use magicdesk_x.Prelude.Int.{ℤ, pos}
use magicdesk_x.Window.Size.{
  WindowConstraints, AxisRules, declares, declared_minimum, declared_maximum, size_axis, axis_rules,
  size_hints, plain_constraints, with_rules, aspect_declared, increment_of,
}

module _ (d e : ℕ) (hints : List ℕ) where
  declares-inside :
      (words flag : ℕ) → 1 ≤ words → declares d hints words flag ≡ declares e hints words flag
  declares-inside words flag h = ground (arith, get_or-default hints 0 d e)

  minimum-inside :
      (axis : ℕ) → axis < 2 → declared_minimum d hints axis ≡ declared_minimum e hints axis
  unfolding declared_minimum
  minimum-inside axis h =
      ground (arith, get_or-default hints 0 d e, get_or-default hints (5 + axis) d e)

  maximum-inside :
      (axis : ℕ) → axis < 2 → declared_maximum d hints axis ≡ declared_maximum e hints axis
  unfolding declared_maximum
  maximum-inside axis h =
      ground (arith, get_or-default hints 0 d e, get_or-default hints (7 + axis) d e)

  increment-inside : (axis : ℕ) → axis < 2 → increment_of d hints axis ≡ increment_of e hints axis
  increment-inside axis h =
      ground (arith, get_or-default hints 0 d e, get_or-default hints (9 + axis) d e)

  axis_rules-inside :
      (axis minimum maximum : ℕ)
      → axis < 2
      → axis_rules d hints axis minimum maximum ≡ axis_rules e hints axis minimum maximum
  unfolding axis_rules
  axis_rules-inside axis minimum maximum h = ground (
    arith,
    get_or-default hints 0 d e,
    get_or-default hints (15 + axis) d e,
    increment-inside axis h,
  )

  aspect-inside : aspect_declared d hints ≡ aspect_declared e hints
  aspect-inside = ground (
    arith,
    get_or-default hints 0 d e,
    get_or-default hints 11 d e,
    get_or-default hints 12 d e,
    get_or-default hints 13 d e,
    get_or-default hints 14 d e,
  )

  aspect_reads-inside :
      (i : ℕ)
      → i < 15
      → (if aspect_declared d hints then get_or hints i d else 0)
        ≡ (if aspect_declared e hints then get_or hints i e else 0)
  aspect_reads-inside i h = rw aspect-inside (elim (Bool-cases (aspect_declared e hints)) [
    | inl yes' ↦ rw yes' (get_or-default hints i d e (ground arith))
    | inr no' ↦ rw no'
  ])

  with_rules-inside :
      (wide high : AxisRules) (plain : WindowConstraints)
      → with_rules d hints wide high plain ≡ with_rules e hints wide high plain
  with_rules-inside wide high plain = rw (
    aspect_reads-inside 11 (omega arith),
    aspect_reads-inside 12 (omega arith),
    aspect_reads-inside 13 (omega arith),
    aspect_reads-inside 14 (omega arith),
  )

-- The size granted on an axis depends on the words of the property only: with the guards on `count`
-- no word past the end of the array is read on either axis.
pub size_axis-inside :
    (d e : ℕ) (requested : ℤ) (hints : Option (List ℕ)) (axis : ℕ)
    → axis < 2
    → size_axis d requested hints axis ≡ size_axis e requested hints axis
unfolding size_axis
size_axis-inside d e requested none axis h = refl
size_axis-inside d e requested (some hints) axis h =
    rw (minimum-inside d e hints axis h, maximum-inside d e hints axis h)

plain-inside :
    (d e : ℕ) (hints : Option (List ℕ)) → plain_constraints d hints ≡ plain_constraints e hints
plain-inside d e hints = rw (
  size_axis-inside d e (pos 1) hints 0 (omega arith),
  size_axis-inside d e (pos 1) hints 1 (omega arith),
  size_axis-inside d e (pos 2147483647) hints 0 (omega arith),
  size_axis-inside d e (pos 2147483647) hints 1 (omega arith),
)

-- The whole set of constraints is computed without a read past the end of the array, however short
-- the client made it.
pub size_hints-inside :
    (d e : ℕ) (hints : Option (List ℕ)) → size_hints d hints ≡ size_hints e hints
unfolding size_hints
size_hints-inside d e none = plain-inside d e none
size_hints-inside d e (some []) = plain-inside d e (some [])
size_hints-inside d e (some (flags ∷ words)) =
    let hints = flags ∷ words in
    let plain = plain_constraints e (some hints) in
    rw
      (
        size_axis-inside d e (pos 1) (some hints) 0 (omega arith),
        size_axis-inside d e (pos 1) (some hints) 1 (omega arith),
        size_axis-inside d e (pos 2147483647) (some hints) 0 (omega arith),
        size_axis-inside d e (pos 2147483647) (some hints) 1 (omega arith),
        axis_rules-inside d e hints 0 plain.min_width plain.max_width (omega arith),
        axis_rules-inside d e hints 1 plain.min_height plain.max_height (omega arith),
      )
      (with_rules-inside d e hints _ _ plain)
