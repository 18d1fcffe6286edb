-- ===== src/Window/Placement.antt =====
-- One axis of window placement: window_placement.h under lorie/src/main/cpp/lorie. Coordinates
-- are integers; the C code computes them in `int`, and the bounds show that nothing overflows.
use magicdesk_x.Prelude.{
  ℕ, ◌-◌, ◌*◌, ◌/◌, ◌≤◌, ◌≡◌, refl, inl, inr, Bool, false, not, ◌&&◌, ◌||◌, Option, none, some,
  List, arith, ◌==◌, if◌then◌else◌, length, get_or,
}
use magicdesk_x.Prelude.Int.{
  ℤ, pos, pos_part, neg_part, ◌+ℤ◌, ◌-ℤ◌, ◌≤ℤ◌, ◌<ℤ◌, ltb_ℤ, lt_ℤ-cases, int_laws, neg_part_of_le,
  negative_part,
}
use magicdesk_x.Prelude.Bits.{has_bit}

-- `lorieWindowPositionSpecified`: `none` is a null pointer, and `beyond` stands for whatever a read
-- past the end of the array would give.
unfoldable pub position_specified : ℕ → Option (List ℕ) → Bool
position_specified beyond none = false
position_specified beyond (some hints) =
    not (length hints == 0)
    && (has_bit (get_or hints 0 beyond) 0 || has_bit (get_or hints 0 beyond) 2)

-- `(available - extent) / 2` of C, taken only where the difference is positive.
unfoldable pub center_transient_axis : ℤ → ℤ → ℤ → ℤ
center_transient_axis extent origin available =
    origin +ℤ (if ltb_ℤ extent available then pos (pos_part (available -ℤ extent) / 2) else pos 0)

-- The upper end of the positions at which content of that extent stays inside.
abbrev pub last_position : ℤ → ℤ → ℤ → ℤ
last_position extent origin available =
    origin +ℤ (if ltb_ℤ extent available then available -ℤ extent else pos 0)

unfoldable pub place_transient_axis : ℤ → ℤ → ℤ → ℤ → ℤ
place_transient_axis position extent origin available =
    let last = last_position extent origin available in
    if ltb_ℤ position origin then origin else if ltb_ℤ last position then last else position

abbrev clamp_normalized : ℤ → ℤ
clamp_normalized normalized =
    if ltb_ℤ normalized (pos 0)
    then pos 0
    else if ltb_ℤ (pos 10000) normalized
    then pos 10000
    else normalized

unfoldable pub output_axis : ℤ → ℤ → ℤ → ℤ
output_axis normalized origin extent =
    let value = pos_part (clamp_normalized normalized) in
    origin +ℤ pos (value * (if ltb_ℤ (pos 0) extent then pos_part extent - 1 else 0) / 10000)

-- What the limiting step returns: the position, moved by no more than needed into the range.
clamped :
    (position low high : ℤ)
    → low ≤ℤ high
    → let r = if ltb_ℤ position low then low else if ltb_ℤ high position then high else position in
      (low ≤ℤ r) × (r ≤ℤ high) × (low ≤ℤ position → position ≤ℤ high → r ≡ position)
clamped position low high h = elim (lt_ℤ-cases position low) [
  | inl (e, p) ↦ rw e (omega arith, omega arith, λ q _. absurd (omega arith))
  | inr (e, p) ↦ rw e (elim (lt_ℤ-cases high position) [
    | inl (e', q) ↦ rw e' (omega arith, omega arith, λ _ r. absurd (omega arith))
    | inr (e', q) ↦ rw e' (omega arith, omega arith, λ _ _. refl)
  ])
]

last_position_of_fit :
    (extent origin available : ℤ)
    → extent ≤ℤ available
    → last_position extent origin available ≡ origin +ℤ (available -ℤ extent)
last_position_of_fit extent origin available h = elim (lt_ℤ-cases extent available) [
  | inl (e, p) ↦ rw e
  | inr (e, p) ↦ rw e (omega int_laws)
]

-- Content that fits is placed wholly inside the owner whatever position was asked for, and stays
-- where it was asked for when that position is already inside.
place_transient_axis-inside :
    (position extent origin available : ℤ)
    → extent ≤ℤ available
    → let r = place_transient_axis position extent origin available in
      (origin ≤ℤ r)
      × (r +ℤ extent ≤ℤ origin +ℤ available)
      × (origin ≤ℤ position → position +ℤ extent ≤ℤ origin +ℤ available → r ≡ position)
unfolding place_transient_axis
place_transient_axis-inside position extent origin available h =
    let last = origin +ℤ (available -ℤ extent) in
    let c = clamped position origin last (omega int_laws) in
    rw (last_position_of_fit extent origin available h)
      (c.0, omega (int_laws, c.1), λ p q. c.2 p (omega int_laws))

-- Centring splits the free space evenly: the margins on the two sides differ by at most one, with
-- the larger one after the content. Content that does not fit starts at the owner's origin.
center_transient_axis-even :
    (extent origin available : ℤ)
    → let r = center_transient_axis extent origin available in
      (extent ≤ℤ available
        → (r -ℤ origin ≤ℤ (origin +ℤ available) -ℤ (r +ℤ extent))
          × ((origin +ℤ available) -ℤ (r +ℤ extent) ≤ℤ (r -ℤ origin) +ℤ pos 1))
      × (available ≤ℤ extent → r ≡ origin)
unfolding center_transient_axis
center_transient_axis-even extent origin available = elim (lt_ℤ-cases extent available) [
  | inl (e, p) ↦
      let one_part = neg_part_of_le available extent (omega arith) in
      rw e
        (λ _. (omega (int_laws, one_part), omega (int_laws, one_part)), λ q. absurd (omega arith))
  | inr (e, p) ↦ rw e (λ q. (omega int_laws, omega int_laws), λ _. omega int_laws)
]

scaled-le : (v m : ℕ) → v ≤ 10000 → v * m / 10000 ≤ m
scaled-le v m h = let bound : v * m ≤ 10000 * m = grind arith in omega arith

clamp_normalized_range :
    (n : ℤ)
    → (pos_part (clamp_normalized n) ≤ 10000)
      × (n ≤ℤ pos 0 → pos_part (clamp_normalized n) ≡ 0)
      × (pos 10000 ≤ℤ n → pos_part (clamp_normalized n) ≡ 10000)
clamp_normalized_range n = ground arith

-- A normalised coordinate between 0 and 10000 lands on the owner's pixels: 0 on the first, 10000 on
-- the last, never outside, and anything beyond either end is held to that end.
output_axis-inside :
    (normalized origin extent : ℤ)
    → pos 0 <ℤ extent
    → let r = output_axis normalized origin extent in
      (origin ≤ℤ r)
      × (r <ℤ origin +ℤ extent)
      × (normalized ≤ℤ pos 0 → r ≡ origin)
      × (pos 10000 ≤ℤ normalized → r ≡ origin +ℤ extent -ℤ pos 1)
unfolding output_axis
output_axis-inside normalized origin extent h = elim (lt_ℤ-cases (pos 0) extent) [
  | inl (e, p) ↦
      let v = pos_part (clamp_normalized normalized) in
      let (bound, low, high) = clamp_normalized_range normalized in
      let one_part : neg_part extent ≡ 0 = negative_part extent p in
      let scaled = scaled-le v (pos_part extent - 1) bound in
      rw e (
        omega int_laws,
        omega (int_laws, scaled, one_part),
        λ q. rw (low q) (omega int_laws),
        λ q. rw (high q) (omega (int_laws, one_part)),
      )
  | inr (e, p) ↦ absurd (omega arith)
]
