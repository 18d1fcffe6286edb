-- ===== src/Family.antt =====
-- Whether a window belongs to the family of another: lorieWindowFamilyContains of window_family.h
-- under lorie/src/main/cpp/lorie. The window tree of the X server and the transient links of the
-- clients are functions; a link may lead anywhere, also in a circle.
pub mod Laws
pub mod Activation
mod Tests
use magicdesk_x.Prelude.{
  ℕ, zero, suc, ◌+◌, ◌-◌, ◌*◌, ◌/◌, ◌%◌, ◌^◌, ◌≤◌, ◌<◌, min, max, ◌≡◌, refl, sym, ap, ◌∙◌, ◌≢◌, ◌↔◌,
  ◌⊎◌, inl, inr, Bool, true, false, not, ◌&&◌, ◌||◌, Option, none, some, List, [], ◌∷◌, ◌++◌, map,
  arith, ltb, leb, ◌==◌, if◌then◌else◌, ltb→lt, lt→ltb, leb→le, ==_iff, tests, Bool-cases,
  Option-cases, length, get_elem?, get_or, set, replicate, length-append, length-set,
  get_or-default, get_or-set_self, get_or-set_ne, All,
}
use magicdesk_x.Prelude.Int.{
  ℤ, pos, negsuc, pos_part, neg_part, sub_ℕ, ◌+ℤ◌, ◌-ℤ◌, ◌≤ℤ◌, ◌<ℤ◌, ltb_ℤ, leb_ℤ, eqb_ℤ, max_ℤ,
  min_ℤ, lt_ℤ-cases, int_laws, neg_part_of_le, negative_part, no_negative_part, +ℤ_parts, -ℤ_parts,
  eq_of_parts,
}
use magicdesk_x.Prelude.Bits.{has_bit, set_bit, clear_bit}

-- How the inner loop ends: two returns, or its end with what remains and the transient link.
pub data Walk : Type 0 where
  found exhausted : Walk
  finished : ℕ → Option ℕ → Walk

abbrev pub first_some : Option ℕ → Option ℕ → Option ℕ
first_some none b = b
first_some (some a) b = some a

module _ (parent transient_for : ℕ → Option ℕ) (root owner : ℕ) where
  -- The inner loop, over the ancestors.
  unfoldable pub walk : ℕ → Option ℕ → Option ℕ → Walk
  walk remaining none transient = finished remaining transient
  walk zero (some ancestor) transient = if ancestor == root then finished 0 transient else exhausted
  walk (suc remaining) (some ancestor) transient =
      let rest = walk remaining (parent ancestor) (first_some transient (transient_for ancestor)) in
      if ancestor == root
      then finished (suc remaining) transient
      else if ancestor == owner
      then found
      else rest

  -- The outer loop, with fuel: `none` if it runs out of it.
  unfoldable pub search : ℕ → ℕ → Option ℕ → Option Bool
  unfolding walk
  search fuel remaining none = some false
  search zero remaining (some window) = if window == root then some false else none
  search (suc fuel) remaining (some window) =
      if window == root then some false else elim (walk remaining (some window) none) [
        | found ↦ some true
        | exhausted ↦ some false
        | finished left transient ↦ search fuel left transient
      ]

  -- `lorieWindowFamilyContains`.
  unfoldable pub family_contains : Option ℕ → Option Bool
  unfolding search
  family_contains window = search 65 64 window
