-- ===== src/Window/Size.antt =====
-- The size limits a client declares in WM_NORMAL_HINTS: window_size.h under
-- lorie/src/main/cpp/lorie. A property's words are a list of CARD32 values; `none` is a null
-- pointer. Every read takes the value `beyond` past the end of the array, so that a result which
-- does not depend on `beyond` reads inside the array only.
pub mod Laws
pub mod Reads
use magicdesk_x.Prelude.{
  ℕ, zero, suc, ◌+◌, ◌-◌, ◌*◌, ◌/◌, ◌%◌, ◌^◌, ◌≤◌, ◌<◌, min, max, ◌≡◌, refl, sym, ap, ◌∙◌, ◌≢◌, ◌↔◌,
  ◌⊎◌, inl, inr, Bool, true, false, not, ◌&&◌, ◌||◌, Option, none, some, List, [], ◌∷◌, [], ◌++◌,
  map, arith, ltb, leb, ◌==◌, if◌then◌else◌, ltb→lt, lt→ltb, leb→le, ==_iff, tests, Bool-cases,
  Option-cases, length, get_elem?, get_or, set, replicate, length-append, length-set,
  get_or-default, get_or-set_self, get_or-set_ne, All,
}
use magicdesk_x.Prelude.Int.{
  ℤ, pos, negsuc, pos_part, neg_part, sub_ℕ, ◌+ℤ◌, ◌-ℤ◌, ◌≤ℤ◌, ◌<ℤ◌, ltb_ℤ, leb_ℤ, eqb_ℤ, max_ℤ,
  min_ℤ, lt_ℤ-cases, int_laws, neg_part_of_le, negative_part, +ℤ_parts, -ℤ_parts, eq_of_parts,
}
use magicdesk_x.Prelude.Bits.{has_bit, set_bit, clear_bit}

abbrev pub size_limit : ℕ
size_limit = 16384

abbrev pub int32_max : ℕ
int32_max = 2147483647

-- `LorieResizeRules`.
pub record ResizeRules : Type 0 where
  pub base_width : ℕ
  pub base_height : ℕ
  pub width_increment : ℕ
  pub height_increment : ℕ
  pub min_aspect_x : ℕ
  pub min_aspect_y : ℕ
  pub max_aspect_x : ℕ
  pub max_aspect_y : ℕ
  pub aspect_base_width : ℕ
  pub aspect_base_height : ℕ

-- `LorieWindowConstraints`.
pub record WindowConstraints : Type 0 where
  pub min_width : ℕ
  pub min_height : ℕ
  pub max_width : ℕ
  pub max_height : ℕ
  pub resize : ResizeRules

-- The flags of the first word, by their bit.
abbrev hint_min_size : ℕ
hint_min_size = 4

abbrev hint_max_size : ℕ
hint_max_size = 5

abbrev hint_resize_inc : ℕ
hint_resize_inc = 6

abbrev hint_aspect : ℕ
hint_aspect = 7

abbrev hint_base_size : ℕ
hint_base_size = 8

-- `count >= words && (hints[0] & flag)`.
abbrev pub declares : ℕ → List ℕ → ℕ → ℕ → Bool
declares beyond hints words flag = leb words (length hints) && has_bit (get_or hints 0 beyond) flag

declared_minimum : ℕ → List ℕ → ℕ → ℕ
declared_minimum beyond hints axis =
    let value = get_or hints (5 + axis) beyond in
    if declares beyond hints 7 hint_min_size && (ltb 0 value && leb value size_limit)
    then value
    else 1

declared_maximum : ℕ → List ℕ → ℕ → ℕ
declared_maximum beyond hints axis =
    let value = get_or hints (7 + axis) beyond in
    if declares beyond hints 9 hint_max_size && (ltb 0 value && leb value int32_max)
    then (if ltb value size_limit then value else size_limit)
    else size_limit

-- Where no test holds the requested number is positive, so its positive part is the number.
abbrev pub limit : ℕ → ℕ → ℤ → ℕ
limit minimum maximum requested =
    if ltb_ℤ requested (pos minimum)
    then minimum
    else if ltb_ℤ (pos maximum) requested
    then maximum
    else pos_part requested

-- Contradictory hints are dropped together.
abbrev pub settle : ℕ → ℕ → ℤ → ℕ
settle minimum maximum requested =
    if ltb maximum minimum then limit 1 size_limit requested else limit minimum maximum requested

unfoldable pub size_axis : ℕ → ℤ → Option (List ℕ) → ℕ → ℕ
unfolding declared_minimum declared_maximum
size_axis beyond requested none axis = settle 1 size_limit requested
size_axis beyond requested (some hints) axis =
    settle (declared_minimum beyond hints axis) (declared_maximum beyond hints axis) requested

-- What one round of the loop over the axes computes.
pub record AxisRules : Type 0 where
  pub minimum : ℕ
  pub base : ℕ
  pub increment : ℕ
  pub aspect_base : ℕ

abbrev increment_of : ℕ → List ℕ → ℕ → ℕ
increment_of beyond hints axis =
    let value = get_or hints (9 + axis) beyond in
    if declares beyond hints 11 hint_resize_inc && (ltb 0 value && leb value size_limit)
    then value
    else 1

unfoldable pub axis_rules : ℕ → List ℕ → ℕ → ℕ → ℕ → AxisRules
axis_rules beyond hints axis minimum maximum =
    let value = get_or hints (15 + axis) beyond in
    let increment = increment_of beyond hints axis in
    if declares beyond hints 17 hint_base_size && leb value size_limit
    then record {
      minimum =
          if not (has_bit (get_or hints 0 beyond) hint_min_size)
            && (ltb 0 value && leb value maximum)
          then value
          else minimum;
      base = value;
      increment = increment;
      aspect_base = value;
    }
    else record {
      minimum = minimum;
      base = if declares beyond hints 7 hint_min_size then minimum else 0;
      increment = increment;
      aspect_base = 0;
    }

abbrev in_int32 : ℕ → Bool
in_int32 value = ltb 0 value && leb value int32_max

abbrev aspect_declared : ℕ → List ℕ → Bool
aspect_declared beyond hints =
    declares beyond hints 15 hint_aspect
    && (in_int32 (get_or hints 11 beyond)
        && (in_int32 (get_or hints 12 beyond)
            && (in_int32 (get_or hints 13 beyond)
                && (in_int32 (get_or hints 14 beyond)
                    && leb (get_or hints 11 beyond * get_or hints 14 beyond)
                        (get_or hints 13 beyond * get_or hints 12 beyond)))))

abbrev no_rules : ResizeRules
no_rules = record {
  base_width = 0;
  base_height = 0;
  width_increment = 0;
  height_increment = 0;
  min_aspect_x = 0;
  min_aspect_y = 0;
  max_aspect_x = 0;
  max_aspect_y = 0;
  aspect_base_width = 0;
  aspect_base_height = 0;
}

abbrev pub plain_constraints : ℕ → Option (List ℕ) → WindowConstraints
plain_constraints beyond hints = record {
  min_width = size_axis beyond (pos 1) hints 0;
  min_height = size_axis beyond (pos 1) hints 1;
  max_width = size_axis beyond (pos int32_max) hints 0;
  max_height = size_axis beyond (pos int32_max) hints 1;
  resize = no_rules;
}

-- The rules of both axes put together; the aspect range only where it is declared.
abbrev with_rules : ℕ → List ℕ → AxisRules → AxisRules → WindowConstraints → WindowConstraints
with_rules beyond hints wide high plain =
    let aspect = aspect_declared beyond hints in
    record plain {
      min_width = wide.minimum;
      min_height = high.minimum;
      resize = record {
        base_width = wide.base;
        base_height = high.base;
        width_increment = wide.increment;
        height_increment = high.increment;
        min_aspect_x = if aspect then get_or hints 11 beyond else 0;
        min_aspect_y = if aspect then get_or hints 12 beyond else 0;
        max_aspect_x = if aspect then get_or hints 13 beyond else 0;
        max_aspect_y = if aspect then get_or hints 14 beyond else 0;
        aspect_base_width = wide.aspect_base;
        aspect_base_height = high.aspect_base;
      };
    }

unfoldable pub size_hints : ℕ → Option (List ℕ) → WindowConstraints
size_hints beyond none = plain_constraints beyond none
size_hints beyond (some []) = plain_constraints beyond (some [])
size_hints beyond (some (flags ∷ words)) =
    let hints = flags ∷ words in
    let plain = plain_constraints beyond (some hints) in
    with_rules beyond hints (axis_rules beyond hints 0 plain.min_width plain.max_width)
      (axis_rules beyond hints 1 plain.min_height plain.max_height) plain
