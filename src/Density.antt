-- ===== src/Density.antt =====
-- The settings of density and theme that X toolkits read: density_settings.h under
-- lorie/src/main/cpp/lorie. The buffer has 160 bytes, and a write past its end is dropped.
pub mod Laws
mod Tests
use magicdesk_x.Prelude.{
  ℕ, zero, suc, ◌+◌, ◌-◌, ◌*◌, ◌/◌, ◌%◌, ◌^◌, ◌≤◌, ◌<◌, min, max, ◌≡◌, refl, sym, ap, ◌∙◌, ◌≢◌, ◌↔◌,
  ◌⊎◌, inl, inr, Bool, true, false, not, ◌&&◌, ◌||◌, Option, none, some, List, [], ◌∷◌, ◌++◌, map,
  arith, ltb, leb, ◌==◌, if◌then◌else◌, ltb→lt, lt→ltb, leb→le, ==_iff, tests, Bool-cases, if-both,
  option-both, not-true, not-false, Option-cases, length, get_elem?, get_or, set, replicate,
  length-append, length-set, get_or-default, get_or-set_self, get_or-set_ne, All, All-set,
  get_or-All,
}
use magicdesk_x.Prelude.Int.{
  ℤ, pos, negsuc, pos_part, neg_part, sub_ℕ, ◌+ℤ◌, ◌-ℤ◌, ◌≤ℤ◌, ◌<ℤ◌, ltb_ℤ, leb_ℤ, eqb_ℤ, max_ℤ,
  min_ℤ, lt_ℤ-cases, int_laws, neg_part_of_le, negative_part, no_negative_part, +ℤ_parts, -ℤ_parts,
  eq_of_parts,
}
use magicdesk_x.Prelude.Bits.{has_bit, set_bit, clear_bit}

-- The little-endian bytes of `densityCard32`.
abbrev pub card32 : ℕ → List ℕ
card32 v = v % 256 ∷ v / 256 % 256 ∷ v / 65536 % 256 ∷ v / 16777216 % 256 ∷ []

-- Bytes are written over a buffer from an offset on.
abbrev pub put : List ℕ → ℕ → List ℕ → List ℕ
put [] at bytes = []
put (b ∷ rest) (suc n) bytes = b ∷ put rest n bytes
put (b ∷ rest) zero [] = b ∷ rest
put (b ∷ rest) zero (x ∷ bytes) = x ∷ put rest zero bytes

-- A length that is rounded up to a multiple of four.
abbrev pub padded : ℕ → ℕ
padded n = (n + 3) / 4 * 4

abbrev pub xft_dpi : List ℕ
xft_dpi = 88 ∷ 102 ∷ 116 ∷ 47 ∷ 68 ∷ 80 ∷ 73 ∷ []

abbrev pub scaling_factor : List ℕ
scaling_factor =
    71 ∷ 100 ∷ 107 ∷ 47 ∷ 87 ∷ 105 ∷ 110 ∷ 100 ∷ 111 ∷ 119 ∷ 83 ∷ 99 ∷ 97 ∷ 108 ∷ 105 ∷ 110 ∷ 103
    ∷ 70 ∷ 97 ∷ 99 ∷ 116 ∷ 111 ∷ 114 ∷ []

abbrev pub unscaled_dpi : List ℕ
unscaled_dpi = 71 ∷ 100 ∷ 107 ∷ 47 ∷ 85 ∷ 110 ∷ 115 ∷ 99 ∷ 97 ∷ 108 ∷ 101 ∷ 100 ∷ 68 ∷ 80 ∷ 73 ∷ []

abbrev pub theme_name : List ℕ
theme_name = 78 ∷ 101 ∷ 116 ∷ 47 ∷ 84 ∷ 104 ∷ 101 ∷ 109 ∷ 101 ∷ 78 ∷ 97 ∷ 109 ∷ 101 ∷ []

abbrev pub adwaita : List ℕ
adwaita = 65 ∷ 100 ∷ 119 ∷ 97 ∷ 105 ∷ 116 ∷ 97 ∷ []

-- The theme of a color scheme: Adwaita-dark or Adwaita.
abbrev pub theme : ℕ → List ℕ
theme scheme = if scheme == 1 then adwaita ++ (45 ∷ 100 ∷ 97 ∷ 114 ∷ 107 ∷ []) else adwaita

-- The buffer and where the next setting begins.
abbrev pub Written : Type 0
Written = List ℕ × ℕ

-- One round of the loop: an integer setting.
abbrev pub put_integer : ℕ → List ℕ → ℕ → Written → Written
put_integer serial name value (bytes, at) =
    let after_name = at + (4 + padded (length name)) in
    (
      put
          (put (put (put bytes (at + 2) (length name % 256 ∷ [])) (at + 4) name) after_name
            (card32 serial))
          (after_name + 4) (card32 value),
      after_name + 8,
    )

-- The string setting of the theme.
abbrev pub put_theme : ℕ → List ℕ → List ℕ → Written → Written
put_theme serial name text (bytes, at) =
    let after_name = at + (4 + padded (length name)) in
    (
      put
          (put
            (put (put (put (put bytes at (1 ∷ [])) (at + 2) (length name % 256 ∷ [])) (at + 4) name)
              after_name (card32 serial))
            (after_name + 4) (card32 (length text)))
          (after_name + 8) text,
      after_name + (8 + padded (length text)),
    )

-- The scaling factor of a window.
abbrev pub scale_of : ℕ → ℕ
scale_of dpi = max 1 ((dpi + 48) / 96)

-- The settings with their values, in the buffer.
unfoldable pub put_settings : ℕ → ℕ → ℕ → ℕ → ℕ → Written
put_settings serial scheme dpi scale unscaled =
    let empty =
      put (put (replicate 160 0) 4 (card32 serial)) 8 (card32 (if scheme == 0 then 3 else 4)) in
    let integers =
      put_integer serial unscaled_dpi unscaled
        (put_integer serial scaling_factor scale (put_integer serial xft_dpi dpi (empty, 12))) in
    if scheme == 0 then integers else put_theme serial theme_name (theme scheme) integers

-- `lorieDensitySettings`; `none` stands for 0, with the buffer as it was.
unfoldable pub density_settings : ℤ → ℕ → ℤ → Option Written
unfolding put_settings
density_settings dpi serial scheme =
    let d = pos_part dpi in
    let scale = scale_of d in
    if ltb_ℤ dpi (pos 24)
      || (ltb_ℤ (pos 1536) dpi || (ltb_ℤ scheme (pos 0) || ltb_ℤ (pos 2) scheme))
    then none
    else some (
        put_settings serial (pos_part scheme) (d * 1024 % 2 ^ 32) scale
          ((d * 1024 + scale / 2) / scale % 2 ^ 32))
