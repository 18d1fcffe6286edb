-- ===== src/Density/Laws.antt =====
-- What a reader of the settings finds.
use magicdesk_x.Prelude.{
  ℕ, zero, suc, ◌+◌, ◌*◌, ◌/◌, ◌%◌, ◌^◌, ◌≤◌, ◌<◌, ◌≡◌, refl, ap, ◌∙◌, false, ◌||◌, Option, none,
  some, List, [], ◌∷◌, arith, ◌==◌, if◌then◌else◌, get_or,
}
use magicdesk_x.Prelude.Int.{pos, ltb_ℤ}
use magicdesk_x.Density.{
  card32, padded, xft_dpi, scaling_factor, unscaled_dpi, theme_name, theme, Written, scale_of,
  put_settings, density_settings,
}
use native.Mathlib.Nat.{div-le_self}

-- A setting, as the format has it: its name, its serial, and an integer or a text.
pub data Setting : Type 0 where
  integer : List ℕ → ℕ → ℕ → Setting
  text : List ℕ → ℕ → List ℕ → Setting

abbrev taken : ℕ → List ℕ → List ℕ
taken zero bytes = []
taken (suc n) [] = []
taken (suc n) (b ∷ rest) = b ∷ taken n rest

abbrev skipped : ℕ → List ℕ → List ℕ
skipped zero bytes = bytes
skipped (suc n) [] = []
skipped (suc n) (b ∷ rest) = skipped n rest

abbrev pub card_at : List ℕ → ℕ → ℕ
card_at bytes at =
    get_or bytes at 0
    + (get_or bytes (at + 1) 0 * 256
        + (get_or bytes (at + 2) 0 * 65536 + get_or bytes (at + 3) 0 * 16777216))

abbrev name_length : List ℕ → ℕ
name_length bytes = get_or bytes 2 0 + get_or bytes 3 0 * 256

-- A reader of so many settings: the type is the first byte, then the name, the serial and the value.
unfoldable read_settings : ℕ → List ℕ → List Setting
read_settings zero bytes = []
read_settings (suc count) bytes =
    let n = name_length bytes in
    let name = taken n (skipped 4 bytes) in
    let at = 4 + padded n in
    let size = card_at bytes (at + 4) in
    if get_or bytes 0 0 == 0
    then integer name (card_at bytes at) size ∷ read_settings count (skipped (at + 8) bytes)
    else text name (card_at bytes at) (taken size (skipped (at + 8) bytes))
      ∷ read_settings count (skipped (at + (8 + padded size)) bytes)

-- A reader of the whole: little endian, the serial, and as many settings as are announced.
unfoldable pub read_all : List ℕ → ℕ × List Setting
unfolding read_settings
read_all bytes = (card_at bytes 4, read_settings (card_at bytes 8) (skipped 12 bytes))

-- Only the bytes that are sent are read.
abbrev pub sent_read : Written → ℕ × List Setting
sent_read (bytes, size) = read_all (taken size bytes)

abbrev card : ℕ → ℕ
card v = card_at (card32 v) 0

card_back : (v : ℕ) → v < 2 ^ 32 → card v ≡ v
card_back v h = omega arith

abbrev themed : ℕ → ℕ → List Setting
themed serial scheme = if scheme == 0 then [] else text theme_name serial (theme scheme) ∷ []

-- The settings that are meant.
abbrev pub settings_of : ℕ → ℕ → ℕ → ℕ → ℕ → List Setting
settings_of serial scheme dpi scale unscaled =
    integer xft_dpi serial dpi
    ∷ integer scaling_factor serial scale
    ∷ integer unscaled_dpi serial unscaled
    ∷ themed serial scheme

read_written :
    (serial scheme dpi scale unscaled : ℕ)
    → scheme ≤ 2
    → sent_read (put_settings serial scheme dpi scale unscaled)
      ≡ (card serial, settings_of (card serial) scheme (card dpi) (card scale) (card unscaled))
unfolding read_all put_settings
read_written serial zero dpi scale unscaled h = refl
read_written serial (suc zero) dpi scale unscaled h = refl
read_written serial (suc (suc zero)) dpi scale unscaled h = refl
read_written serial (suc (suc (suc n))) dpi scale unscaled h = absurd (omega arith)

scale_small : (dpi : ℕ) → dpi ≤ 1536 → (scale_of dpi ≤ 16) × (0 < scale_of dpi)
scale_small dpi h = (omega arith, omega arith)

abbrev unscaled_of : ℕ → ℕ
unscaled_of dpi = (dpi * 1024 + scale_of dpi / 2) / scale_of dpi

unscaled_small : (dpi : ℕ) → dpi ≤ 1536 → unscaled_of dpi < 2 ^ 32
unscaled_small dpi h =
    let (a, b) = scale_small dpi h in
    let d = div-le_self (dpi * 1024 + scale_of dpi / 2) (scale_of dpi) in
    below dpi (scale_of dpi) _ h a d
  where
    below : (dpi scale n : ℕ) → dpi ≤ 1536 → scale ≤ 16 → n ≤ dpi * 1024 + scale / 2 → n < 2 ^ 32
    below dpi scale n h k l = omega arith

abbrev read_as : ℕ → ℕ → ℕ → ℕ → ℕ → ℕ × List Setting
read_as serial scheme dpi scale unscaled = (serial, settings_of serial scheme dpi scale unscaled)

settings_back :
    (serial scheme dpi scale unscaled : ℕ)
    → scheme ≤ 2
    → serial < 2 ^ 32
    → dpi < 2 ^ 32
    → scale < 2 ^ 32
    → unscaled < 2 ^ 32
    → sent_read (put_settings serial scheme dpi scale unscaled)
      ≡ (serial, settings_of serial scheme dpi scale unscaled)
settings_back serial scheme dpi scale unscaled h a b c d =
    read_written serial scheme dpi scale unscaled h
    ∙ back_in (card serial) serial scheme (card dpi) dpi (card scale) scale (card unscaled) unscaled
        (card_back serial a) (card_back dpi b) (card_back scale c) (card_back unscaled d)
  where
    back_in :
        (s t scheme a b c d e f : ℕ)
        → s ≡ t
        → a ≡ b
        → c ≡ d
        → e ≡ f
        → read_as s scheme a c e ≡ read_as t scheme b d f
    back_in s t scheme a b c d e f p q r u = cc

settings_fit :
    (serial scheme dpi scale unscaled : ℕ)
    → scheme ≤ 2
    → (put_settings serial scheme dpi scale unscaled).1 ≤ 160
unfolding put_settings
settings_fit serial zero dpi scale unscaled h = omega arith
settings_fit serial (suc zero) dpi scale unscaled h = omega arith
settings_fit serial (suc (suc zero)) dpi scale unscaled h = omega arith
settings_fit serial (suc (suc (suc n))) dpi scale unscaled h = absurd (omega arith)

unwrapped : (n : ℕ) → n < 2 ^ 32 → n % 2 ^ 32 ≡ n
unwrapped n h = omega arith

-- What is read in the bytes that are sent.
abbrev pub read_sent : Option Written → Option (ℕ × List Setting)
read_sent none = none
read_sent (some written) = some (sent_read written)

abbrev pub size_sent : Option Written → ℕ
size_sent none = 0
size_sent (some (bytes, size)) = size

accepted :
    (dpi scheme : ℕ)
    → 24 ≤ dpi
    → dpi ≤ 1536
    → scheme ≤ 2
    → (ltb_ℤ (pos dpi) (pos 24)
        || (ltb_ℤ (pos 1536) (pos dpi)
            || (ltb_ℤ (pos scheme) (pos 0) || ltb_ℤ (pos 2) (pos scheme))))
      ≡ false
accepted dpi scheme h k l = ground arith

-- A reader of the settings of an accepted density finds the serial, the density in 1024ths, the scaling
-- factor, the density without the scaling, and the theme if a scheme is set; and they fit the buffer.
pub read-density_settings :
    (dpi serial scheme : ℕ)
    → 24 ≤ dpi
    → dpi ≤ 1536
    → scheme ≤ 2
    → serial < 2 ^ 32
    → (read_sent (density_settings (pos dpi) serial (pos scheme))
        ≡ some (
          serial,
          settings_of serial scheme
              (dpi * 1024)
              (scale_of dpi)
              ((dpi * 1024 + scale_of dpi / 2) / scale_of dpi),
        ))
      × (size_sent (density_settings (pos dpi) serial (pos scheme)) ≤ 160)
unfolding density_settings
read-density_settings dpi serial scheme h k l m =
    let wide : dpi * 1024 < 2 ^ 32 = omega arith in
    let narrow = unscaled_small dpi k in
    let (small, positive) = scale_small dpi k in
    rw (accepted dpi scheme h k l, unwrapped (dpi * 1024) wide, unwrapped (unscaled_of dpi) narrow)
      (
        ap some (
            settings_back serial scheme (dpi * 1024) (scale_of dpi) (unscaled_of dpi) l m wide
              (scale_fits (scale_of dpi) small) narrow),
        settings_fit serial scheme (dpi * 1024) (scale_of dpi) (unscaled_of dpi) l,
      )
  where
    scale_fits : (n : ℕ) → n ≤ 16 → n < 2 ^ 32
    scale_fits n h = omega arith
