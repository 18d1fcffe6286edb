-- ===== src/Density/Tests.antt =====
-- The settings of 192 dots per inch with the dark theme.
use magicdesk_x.Prelude.{◌+◌, ◌*◌, ◌/◌, ◌≤◌, ◌≡◌, refl, none, some, arith}
use magicdesk_x.Prelude.Int.{pos}
use magicdesk_x.Density.{scale_of, density_settings}
use magicdesk_x.Density.Laws.{read_sent, size_sent, settings_of, read-density_settings}

read-density_settings_example :
    (read_sent (density_settings (pos 192) 7 (pos 1))
      ≡ some (
        7,
        settings_of 7 1
            (192 * 1024)
            (scale_of 192)
            ((192 * 1024 + scale_of 192 / 2) / scale_of 192),
      ))
    × (size_sent (density_settings (pos 192) 7 (pos 1)) ≤ 160)
read-density_settings_example =
    read-density_settings 192 7 1 (omega arith) (omega arith) (omega arith) (omega arith)

refused_dpi : density_settings (pos 23) 7 (pos 1) ≡ none
unfolding density_settings
refused_dpi = refl
