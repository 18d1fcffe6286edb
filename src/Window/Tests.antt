-- ===== src/Window/Tests.antt =====
-- Concrete runs of the window components, and the theorems at inputs that meet their hypotheses.
use magicdesk_x.Prelude.{ℕ, ◌+◌, ◌≤◌, ◌<◌, ◌≡◌, refl, ◌↔◌, true, false, some, List, [], ◌∷◌, arith}
use magicdesk_x.Prelude.Int.{pos, negsuc, ◌+ℤ◌}
use magicdesk_x.Window.Placement.{output_axis}
use magicdesk_x.Window.Size.{size_axis, size_hints}
use magicdesk_x.Window.Size.Laws.{size_axis-stable, size_hints-sane, SizesAreSane, RulesAreSane}
use magicdesk_x.Window.Size.Reads.{size_hints-inside}
use magicdesk_x.Window.State.{
  FullscreenState, fullscreen_request, fullscreen_confirm, MaximizedState, activation_timestamp,
  sub32,
}
use magicdesk_x.Window.State.Laws.{fullscreen_confirm-stale, activation_timestamp_iff}

output_middle : output_axis (pos 5000) (negsuc 3) (pos 1920) ≡ pos 955
unfolding output_axis ◌+ℤ◌
output_middle = refl

-- A minimum of 200 x 100 and a maximum of 640 x 480.
abbrev limited : List ℕ
limited = 48 ∷ 0 ∷ 0 ∷ 0 ∷ 0 ∷ 200 ∷ 100 ∷ 640 ∷ 480 ∷ []

limited_width : size_axis 0 (pos 5000) (some limited) 0 ≡ 640
unfolding size_axis
limited_width = refl

size_axis-stable_example :
    let granted = size_axis 0 (pos 5000) (some limited) 0 in
    (1 ≤ granted) × (granted ≤ 16384) × (size_axis 0 (pos granted) (some limited) 0 ≡ granted)
size_axis-stable_example = size_axis-stable 0 (pos 5000) (some limited) 0

size_hints-sane_example :
    SizesAreSane (size_hints 0 (some (48 ∷ 0 ∷ 0 ∷ [])))
    × RulesAreSane (size_hints 0 (some (48 ∷ 0 ∷ 0 ∷ []))).resize
size_hints-sane_example = size_hints-sane 0 (some (48 ∷ 0 ∷ 0 ∷ []))

size_hints-inside_example : size_hints 7 (some limited) ≡ size_hints 9 (some limited)
size_hints-inside_example = size_hints-inside 7 9 (some limited)

abbrev windowed : FullscreenState
windowed = record { serial = 4294967295; requested = false; actual = false }

fullscreen_confirm-stale_example :
    let asked = (fullscreen_request windowed 1).0 in
    (fullscreen_confirm asked 4294967295 false ≡ (asked, false))
    × (fullscreen_confirm asked asked.serial false
        ≡ (record asked { requested = false; actual = false }, true))
fullscreen_confirm-stale_example =
    fullscreen_confirm-stale windowed 1 false (omega arith) (omega arith)

abbrev half_maximized : MaximizedState
half_maximized = record { serial = 4; requested = 1; actual = 1 }

-- The clock has wrapped between the input and now.
activation_timestamp_iff_example : (activation_timestamp 4294967290 4294967000 500 ≡ true) ↔ (
    (0 < 4294967290)
    × (0 < 4294967000)
    × (sub32 4294967290 4294967000 + sub32 500 4294967290 ≡ sub32 500 4294967000)
    × (sub32 500 4294967000 ≤ 10000))
activation_timestamp_iff_example =
    activation_timestamp_iff 4294967290 4294967000 500 (omega arith) (omega arith) (omega arith)
