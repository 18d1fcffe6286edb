-- ===== src/Inspection/Tests.antt =====
-- A small family: an owner 5, a member 7 with a child 8, and a stranger 9.
use magicdesk_x.Prelude.{ℕ, ◌≤◌, ◌≡◌, refl, Bool, false, [], ◌∷◌, arith, ◌==◌, length}
use magicdesk_x.Inspection.{
  InspectTrees, window, no_windows, more_windows, inspect_one, inspect_family,
}
use magicdesk_x.Inspection.Laws.{all_members, inspect_family-whole}

abbrev test_roots : InspectTrees
test_roots =
    more_windows (window 7 (more_windows (window 8 no_windows) no_windows))
      (more_windows (window 9 no_windows) (more_windows (window 5 no_windows) no_windows))

abbrev seven : ℕ → Bool
seven id = id == 7

inspect_family-whole_example :
    let o = inspect_family 10 5 seven test_roots in
    (o.0.count ≡ length o.1)
    × ((o.0.count ≤ 10) × (o.0.truncated ≡ false → o.1 ≡ 5 ∷ all_members 5 seven [] test_roots))
inspect_family-whole_example =
    inspect_family-whole 10 5 seven test_roots (ground arith) (omega arith)

found_family : (inspect_family 10 5 seven test_roots).1 ≡ 5 ∷ 7 ∷ 8 ∷ []
unfolding inspect_family inspect_one
found_family = refl
