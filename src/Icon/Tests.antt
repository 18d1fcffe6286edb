-- ===== src/Icon/Tests.antt =====
-- Runs of window_icon.h on a small property, and the theorems about it applied to it.
use magicdesk_x.Prelude.{
  ℕ, ◌≡◌, refl, true, none, some, List, [], ◌∷◌, arith, ltb, if◌then◌else◌, lt→ltb, get_or,
}
use magicdesk_x.Icon.{IconImage, side, refused, chosen, scan, header_at, window_icon}
use magicdesk_x.Icon.Choice.{IsInside, preferred, here, scan-chooses}
use magicdesk_x.Icon.Memory.{window_icon-inside}

-- An image of 1 by 1, and one of 2 by 1.
abbrev words : List ℕ
words = 1 ∷ 1 ∷ 0xff0000ff ∷ 2 ∷ 1 ∷ 0xffff0000 ∷ 0xff00ff00 ∷ []

abbrev property : ℕ → ℕ
property = λ n. get_or words n 0

abbrev larger : IconImage
larger = header_at property 3

larger_chosen : scan property 7 7 0 none ≡ chosen (some larger)
unfolding scan
larger_chosen = refl

cut_short : scan property 6 6 0 none ≡ refused
unfolding scan
cut_short = refl

scan-chooses_example :
    IsInside 7 larger × preferred (side larger) (side (header_at property 0)) ≡ true
scan-chooses_example = scan-chooses property 7 0 larger (here 0) (omega arith) larger_chosen

abbrev other_memory : ℕ → ℕ
other_memory n = if ltb n 7 then property n else 77

window_icon-inside_example :
    ((window_icon (some property) 7 (λ i. 9)).0 ≡ (window_icon (some other_memory) 7 (λ i. 9)).0)
    × ((window_icon (some property) 7 (λ i. 9)).1 2000
        ≡ (window_icon (some other_memory) 7 (λ i. 9)).1 2000)
    × ((window_icon (some property) 7 (λ i. 9)).1 4096 ≡ 9)
window_icon-inside_example =
    window_icon-inside property other_memory 7 (λ i. 9) 2000 4096 (λ n l. rw (lt→ltb n 7 l))
      (omega arith)
