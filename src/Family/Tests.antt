-- ===== src/Family/Tests.antt =====
-- Searches of a small window tree, and the theorems applied to them.
use magicdesk_x.Prelude.{
  Bool, false, List, [], ◌∷◌, ℕ, ◌≡◌, refl, ◌≢◌, true, Option, none, some, ◌==◌, if◌then◌else◌,
}
use magicdesk_x.Family.{walk, search, family_contains}
use magicdesk_x.Family.Activation.{
  top_of, activation_apply, collect, only_owner, activation_apply-family,
}
use magicdesk_x.Family.Laws.{Reaches, family_contains-ends, family_contains-Reaches}

-- Window 3 is a child of 2, which is transient for 1; 4 and 5 are transient for each other.
abbrev parent_of : ℕ → Option ℕ
parent_of n = if n == 3 then some 2 else some 0

abbrev transient_of : ℕ → Option ℕ
transient_of n =
    if n == 2 then some 1 else (if n == 4 then some 5 else (if n == 5 then some 4 else none))

belongs : family_contains parent_of transient_of 0 1 (some 3) ≡ some true
unfolding family_contains search walk
belongs = refl

family_contains-Reaches_example : Reaches parent_of transient_of 3 1
family_contains-Reaches_example = family_contains-Reaches parent_of transient_of 0 1 3 belongs

family_contains-ends_example : family_contains parent_of transient_of 0 1 (some 4) ≢ none
family_contains-ends_example = family_contains-ends parent_of transient_of 0 1 (some 4)

abbrev three_visits : List (ℕ × Bool)
three_visits = (11, false) ∷ (10, false) ∷ (12, true) ∷ []

-- The dialog 12 is modal.
activation_apply-family_example :
    activation_apply (λ w. 1 ∷ []) 1 (collect (only_owner 10) three_visits)
    ≡ (10 ∷ 11 ∷ 12 ∷ [], 12)
unfolding top_of
activation_apply-family_example = activation_apply-family (λ w. 1 ∷ []) 1 10 three_visits
