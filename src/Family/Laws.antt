-- ===== src/Family/Laws.antt =====
-- The search of window_family.h ends, and what it finds is linked.
use magicdesk_x.Prelude.{
  ℕ, zero, suc, ◌≤◌, ◌<◌, ◌≡◌, refl, sym, ◌∙◌, ◌≢◌, inl, inr, Bool, true, false, Option, none, some,
  arith, ◌==◌, ==_iff, Bool-cases,
}
use mathlib.Core.Path.{subst}
use magicdesk_x.Family.{Walk, found, exhausted, finished, first_some, walk, search, family_contains}

-- What is said of a window holds of the optional one, where there is one.
abbrev pub ForSome : (ℕ → Type 0) → Option ℕ → Type 0
ForSome P none = Unit
ForSome P (some a) = P a

-- The windows that parents and transient links lead to.
pub data Reaches (parent transient_for : ℕ → Option ℕ) (window : ℕ) : ℕ → Type 0 where
  start : Reaches parent transient_for window window
  up :
      (a b : ℕ)
      → Reaches parent transient_for window a
      → parent a ≡ some b
      → Reaches parent transient_for window b
  across :
      (a b : ℕ)
      → Reaches parent transient_for window a
      → transient_for a ≡ some b
      → Reaches parent transient_for window b

module _ (parent transient_for : ℕ → Option ℕ) (root owner : ℕ) where
  -- A walk leaves at most what it was given.
  abbrev LeavesAtMost : ℕ → Walk → Type 0
  LeavesAtMost n (finished left transient) = left ≤ n
  LeavesAtMost n _ = Unit

  LeavesAtMost-mono : (m n : ℕ) (w : Walk) → m ≤ n → LeavesAtMost m w → LeavesAtMost n w
  LeavesAtMost-mono m n found h l = tt
  LeavesAtMost-mono m n exhausted h l = tt
  LeavesAtMost-mono m n (finished left transient) h l = omega arith

  walk-LeavesAtMost :
      (remaining : ℕ) (ancestor transient : Option ℕ)
      → LeavesAtMost remaining (walk parent transient_for root owner remaining ancestor transient)
  unfolding walk
  walk-LeavesAtMost zero none transient = omega arith
  walk-LeavesAtMost (suc r) none transient = omega arith
  walk-LeavesAtMost zero (some a) transient = elim (Bool-cases (a == root)) [
    | inl e ↦ rw e (omega arith)
    | inr e ↦ rw e tt
  ]
  walk-LeavesAtMost (suc r) (some a) transient =
      let next = first_some transient (transient_for a) in
      elim (Bool-cases (a == root)) [
        | inl e ↦ rw e (omega arith)
        | inr e ↦ elim (Bool-cases (a == owner)) [
          | inl f ↦ rw (e, f) tt
          | inr f ↦
              rw (e, f)
                (LeavesAtMost-mono r (suc r)
                  (walk parent transient_for root owner r (parent a) next) (omega arith)
                  (walk-LeavesAtMost r (parent a) next))
        ]
      ]

  -- From a window that is not the root a walk leaves less.
  walk_less :
      (r window : ℕ)
      → (window == root) ≡ false
      → LeavesAtMost r (walk parent transient_for root owner (suc r) (some window) none)
  unfolding walk
  walk_less r window e = elim (Bool-cases (window == owner)) [
    | inl f ↦ rw (e, f) tt
    | inr f ↦ rw (e, f) (walk-LeavesAtMost r (parent window) (transient_for window))
  ]

  -- What a walk finds is reached from the first window.
  abbrev IsSound : ℕ → Walk → Type 0
  IsSound window found = Reaches parent transient_for window owner
  IsSound window exhausted = Unit
  IsSound window (finished left transient) = ForSome (Reaches parent transient_for window) transient

  reached_up :
      (window a : ℕ) (next : Option ℕ)
      → Reaches parent transient_for window a
      → parent a ≡ next
      → ForSome (Reaches parent transient_for window) next
  reached_up window a none h e = tt
  reached_up window a (some b) h e = up a b h e

  reached_across :
      (window a : ℕ) (next : Option ℕ)
      → Reaches parent transient_for window a
      → transient_for a ≡ next
      → ForSome (Reaches parent transient_for window) next
  reached_across window a none h e = tt
  reached_across window a (some b) h e = across a b h e

  reached_first :
      (window a : ℕ) (transient : Option ℕ)
      → Reaches parent transient_for window a
      → ForSome (Reaches parent transient_for window) transient
      → ForSome (Reaches parent transient_for window) (first_some transient (transient_for a))
  reached_first window a none h t = reached_across window a (transient_for a) h refl
  reached_first window a (some b) h t = t

  walk-IsSound :
      (window remaining : ℕ) (ancestor transient : Option ℕ)
      → ForSome (Reaches parent transient_for window) ancestor
      → ForSome (Reaches parent transient_for window) transient
      → IsSound window (walk parent transient_for root owner remaining ancestor transient)
  unfolding walk
  walk-IsSound window zero none transient h t = t
  walk-IsSound window (suc r) none transient h t = t
  walk-IsSound window zero (some a) transient h t = elim (Bool-cases (a == root)) [
    | inl e ↦ rw e t
    | inr e ↦ rw e tt
  ]
  walk-IsSound window (suc r) (some a) transient h t = elim (Bool-cases (a == root)) [
    | inl e ↦ rw e t
    | inr e ↦ elim (Bool-cases (a == owner)) [
      | inl f ↦ rw (e, f) (subst (Reaches parent transient_for window) ((==_iff a owner).0 f) h)
      | inr f ↦
          rw (e, f)
            (walk-IsSound window r (parent a) (first_some transient (transient_for a))
              (reached_up window a (parent a) h refl) (reached_first window a transient h t))
    ]
  ]

  abbrev resume : ℕ → Walk → Option Bool
  resume fuel out = elim out [
    | found ↦ some true
    | exhausted ↦ some false
    | finished left transient ↦ search parent transient_for root owner fuel left transient
  ]

  resume-ends :
      (fuel n : ℕ) (out : Walk)
      → ((left : ℕ) (transient : Option ℕ)
          → left ≤ n
          → search parent transient_for root owner fuel left transient ≢ none)
      → LeavesAtMost n out
      → resume fuel out ≢ none
  resume-ends fuel n found h l = λ e. absurd cc
  resume-ends fuel n exhausted h l = λ e. absurd cc
  resume-ends fuel n (finished left transient) h l = h left transient l

  search_step :
      (fuel remaining window : ℕ)
      → (window == root) ≡ false
      → search parent transient_for root owner (suc fuel) remaining (some window)
        ≡ resume fuel (walk parent transient_for root owner remaining (some window) none)
  unfolding search
  search_step fuel remaining window e = rw e

  search_root :
      (fuel remaining window : ℕ)
      → (window == root) ≡ true
      → search parent transient_for root owner (suc fuel) remaining (some window) ≡ some false
  unfolding search
  search_root fuel remaining window e = rw e

  search_zero :
      (fuel window : ℕ)
      → (window == root) ≡ false
      → search parent transient_for root owner (suc fuel) 0 (some window) ≡ some false
  unfolding search walk
  search_zero fuel window e = rw e

  search-none :
      (fuel remaining : ℕ)
      → search parent transient_for root owner (suc fuel) remaining none ≡ some false
  unfolding search
  search-none fuel remaining = refl

  search-ends :
      (fuel remaining : ℕ) (window : Option ℕ)
      → remaining < fuel
      → search parent transient_for root owner fuel remaining window ≢ none
  search-ends zero remaining window h = absurd (omega arith)
  search-ends (suc fuel) remaining none h = λ q. let e = search-none fuel remaining in absurd cc
  search-ends (suc fuel) zero (some window) h = elim (Bool-cases (window == root)) [
    | inl e ↦ λ q. let f = search_root fuel 0 window e in absurd cc
    | inr e ↦ λ q. let f = search_zero fuel window e in absurd cc
  ]
  search-ends (suc fuel) (suc r) (some window) h = elim (Bool-cases (window == root)) [
    | inl e ↦ λ q. let f = search_root fuel (suc r) window e in absurd cc
    | inr e ↦ λ q.
        resume-ends fuel r (walk parent transient_for root owner (suc r) (some window) none)
          (λ left transient l. search-ends fuel left transient (omega arith)) (walk_less r window e)
          (sym (search_step fuel (suc r) window e) ∙ q)
  ]

  resume-Reaches :
      (window fuel : ℕ) (out : Walk)
      → IsSound window out
      → ((left : ℕ) (transient : Option ℕ)
          → ForSome (Reaches parent transient_for window) transient
          → search parent transient_for root owner fuel left transient ≡ some true
          → Reaches parent transient_for window owner)
      → resume fuel out ≡ some true
      → Reaches parent transient_for window owner
  resume-Reaches window fuel found v h e = v
  resume-Reaches window fuel exhausted v h e = absurd cc
  resume-Reaches window fuel (finished left transient) v h e = h left transient v e

  search-Reaches :
      (window fuel remaining : ℕ) (from : Option ℕ)
      → ForSome (Reaches parent transient_for window) from
      → search parent transient_for root owner fuel remaining from ≡ some true
      → Reaches parent transient_for window owner
  unfolding search
  search-Reaches window zero remaining none v h = absurd cc
  search-Reaches window (suc fuel) remaining none v h = absurd cc
  search-Reaches window zero remaining (some a) v h = absurd (ground arith)
  search-Reaches window (suc fuel) remaining (some a) v h = elim (Bool-cases (a == root)) [
    | inl e ↦ absurd (ground arith)
    | inr e ↦
        resume-Reaches window fuel (walk parent transient_for root owner remaining (some a) none)
          (walk-IsSound window remaining (some a) none v tt)
          (λ left transient u q. search-Reaches window fuel left transient u q) (rw e at h)
  ]

-- The search of a family ends within its 64 steps, whatever circles the parents and the transient
-- links make: the fuel of the outer loop, one more, is enough.
pub family_contains-ends :
    (parent transient_for : ℕ → Option ℕ) (root owner : ℕ) (window : Option ℕ)
    → family_contains parent transient_for root owner window ≢ none
unfolding family_contains
family_contains-ends parent transient_for root owner window =
    search-ends parent transient_for root owner 65 64 window (omega arith)

-- A window that is found to belong to an owner's family is linked to the owner by parents and
-- transient links.
pub family_contains-Reaches :
    (parent transient_for : ℕ → Option ℕ) (root owner window : ℕ)
    → family_contains parent transient_for root owner (some window) ≡ some true
    → Reaches parent transient_for window owner
unfolding family_contains
family_contains-Reaches parent transient_for root owner window h =
    search-Reaches parent transient_for root owner window 65 64 (some window) start h
