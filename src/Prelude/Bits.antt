-- ===== src/Prelude/Bits.antt =====
-- Single bits of machine words, and the bit operations on one byte by a table.
use Prim.Native.Nat.{bit_and, bit_or}
use magicdesk_x.Prelude.{
  ℕ, zero, suc, ◌-◌, ◌/◌, ◌%◌, ◌^◌, ◌<◌, ◌≡◌, refl, Bool, true, false, not, arith, ◌==◌, ltb,
  ltb→lt, if◌then◌else◌,
}

-- `x & (1u << k)` as a test.
abbrev pub has_bit : ℕ → ℕ → Bool
has_bit x k = (x / 2 ^ k) % 2 == 1

-- `x |= 1u << k` and `x &= ~(1u << k)` on a `uint8_t`.
unfoldable pub set_bit : ℕ → ℕ → ℕ
set_bit x k = bit_or x (2 ^ k)

unfoldable pub clear_bit : ℕ → ℕ → ℕ
clear_bit x k = bit_and x (255 - 2 ^ k)

abbrev pub beqb : Bool → Bool → Bool
beqb true b = b
beqb false b = not b

-- Whether a test holds of each number under a bound, by trying them all; used for tables.
unfoldable pub holds_below : ℕ → (ℕ → Bool) → Bool
holds_below zero test = true
holds_below (suc bound) test = if test bound then holds_below bound test else false

pub holds_at :
    (bound : ℕ) (test : ℕ → Bool) (at : ℕ)
    → holds_below bound test ≡ true
    → at < bound
    → test at ≡ true
unfolding holds_below
holds_at zero test at table inside = elim inside [ ]
holds_at (suc bound) test at table inside = ground (arith, holds_at bound test at)

-- The same over two ranges.
pub holds_at_pair :
    (m n : ℕ) (p : ℕ → ℕ → Bool)
    → holds_below m (λ x. holds_below n (p x)) ≡ true
    → (x y : ℕ) → x < m
    → y < n
    → p x y ≡ true
holds_at_pair m n p table x y hx hy =
    holds_at n (p x) y (holds_at m (λ x. holds_below n (p x)) x table hx) hy

abbrev pub bits_agree : ℕ → ℕ → Bool → Bool
bits_agree x j b = beqb (has_bit x j) b

pub beqb→eq : (a b : Bool) → beqb a b ≡ true → a ≡ b
beqb→eq a b h = ground arith

holds_at_triple :
    (p : ℕ → ℕ → ℕ → Bool)
    → holds_below 256 (λ x. holds_below 8 (λ k. holds_below 8 (p x k))) ≡ true
    → (x k j : ℕ) → x < 256
    → k < 8
    → j < 8
    → p x k j ≡ true
holds_at_triple p table x k j hx hk hj =
    holds_at 8 (p x k) j (holds_at_pair 256 8 (λ x k. holds_below 8 (p x k)) table x k hx hk) hj

set_table :
    holds_below 256 (λ x. holds_below 8 (λ k.
      holds_below 8 (λ j. beqb (has_bit (set_bit x k) j) (if k == j then true else has_bit x j))))
    ≡ true
unfolding holds_below set_bit
set_table = refl

clear_table :
    holds_below 256 (λ x. holds_below 8 (λ k.
      holds_below 8
        (λ j. beqb (has_bit (clear_bit x k) j) (if k == j then false else has_bit x j))))
    ≡ true
unfolding holds_below clear_bit
clear_table = refl

pub has_bit-set_bit :
    (x k j : ℕ)
    → x < 256
    → k < 8
    → j < 8
    → has_bit (set_bit x k) j ≡ (if k == j then true else has_bit x j)
has_bit-set_bit x k j hx hk hj = beqb→eq _ _ (
    holds_at_triple (λ x k j. beqb (has_bit (set_bit x k) j) (if k == j then true else has_bit x j))
      set_table x k j hx hk hj)

pub has_bit-clear_bit :
    (x k j : ℕ)
    → x < 256
    → k < 8
    → j < 8
    → has_bit (clear_bit x k) j ≡ (if k == j then false else has_bit x j)
has_bit-clear_bit x k j hx hk hj = beqb→eq _ _ (
    holds_at_triple
      (λ x k j. beqb (has_bit (clear_bit x k) j) (if k == j then false else has_bit x j))
      clear_table x k j hx hk hj)

set_bound_table : holds_below 256 (λ x. holds_below 8 (λ k. ltb (set_bit x k) 256)) ≡ true
unfolding holds_below set_bit
set_bound_table = refl

clear_bound_table : holds_below 256 (λ x. holds_below 8 (λ k. ltb (clear_bit x k) 256)) ≡ true
unfolding holds_below clear_bit
clear_bound_table = refl

pub set_bit-lt : (x k : ℕ) → x < 256 → k < 8 → set_bit x k < 256
set_bit-lt x k hx hk = ltb→lt _ _ (holds_at_pair 256 8 _ set_bound_table x k hx hk)

pub clear_bit-lt : (x k : ℕ) → x < 256 → k < 8 → clear_bit x k < 256
clear_bit-lt x k hx hk = ltb→lt _ _ (holds_at_pair 256 8 _ clear_bound_table x k hx hk)
