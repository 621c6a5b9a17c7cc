-- ===== src/Bits/Digits.antt =====
-- The lowest binary digit of `a ^ b`, `a & b` and `a | b`, and what is left above it.
use Prim.Native.Nat.{differ, digits, bitwise, bit_and-bitwise, bit_or-bitwise, bit_xor-bitwise}
use seztuner.Prelude.{
  ℕ, zero, suc, ◌+◌, ◌*◌, ◌/◌, ◌%◌, ◌≤◌, ◌<◌, min, max, bit_and, bit_or, bit_xor, ◌≡◌, refl, arith,
}

-- Any two amounts of fuel that cover the left operand give the same digits.
module _ (tail : ℕ → ℕ) (digit : ℕ → ℕ → ℕ) where
  digits_enough : (n a b m : ℕ) → a ≤ n → a ≤ m → digits tail digit n a b ≡ digits tail digit m a b
  digits_enough zero zero b zero h k = refl
  digits_enough zero zero b (suc m) h k = refl
  digits_enough zero (suc a) b m h k = elim h [ ]
  digits_enough (suc n) zero b zero h k = refl
  digits_enough (suc n) zero b (suc m) h k = refl
  digits_enough (suc n) (suc a) b zero h k = elim k [ ]
  digits_enough (suc n) (suc a) b (suc m) h k =
      rw (digits_enough n (suc a / 2) (b / 2) m (omega arith) (omega arith))

  bitwise_unroll :
      (a b : ℕ)
      → bitwise tail digit (suc a) b
        ≡ digit (suc a % 2) (b % 2) + 2 * bitwise tail digit (suc a / 2) (b / 2)
  bitwise_unroll a b =
      omega (arith, digits_enough a (suc a / 2) (b / 2) (suc a / 2) (omega arith) (omega arith))

-- On digits `differ` is the sum without its carry.
differ_digit : (x y : ℕ) → x < 2 → y < 2 → differ x y ≡ (x + y) % 2
differ_digit zero y h k = omega arith
differ_digit (suc zero) zero h k = refl
differ_digit (suc zero) (suc zero) h k = refl
differ_digit (suc zero) (suc (suc y)) h k = absurd (omega arith)
differ_digit (suc (suc x)) y h k = absurd (omega arith)

pub xor_step : (a b : ℕ) → bit_xor a b ≡ (a + b) % 2 + 2 * bit_xor (a / 2) (b / 2)
xor_step zero b = simp bit_xor-bitwise (omega arith)
xor_step (suc a) b = simp bit_xor-bitwise (
    omega (
      arith,
      bitwise_unroll (λ y. y) differ a b,
      differ_digit (suc a % 2) (b % 2) (omega arith) (omega arith),
    ))

pub and_step : (a b : ℕ) → bit_and a b ≡ min (a % 2) (b % 2) + 2 * bit_and (a / 2) (b / 2)
and_step zero b = simp bit_and-bitwise (omega arith)
and_step (suc a) b = simp bit_and-bitwise (bitwise_unroll (λ y. 0) min a b)

pub or_step : (a b : ℕ) → bit_or a b ≡ max (a % 2) (b % 2) + 2 * bit_or (a / 2) (b / 2)
or_step zero b = simp bit_or-bitwise (omega arith)
or_step (suc a) b = simp bit_or-bitwise (bitwise_unroll (λ y. y) max a b)
