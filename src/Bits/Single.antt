-- ===== src/Bits/Single.antt =====
-- One bit of a number.
use seztuner.Prelude.{
  ℕ, zero, suc, ◌*◌, ◌/◌, ◌%◌, ◌^◌, ◌≡◌, arith, max, bit_and, bit_or, ◌⊎◌, inl, inr,
}
use seztuner.Bits.Digits.{and_step, or_step}
use seztuner.Bits.Fields.{or_half}
use seztuner.Bits.Masks.{and-zero}

and_one : (a : ℕ) → bit_and a 1 ≡ a % 2
and_one a = omega (arith, and_step a 1, and-zero (a / 2))

and_pow : (k a : ℕ) → bit_and a (2 ^ suc k) ≡ 2 * bit_and (a / 2) (2 ^ k)
and_pow k a =
    let half : 2 ^ suc k / 2 ≡ 2 ^ k = omega arith in
    let even : 2 ^ suc k % 2 ≡ 0 = omega arith in
    omega (arith, rw (half, even) at (and_step a (2 ^ suc k)))

-- The test of one bit gives 0 or that bit.
pub single_cases : (k a : ℕ) → (bit_and a (2 ^ k) ≡ 0) ⊎ (bit_and a (2 ^ k) ≡ 2 ^ k)
single_cases zero a = ground (arith, and_one a)
single_cases (suc k) a = elim (single_cases k (a / 2)) [
  | inl h ↦ inl (omega (arith, and_pow k a, h))
  | inr h ↦ inr (omega (arith, and_pow k a, h))
]

pub single-or :
    (k a b : ℕ) → bit_and (bit_or a b) (2 ^ k) ≡ max (bit_and a (2 ^ k)) (bit_and b (2 ^ k))
single-or zero a b = omega (arith, and_one (bit_or a b), and_one a, and_one b, or_step a b)
single-or (suc k) a b =
    let rest : bit_and (bit_or a b / 2) (2 ^ k)
        ≡ max (bit_and (a / 2) (2 ^ k)) (bit_and (b / 2) (2 ^ k)) =
      rw (or_half a b) (single-or k (a / 2) (b / 2)) in
    omega (arith, and_pow k (bit_or a b), and_pow k a, and_pow k b, rest)
