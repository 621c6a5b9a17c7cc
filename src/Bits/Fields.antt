-- ===== src/Bits/Fields.antt =====
-- `&` and `|` field by field: the bits `i` to `i + j - 1` of a result come from those of the operands.
use native.Mathlib.Nat.{div-one, mod-one}
use seztuner.Prelude.{
  ℕ, zero, suc, ◌+◌, ◌*◌, ◌/◌, ◌%◌, ◌^◌, ◌<◌, min, max, bit_and, bit_or, ◌≡◌, arith,
}
use seztuner.Bits.Digits.{and_step, or_step}
use seztuner.Bits.Xor.{mod-pow-suc, div-pow-suc}

pub or_half : (a b : ℕ) → bit_or a b / 2 ≡ bit_or (a / 2) (b / 2)
or_half a b = omega (arith, or_step a b)

pub and_half : (a b : ℕ) → bit_and a b / 2 ≡ bit_and (a / 2) (b / 2)
and_half a b = omega (arith, and_step a b)

or_digit : (x y u v : ℕ) → x < 2 → y < 2 → bit_or (x + 2 * u) (y + 2 * v) ≡ max x y + 2 * bit_or u v
or_digit x y u v h k =
    let p : (x + 2 * u) / 2 ≡ u = omega arith in
    let q : (y + 2 * v) / 2 ≡ v = omega arith in
    omega (arith, rw (p, q) at (or_step (x + 2 * u) (y + 2 * v)))

and_digit :
    (x y u v : ℕ) → x < 2 → y < 2 → bit_and (x + 2 * u) (y + 2 * v) ≡ min x y + 2 * bit_and u v
and_digit x y u v h k =
    let p : (x + 2 * u) / 2 ≡ u = omega arith in
    let q : (y + 2 * v) / 2 ≡ v = omega arith in
    omega (arith, rw (p, q) at (and_step (x + 2 * u) (y + 2 * v)))

pub or_div : (k a b : ℕ) → bit_or a b / 2 ^ k ≡ bit_or (a / 2 ^ k) (b / 2 ^ k)
or_div zero a b = simp div-one
or_div (suc k) a b =
    rw (div-pow-suc k (bit_or a b), div-pow-suc k a, div-pow-suc k b, or_half a b)
      (or_div k (a / 2) (b / 2))

pub and_div : (k a b : ℕ) → bit_and a b / 2 ^ k ≡ bit_and (a / 2 ^ k) (b / 2 ^ k)
and_div zero a b = simp div-one
and_div (suc k) a b =
    rw (div-pow-suc k (bit_and a b), div-pow-suc k a, div-pow-suc k b, and_half a b)
      (and_div k (a / 2) (b / 2))

or_mod : (k a b : ℕ) → bit_or a b % 2 ^ k ≡ bit_or (a % 2 ^ k) (b % 2 ^ k)
or_mod zero a b = simp mod-one
or_mod (suc k) a b =
    rw (mod-pow-suc k (bit_or a b), mod-pow-suc k a, mod-pow-suc k b, or_half a b)
      (omega (
        arith,
        or_mod k (a / 2) (b / 2),
        or_step a b,
        or_digit (a % 2) (b % 2) (a / 2 % 2 ^ k) (b / 2 % 2 ^ k) (omega arith) (omega arith),
      ))

and_mod : (k a b : ℕ) → bit_and a b % 2 ^ k ≡ bit_and (a % 2 ^ k) (b % 2 ^ k)
and_mod zero a b = simp mod-one
and_mod (suc k) a b =
    rw (mod-pow-suc k (bit_and a b), mod-pow-suc k a, mod-pow-suc k b, and_half a b)
      (omega (
        arith,
        and_mod k (a / 2) (b / 2),
        and_step a b,
        and_digit (a % 2) (b % 2) (a / 2 % 2 ^ k) (b / 2 % 2 ^ k) (omega arith) (omega arith),
      ))

-- The field of `j` bits from bit `i` on.
unfoldable pub field : ℕ → ℕ → ℕ → ℕ
field i j a = a / 2 ^ i % 2 ^ j

pub field-or : (i j a b : ℕ) → field i j (bit_or a b) ≡ bit_or (field i j a) (field i j b)
unfolding field
field-or i j a b = rw (or_div i a b) (or_mod j (a / 2 ^ i) (b / 2 ^ i))

pub field-and : (i j a b : ℕ) → field i j (bit_and a b) ≡ bit_and (field i j a) (field i j b)
unfolding field
field-and i j a b = rw (and_div i a b) (and_mod j (a / 2 ^ i) (b / 2 ^ i))
