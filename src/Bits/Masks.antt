-- ===== src/Bits/Masks.antt =====
-- Masks of low bits as remainders, and facts about bytes checked at all 256 values.
use native.Mathlib.Nat.{pow-suc, one-le-pow}
use seztuner.Prelude.{
  ℕ, zero, suc, ◌+◌, ◌-◌, ◌*◌, ◌/◌, ◌%◌, ◌^◌, ◌≤◌, ◌<◌, min, bit_and, ◌≡◌, refl, arith, Bool, true,
  ◌&&◌, ◌==◌, ==→eq,
}
use seztuner.Bits.Digits.{and_step}
use seztuner.Bits.Xor.{mod-pow-suc}

and-zero_within : (n a : ℕ) → a ≤ n → bit_and a 0 ≡ 0
and-zero_within zero zero h = refl
and-zero_within zero (suc a) h = elim h [ ]
and-zero_within (suc n) a h = omega (arith, and_step a 0, and-zero_within n (a / 2) (omega arith))

pub and-zero : (a : ℕ) → bit_and a 0 ≡ 0
and-zero a = and-zero_within a a (omega arith)

-- `a & (2 ^ k - 1)` is the remainder by `2 ^ k`.
pub and_mask : (k a : ℕ) → bit_and a (2 ^ k - 1) ≡ a % 2 ^ k
and_mask zero a = omega (arith, and-zero a)
and_mask (suc k) a =
    let pos : 1 ≤ 2 ^ k = one-le-pow k 2 (omega arith) in
    let half : (2 ^ suc k - 1) / 2 ≡ 2 ^ k - 1 = omega (arith, pow-suc 2 k) in
    let odd : (2 ^ suc k - 1) % 2 ≡ 1 = omega (arith, pow-suc 2 k) in
    let s : bit_and a (2 ^ suc k - 1)
        ≡ min (a % 2) ((2 ^ suc k - 1) % 2) + 2 * bit_and (a / 2) (2 ^ k - 1) =
      rw half at (and_step a (2 ^ suc k - 1)) in
    omega (arith, s, odd, and_mask k (a / 2), mod-pow-suc k a)

all_below : ℕ → (ℕ → Bool) → Bool
all_below zero p = true
all_below (suc n) p = p n && all_below n p

all_below-true : (n : ℕ) (p : ℕ → Bool) (x : ℕ) → all_below n p ≡ true → x < n → p x ≡ true
unfolding all_below
all_below-true zero p x h l = absurd (omega arith)
all_below-true (suc n) p x h l = ground (arith, all_below-true n p x)

-- Two functions that agree on a checked range agree at every number in it.
unfoldable pub agree_below : ℕ → (ℕ → ℕ) → (ℕ → ℕ) → Bool
unfolding all_below
agree_below n f g = all_below n (λ x. f x == g x)

pub agree_below→eq : (n : ℕ) (f g : ℕ → ℕ) → agree_below n f g ≡ true → (x : ℕ) → x < n → f x ≡ g x
unfolding agree_below
agree_below→eq n f g h x l = ==→eq (f x) (g x) (all_below-true n _ x h l)
