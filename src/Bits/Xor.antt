-- ===== src/Bits/Xor.antt =====
-- Exclusive or as a group operation, and how it passes shifts, remainders and bounds.
use Prim.Native.Nat.{bit_xor-bitwise}
use native.Mathlib.Nat.{
  zero-add, mul-one, pow-suc, pow-succ', div-div-eq-div-mul, div-add-mod, div-one, mod-one,
}
use native.Mathlib.Nat.{mod-lt, mod-eq_of_lt, mul-add-mod_self_right, one-le-pow}
use seztuner.Prelude.{
  ℕ, zero, suc, ◌+◌, ◌*◌, ◌/◌, ◌%◌, ◌^◌, ◌≤◌, ◌<◌, bit_xor, ◌≡◌, refl, sym, ap, ◌∙◌, arith,
}
use seztuner.Bits.Digits.{xor_step}

pub xor_half : (a b : ℕ) → bit_xor a b / 2 ≡ bit_xor (a / 2) (b / 2)
xor_half a b = omega (arith, xor_step a b)

pub xor_parity : (a b : ℕ) → bit_xor a b % 2 ≡ (a + b) % 2
xor_parity a b = omega (arith, xor_step a b)

-- The number of halvings bounds each induction on two operands.
xor_comm_within : (n a b : ℕ) → a ≤ n → b ≤ n → bit_xor a b ≡ bit_xor b a
xor_comm_within zero zero zero h k = refl
xor_comm_within zero zero (suc b) h k = elim k [ ]
xor_comm_within zero (suc a) b h k = elim h [ ]
xor_comm_within (suc n) a b h k = omega (
  arith,
  xor_step a b,
  xor_step b a,
  xor_comm_within n (a / 2) (b / 2) (omega arith) (omega arith),
)

pub xor_comm : (a b : ℕ) → bit_xor a b ≡ bit_xor b a
xor_comm a b = xor_comm_within (a + b) a b (omega arith) (omega arith)

xor_assoc_within :
    (n a b c : ℕ) → a ≤ n → b ≤ n → c ≤ n → bit_xor (bit_xor a b) c ≡ bit_xor a (bit_xor b c)
xor_assoc_within zero zero zero zero h k l = refl
xor_assoc_within zero (suc a) b c h k l = elim h [ ]
xor_assoc_within zero zero (suc b) c h k l = elim k [ ]
xor_assoc_within zero zero zero (suc c) h k l = elim l [ ]
xor_assoc_within (suc n) a b c h k l =
    let left : bit_xor (bit_xor a b) c
        ≡ (a + b + c) % 2 + 2 * bit_xor (bit_xor (a / 2) (b / 2)) (c / 2) =
      rw (← xor_half a b) (omega (arith, xor_step (bit_xor a b) c, xor_parity a b)) in
    let right : bit_xor a (bit_xor b c)
        ≡ (a + b + c) % 2 + 2 * bit_xor (a / 2) (bit_xor (b / 2) (c / 2)) =
      rw (← xor_half b c) (omega (arith, xor_step a (bit_xor b c), xor_parity b c)) in
    omega (
      arith,
      left,
      right,
      xor_assoc_within n (a / 2) (b / 2) (c / 2) (omega arith) (omega arith) (omega arith),
    )

pub xor_assoc : (a b c : ℕ) → bit_xor (bit_xor a b) c ≡ bit_xor a (bit_xor b c)
xor_assoc a b c = xor_assoc_within (a + b + c) a b c (omega arith) (omega arith) (omega arith)

pub zero-xor : (a : ℕ) → bit_xor 0 a ≡ a
zero-xor a = bit_xor-bitwise 0 a

pub xor-zero : (a : ℕ) → bit_xor a 0 ≡ a
xor-zero a = xor_comm a 0 ∙ zero-xor a

xor_self_within : (n a : ℕ) → a ≤ n → bit_xor a a ≡ 0
xor_self_within zero zero h = refl
xor_self_within zero (suc a) h = elim h [ ]
xor_self_within (suc n) a h = omega (arith, xor_step a a, xor_self_within n (a / 2) (omega arith))

pub xor_self : (a : ℕ) → bit_xor a a ≡ 0
xor_self a = xor_self_within a a (omega arith)

pub xor_cancel : (a b : ℕ) → bit_xor (bit_xor a b) b ≡ a
xor_cancel a b = rw (xor_assoc, xor_self) (xor-zero a)

pub xor_cancel_left : (a b : ℕ) → bit_xor a (bit_xor a b) ≡ b
xor_cancel_left a b = rw (← xor_assoc a a b, xor_self) (zero-xor b)

-- `(a ^ b) ^ (c ^ d)` with the middle two exchanged.
pub xor_middle :
    (a b c d : ℕ) → bit_xor (bit_xor a b) (bit_xor c d) ≡ bit_xor (bit_xor a c) (bit_xor b d)
xor_middle a b c d =
    xor_assoc a b (bit_xor c d)
    ∙ ap (bit_xor a)
        (sym (xor_assoc b c d) ∙ ap (λ t. bit_xor t d) (xor_comm b c) ∙ xor_assoc c b d)
    ∙ sym (xor_assoc a c (bit_xor b d))

-- A digit in front of two numbers.
pub xor_digit :
    (x y u v : ℕ) → x < 2 → y < 2 → bit_xor (x + 2 * u) (y + 2 * v) ≡ (x + y) % 2 + 2 * bit_xor u v
xor_digit x y u v h k =
    let p : (x + 2 * u) / 2 ≡ u = omega arith in
    let q : (y + 2 * v) / 2 ≡ v = omega arith in
    let s : bit_xor (x + 2 * u) (y + 2 * v) ≡ (x + 2 * u + (y + 2 * v)) % 2 + 2 * bit_xor u v =
      rw (p, q) at (xor_step (x + 2 * u) (y + 2 * v)) in
    omega (arith, s)

pub xor_double : (a b : ℕ) → bit_xor (2 * a) (2 * b) ≡ 2 * bit_xor a b
xor_double a b =
    let e : bit_xor (0 + 2 * a) (0 + 2 * b) ≡ 2 * bit_xor a b =
      omega (arith, xor_digit 0 0 a b (omega arith) (omega arith)) in
    simp zero-add at e

pub xor-pow : (k a b : ℕ) → a < 2 ^ k → b < 2 ^ k → bit_xor a b < 2 ^ k
xor-pow zero zero zero h l = omega arith
xor-pow zero (suc a) b h l = absurd (omega arith)
xor-pow zero zero (suc b) h l = absurd (omega arith)
xor-pow (suc k) a b h l = omega (
  arith,
  pow-suc 2 k,
  xor_step a b,
  xor-pow k (a / 2) (b / 2) (omega (arith, pow-suc 2 k)) (omega (arith, pow-suc 2 k)),
)

-- One halving of a quotient or a remainder by `2 ^ k`.
pub div-pow-suc : (k a : ℕ) → a / 2 ^ suc k ≡ a / 2 / 2 ^ k
div-pow-suc k a = rw (div-div-eq-div-mul a 2 (2 ^ k), ← pow-succ' 2 k)

pub mod-pow-suc : (k a : ℕ) → a % 2 ^ suc k ≡ a % 2 + 2 * (a / 2 % 2 ^ k)
mod-pow-suc k a =
    let halves = a / 2 in
    let q = halves / 2 ^ k in
    let r = halves % 2 ^ k in
    let small : a % 2 + 2 * r < 2 ^ suc k =
      omega (arith, pow-suc 2 k, mod-lt halves (one-le-pow k 2 (omega arith))) in
    let whole : a ≡ q * 2 ^ suc k + (a % 2 + 2 * r) =
      omega (arith, div-add-mod halves (2 ^ k), ap (λ (t : ℕ). q * t) (pow-suc 2 k)) in
    ap (λ t. t % 2 ^ suc k) whole
    ∙ mul-add-mod_self_right q (2 ^ suc k) (a % 2 + 2 * r)
    ∙ mod-eq_of_lt small

-- Dividing by `2 ^ k` drops the same digits of both operands, and the remainder keeps them.
pub xor_div : (k a b : ℕ) → bit_xor a b / 2 ^ k ≡ bit_xor (a / 2 ^ k) (b / 2 ^ k)
xor_div zero a b = simp div-one
xor_div (suc k) a b =
    rw (div-pow-suc k (bit_xor a b), div-pow-suc k a, div-pow-suc k b, xor_half a b)
      (xor_div k (a / 2) (b / 2))

pub xor_mod : (k a b : ℕ) → bit_xor a b % 2 ^ k ≡ bit_xor (a % 2 ^ k) (b % 2 ^ k)
xor_mod zero a b = simp mod-one
xor_mod (suc k) a b =
    let u = a / 2 % 2 ^ k in
    let v = b / 2 % 2 ^ k in
    rw (mod-pow-suc k (bit_xor a b), mod-pow-suc k a, mod-pow-suc k b, xor_half a b)
      (omega (
        arith,
        xor_mod k (a / 2) (b / 2),
        xor_parity a b,
        xor_digit (a % 2) (b % 2) u v (omega arith) (omega arith),
      ))

-- A multiple of `2 ^ k` and a number below it share no digit.
pub xor_disjoint : (k h x : ℕ) → x < 2 ^ k → bit_xor (h * 2 ^ k) x ≡ h * 2 ^ k + x
xor_disjoint zero h zero l = omega (arith, xor-zero (h * 1))
xor_disjoint zero h (suc x) l = absurd (omega arith)
xor_disjoint (suc k) h x l =
    let even : h * 2 ^ suc k ≡ 2 * (h * 2 ^ k) =
      omega (arith, ap (λ (t : ℕ). h * t) (pow-suc 2 k)) in
    let half : h * 2 ^ suc k / 2 ≡ h * 2 ^ k = omega (arith, even) in
    let rest : bit_xor (h * 2 ^ suc k / 2) (x / 2) ≡ h * 2 ^ k + x / 2 =
      rw half (xor_disjoint k h (x / 2) (omega (arith, pow-suc 2 k))) in
    omega (arith, xor_step (h * 2 ^ suc k) x, rest, even)

-- A common power of two factors out.
pub xor_scale : (k a b : ℕ) → bit_xor (a * 2 ^ k) (b * 2 ^ k) ≡ bit_xor a b * 2 ^ k
xor_scale zero a b = simp mul-one
xor_scale (suc k) a b =
    let p : a * 2 ^ suc k ≡ 2 * (a * 2 ^ k) = omega (arith, ap (λ (t : ℕ). a * t) (pow-suc 2 k)) in
    let q : b * 2 ^ suc k ≡ 2 * (b * 2 ^ k) = omega (arith, ap (λ (t : ℕ). b * t) (pow-suc 2 k)) in
    let r : bit_xor a b * 2 ^ suc k ≡ 2 * (bit_xor a b * 2 ^ k) =
      omega (arith, ap (λ (t : ℕ). bit_xor a b * t) (pow-suc 2 k)) in
    rw (p, q, r, xor_double (a * 2 ^ k) (b * 2 ^ k), xor_scale k a b)
