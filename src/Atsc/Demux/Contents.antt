-- ===== src/Atsc/Demux/Contents.antt =====
-- What a copy leaves in a buffer, as lists of bytes.
use seztuner.Prelude.{
  ℕ, zero, suc, ◌+◌, ◌-◌, ◌≤◌, ◌<◌, ◌∷◌, ◌++◌, ◌≡◌, refl, sym, ap, ap₂, ◌∙◌, arith, get_or, take,
  leb, ltb, true, false, length,
}
use seztuner.Atsc.Memory.{Memory, bytes, memcpy}

pub length-bytes : (m : Memory) (p n : ℕ) → length (bytes m p n) ≡ n
length-bytes m p zero = refl
length-bytes m p (suc n) = ap suc (length-bytes m (p + 1) n)

pub bytes-add : (m : Memory) (p a b : ℕ) → bytes m p (a + b) ≡ bytes m p a ++ bytes m (p + a) b
bytes-add m p zero b =
    let start : p ≡ p + 0 = omega arith in
    let count : 0 + b ≡ b = omega arith in ap₂ (bytes m) start count
bytes-add m p (suc a) b =
    let count : suc a + b ≡ suc (a + b) = omega arith in
    let start : p + 1 + a ≡ p + suc a = omega arith in
    ap (bytes m p) count
    ∙ ap (λ l. m p ∷ l) (bytes-add m (p + 1) a b ∙ ap (λ q. bytes m (p + 1) a ++ bytes m q b) start)

pub bytes_ext :
    (m w : Memory) (p q n : ℕ)
    → ((i : ℕ) → i < n → m (p + i) ≡ w (q + i))
    → bytes m p n ≡ bytes w q n
bytes_ext m w p q zero h = refl
bytes_ext m w p q (suc n) h =
    let shift : (x i : ℕ) → x + 1 + i ≡ x + suc i = λ x i. omega arith in
    let zero_end : (x : ℕ) → x ≡ x + 0 = λ x. omega arith in
    ap₂ (λ x l. x ∷ l) (ap m (zero_end p) ∙ h 0 (omega arith) ∙ sym (ap w (zero_end q)))
      (bytes_ext m w (p + 1) (q + 1) n
        (λ i l. ap m (shift p i) ∙ h (suc i) (omega arith) ∙ sym (ap w (shift q i))))

pub get_or-bytes : (m : Memory) (p n i : ℕ) → i < n → get_or (bytes m p n) i 0 ≡ m (p + i)
get_or-bytes m p zero i h = elim h [ ]
get_or-bytes m p (suc n) zero h = ap m (omega arith)
get_or-bytes m p (suc n) (suc i) h =
    get_or-bytes m (p + 1) n i (omega arith) ∙ ap m {x = p + 1 + i} (omega arith)

pub take-bytes : (m : Memory) (p n k : ℕ) → k ≤ n → take k (bytes m p n) ≡ bytes m p k
take-bytes m p n zero h = refl
take-bytes m p zero (suc k) h = elim h [ ]
take-bytes m p (suc n) (suc k) h = ap (λ l. m p ∷ l) (take-bytes m (p + 1) n k (omega arith))

copied :
    (at from n : ℕ) (dst src : Memory) (i : ℕ)
    → i < n
    → memcpy dst at src from n (0 + at + i) ≡ src (from + i)
unfolding memcpy
copied at from n dst src i h =
    let low : leb at (0 + at + i) ≡ true = ground arith in
    let high : ltb (0 + at + i) (at + n) ≡ true = ground arith in
    let offset : from + (0 + at + i - at) ≡ from + i = omega arith in rw (low, high) (ap src offset)

kept :
    (at from n : ℕ) (dst src : Memory) (i : ℕ)
    → i < at
    → memcpy dst at src from n (0 + i) ≡ dst (0 + i)
unfolding memcpy
kept at from n dst src i h = let low : leb at (0 + i) ≡ false = ground arith in rw low

-- The bytes before the copy stay, and the copied ones follow.
pub bytes-memcpy :
    (dst src : Memory) (at from n : ℕ)
    → bytes (memcpy dst at src from n) 0 (at + n) ≡ bytes dst 0 at ++ bytes src from n
bytes-memcpy dst src at from n =
    bytes-add _ 0 at n
    ∙ ap₂ (λ x y. x ++ y) (bytes_ext _ dst 0 0 at (kept at from n dst src))
        (bytes_ext _ src (0 + at) from n (copied at from n dst src))
