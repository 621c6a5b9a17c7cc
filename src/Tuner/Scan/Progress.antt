-- ===== src/Tuner/Scan/Progress.antt =====
-- What the callback of `scan` (tuner.cpp) is told.
use seztuner.Prelude.{
  ℕ, ◌+◌, ◌-◌, ◌*◌, ◌/◌, ◌%◌, ◌^◌, ◌≤◌, ◌<◌, ◌≡◌, ap, arith, List, Bool, true, false, length, leb,
  Bool-cases, inl, inr,
}
use native.Mathlib.Nat.{div-le_of_le-mul, mul-le-mul}
use seztuner.Bits.Masks.{and_mask}
use seztuner.Tuner.{Antenna, nc, ant1, ant2, coax}
use seztuner.Tuner.Scan.{sequence, antenna_share, interpolate, count_from, last_found, progress}

sequence-parity : (i : ℕ) → sequence i ≡ i / 4 + i % 2 * 13
unfolding sequence
sequence-parity i = ap (λ b. i / 4 + b * 13) (and_mask 1 i)

-- The place of a channel that was found in the round at position `p`, as that of the next round at most.
sequence-next : (p j : ℕ) → j < 2 → sequence (p + j * 2 + 2) ≤ sequence p + 1
sequence-next p j h = omega (arith, h, sequence-parity p, sequence-parity (p + j * 2 + 2))

count_from_bound : (i : ℕ) → i ≤ 50 → count_from i ≤ 26
unfolding count_from
count_from_bound i h = ground (arith, h, sequence-parity (i - 1))

antenna_share_bound : (ant : Antenna) → antenna_share ant ≤ 50
antenna_share_bound nc = omega arith
antenna_share_bound ant1 = omega arith
antenna_share_bound ant2 = omega arith
antenna_share_bound coax = omega arith

product_below : (x y m n : ℕ) → x ≤ m → y ≤ n → x * y ≤ m * n
product_below x y m n h k = mul-le-mul h k

-- A share of what is left is no more than what is left.
share_of : (x y left : ℕ) → x ≤ left → left ≤ 26 → y ≤ 76 → x * y % 2 ^ 32 / left ≤ y
share_of x y left h k l =
    let small : x * y ≤ 26 * 76 = product_below x y 26 76 (omega (arith, h, k)) l in
    let part : x * y ≤ left * y = product_below x y left y h (omega arith) in
    div-le_of_le-mul left (omega (arith, small, part))

interpolate_bound :
    (i found_i share : ℕ)
    → i ≤ 26
    → found_i < i
    → share ≤ 50
    → interpolate i found_i share + share ≤ 76
unfolding interpolate
interpolate_bound i found_i share h k l =
    let moved : (i + 2 ^ 32 - found_i) % 2 ^ 32 ≡ i - found_i = omega (arith, h, k) in
    let y = 75 - (found_i + share) + 1 in
    let part =
      share_of (i - found_i) y (25 - found_i + 1) (omega (arith, h, k)) (omega arith)
        (omega (arith, l)) in
    rw moved (ground (arith, part, h, k, l))

-- The last channel that was found belongs to a round before the one that starts at position `i - 1`.
pub record FoundBefore (i : ℕ) (find : List ℕ) : Type 0 where
  pub position : ℕ
  pub receiver : ℕ
  pub exists : receiver < 2
  pub earlier : sequence position < sequence (i - 1)
  pub channel : last_found find ≡ position + receiver * 2 + 2

FoundBefore-behind :
    (i : ℕ) (find : List ℕ) → FoundBefore i find → sequence (last_found find) < count_from i
unfolding count_from
FoundBefore-behind i find h =
    let next = sequence-next h.position h.receiver h.exists in
    let here : sequence (last_found find) ≤ sequence h.position + 1 = rw h.channel next in
    let later = h.earlier in ground (arith, here, later, sequence-parity (i - 1))

-- At each position up to 50 and for each antenna the callback of a scan is told a progress of at most
-- the maximum that it is told with it, when the last of three or more channels that were found was found
-- in an earlier round of the same pass.
pub progress_bound :
    (i : ℕ) (ant : Antenna) (ant_valid : Bool) (find : List ℕ)
    → i ≤ 50
    → (3 ≤ length find → FoundBefore i find)
    → (progress i ant ant_valid find).0 ≤ (progress i ant ant_valid find).1
unfolding progress
progress_bound i ant true find h k = let few = count_from_bound i h in omega (arith, few)
progress_bound i ant false find h k = elim (Bool-cases (leb 3 (length find))) [
  | inl c ↦
      let behind = FoundBefore-behind i find (k (ground (arith, c))) in
      let bound =
        interpolate_bound (count_from i) (sequence (last_found find)) (antenna_share ant)
          (count_from_bound i h) behind (antenna_share_bound ant) in
      ground (arith, c, bound)
  | inr c ↦
      let few = count_from_bound i h in
      let share = antenna_share_bound ant in ground (arith, c, few, share)
]
