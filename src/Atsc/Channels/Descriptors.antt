-- ===== src/Atsc/Channels/Descriptors.antt =====
-- When `parse_descriptors` (mpgatsc.cpp) stays within its table.
use seztuner.Prelude.{
  ℕ, zero, suc, ◌+◌, ◌-◌, ◌*◌, ◌%◌, ◌^◌, ◌≤◌, ◌<◌, ◌≡◌, refl, arith, none, some, IsByte,
}
use seztuner.Atsc.Memory.{Memory}
use seztuner.Atsc.Channels.{parse_descriptors}

-- `n` descriptors stand one after the other in `len` bytes from `pos` on, and leave `left` bytes.
pub data Chain (pkt : Memory) : ℕ → ℕ → ℕ → Type 0 where
  end : {pos left : ℕ} → left < 2 → Chain pkt pos left left
  next :
      {pos len left : ℕ}
      → Chain pkt (pos + 2 + pkt (pos + 1)) len left
      → Chain pkt pos (len + (2 + pkt (pos + 1))) left

Chain-le : {pkt : Memory} {pos len left : ℕ} → Chain pkt pos len left → left ≤ len
Chain-le (end l) = omega arith
Chain-le (next c) = omega (arith, Chain-le c)

-- Descriptors that fit into a length below 2 ^ 32 are walked to their end, and the loop stops there, at
-- most one byte before the end of the table, on fuel that exceeds the length.
pub parse_descriptors-Chain :
    (fuel : ℕ) (pkt : Memory) {pos len left : ℕ}
    → Chain pkt pos len left
    → len < fuel
    → len < 2 ^ 32
    → parse_descriptors fuel pkt pos len ≡ some (pos + (len - left), left)
unfolding parse_descriptors
parse_descriptors-Chain zero pkt c h w = elim h [ ]
parse_descriptors-Chain (suc fuel) pkt (end {pos = p} {left = n} l) h w = ground arith
parse_descriptors-Chain (suc fuel) pkt (next {pos = p} {len = n} {left = l} c) h w =
    let d = pkt (p + 1) in
    let whole : (n + (2 + d) - 2 + 2 ^ 32 - d) % 2 ^ 32 ≡ n = omega arith in
    let walk = parse_descriptors-Chain fuel pkt c (omega arith) (omega arith) in
    ground (arith, whole, walk, Chain-le c)

-- No round uses more than 257 bytes, so a wrapped length keeps the loop going.
long_way :
    (fuel : ℕ) (pkt : Memory) (pos len : ℕ)
    → ((i : ℕ) → IsByte (pkt i))
    → fuel * 257 + 2 ≤ len
    → len < 2 ^ 32
    → parse_descriptors fuel pkt pos len ≡ none
unfolding parse_descriptors
long_way zero pkt pos len b h w = refl
long_way (suc fuel) pkt pos len b h w = ground (
  arith,
  b (pos + 1),
  long_way fuel pkt (pos + 2 + pkt (pos + 1)) ((len - 2 + 2 ^ 32 - pkt (pos + 1)) % 2 ^ 32) b,
)

-- A descriptor in a buffer of bytes that claims more than its table has left makes the unsigned length
-- wrap: the loop then has not ended after sixteen million rounds.
pub parse_descriptors_overrun :
    (fuel : ℕ) (pkt : Memory) (pos len : ℕ)
    → ((i : ℕ) → IsByte (pkt i))
    → 2 ≤ len
    → len < 2 + pkt (pos + 1)
    → fuel ≤ 16000000
    → parse_descriptors fuel pkt pos len ≡ none
unfolding parse_descriptors
parse_descriptors_overrun zero pkt pos len b h over few = refl
parse_descriptors_overrun (suc fuel) pkt pos len b h over few = ground (
  arith,
  b (pos + 1),
  long_way fuel pkt (pos + 2 + pkt (pos + 1)) ((len - 2 + 2 ^ 32 - pkt (pos + 1)) % 2 ^ 32) b,
)
