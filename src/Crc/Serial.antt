-- ===== src/Crc/Serial.antt =====
-- The standard bit-serial registers, as an independent description of both checksums: CRC-32 shifts
-- right through the reflected polynomial 0xedb88320, CRC-32/MPEG-2 shifts left through 0x04c11db7.
use seztuner.Prelude.{
  ℕ, zero, suc, ◌*◌, ◌/◌, ◌%◌, ◌^◌, bit_xor, List, [], ◌∷◌, ◌==◌, ltb, if◌then◌else◌,
}

-- One clock of the right-shifting register.
unfoldable pub shift_right : ℕ → ℕ
shift_right c = bit_xor (c / 2) (if c % 2 == 1 then 0xedb88320 else 0)

-- One clock of the left-shifting register.
unfoldable pub shift_left : ℕ → ℕ
shift_left c = bit_xor (2 * c % 2 ^ 32) (if ltb c (2 ^ 31) then 0 else 0x04c11db7)

-- `n` clocks.
abbrev pub clocks : (ℕ → ℕ) → ℕ → ℕ → ℕ
clocks step zero c = c
clocks step (suc n) c = clocks step n (step c)

-- A byte enters at the low end, lowest bit first.
unfoldable pub crc32_serial : ℕ → List ℕ → ℕ
crc32_serial c [] = c
crc32_serial c (b ∷ bs) = crc32_serial (clocks shift_right 8 (bit_xor c b)) bs

-- A byte enters at the high end, highest bit first.
unfoldable pub crc32_mpeg2_serial : ℕ → List ℕ → ℕ
crc32_mpeg2_serial c [] = c
crc32_mpeg2_serial c (b ∷ bs) = crc32_mpeg2_serial (clocks shift_left 8 (bit_xor c (b * 2 ^ 24))) bs
