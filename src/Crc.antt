-- ===== src/Crc.antt =====
-- The two checksums of the program, each folded over a buffer a byte at a time with eight
-- conditional exclusive ors: `tuner_calc_crc` (socket.cpp), which guards each packet to and from the
-- tuner, and `mpeg2_crc` (mpgatsc.cpp), which guards each MPEG-2 section. A `u32` is a number below
-- 2 ^ 32. The bit-serial definitions they are compared with are in Crc/Serial.
pub mod Serial
pub mod Reflected
pub mod Forward
pub mod Burst
use seztuner.Prelude.{
  ℕ, ◌+◌, ◌-◌, ◌*◌, ◌/◌, ◌%◌, ◌^◌, bit_and, bit_xor, List, [], ◌∷◌, ◌==◌, if◌then◌else◌,
}

-- `if (x & mask) crc ^= poly;`, once for each row.
unfoldable pub xor_selected : List (ℕ × ℕ) → ℕ → ℕ → ℕ
xor_selected [] x crc = crc
xor_selected ((mask, poly) ∷ rows) x crc =
    xor_selected rows x (if bit_and x mask == 0 then crc else bit_xor crc poly)

abbrev pub tuner_rows : List (ℕ × ℕ)
tuner_rows =
    (0x01, 0x77073096)
    ∷ (0x02, 0xee0e612c)
    ∷ (0x04, 0x076dc419)
    ∷ (0x08, 0x0edb8832)
    ∷ (0x10, 0x1db71064)
    ∷ (0x20, 0x3b6e20c8)
    ∷ (0x40, 0x76dc4190)
    ∷ (0x80, 0xedb88320)
    ∷ []

abbrev pub mpeg2_rows : List (ℕ × ℕ)
mpeg2_rows =
    (0x01, 0x04c11db7)
    ∷ (0x02, 0x09823b6e)
    ∷ (0x04, 0x130476dc)
    ∷ (0x08, 0x2608edb8)
    ∷ (0x10, 0x4c11db70)
    ∷ (0x20, 0x9823b6e0)
    ∷ (0x40, 0x34867077)
    ∷ (0x80, 0x690ce0ee)
    ∷ []

-- One round of the loop of `tuner_calc_crc`: `x` is the low byte of the register against the data.
unfoldable pub tuner_crc_byte : ℕ → ℕ → ℕ
tuner_crc_byte crc b = xor_selected tuner_rows (bit_xor (crc % 256) b) (crc / 256)

unfoldable pub tuner_crc_loop : ℕ → List ℕ → ℕ
tuner_crc_loop crc [] = crc
tuner_crc_loop crc (b ∷ bs) = tuner_crc_loop (tuner_crc_byte crc b) bs

-- `~crc` on 32 bits.
unfoldable pub tuner_calc_crc : List ℕ → ℕ
tuner_calc_crc pkt = 2 ^ 32 - 1 - tuner_crc_loop (2 ^ 32 - 1) pkt

-- One round of the loop of `mpeg2_crc`: `x` is the high byte of the register against the data, and
-- `crc <<= 8` drops it.
unfoldable pub mpeg2_crc_byte : ℕ → ℕ → ℕ
mpeg2_crc_byte crc b = xor_selected mpeg2_rows (bit_xor (crc / 2 ^ 24 % 256) b) (crc * 256 % 2 ^ 32)

unfoldable pub mpeg2_crc_loop : ℕ → List ℕ → ℕ
mpeg2_crc_loop crc [] = crc
mpeg2_crc_loop crc (b ∷ bs) = mpeg2_crc_loop (mpeg2_crc_byte crc b) bs

unfoldable pub mpeg2_crc : List ℕ → ℕ
mpeg2_crc pkt = mpeg2_crc_loop (2 ^ 32 - 1) pkt
