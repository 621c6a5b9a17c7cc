-- ===== src/Crc/Forward.antt =====
-- `mpeg2_crc` (mpgatsc.cpp) and the bit-serial CRC-32/MPEG-2.
use seztuner.Prelude.{
  ℕ, zero, suc, ◌-◌, ◌*◌, ◌/◌, ◌%◌, ◌^◌, ◌≤◌, ◌<◌, bit_xor, List, [], ◌∷◌, All, ◌≡◌, refl, sym, ap,
  ◌∙◌, arith, true, IsByte, ltb, if◌then◌else◌,
}
use seztuner.Bits.Masks.{agree_below, agree_below→eq}
use seztuner.Bits.Xor.{
  xor_comm, xor_assoc, xor-pow, xor_div, xor_mod, xor_double, xor_disjoint, xor_scale, zero-xor,
}
use seztuner.Crc.{xor_selected, mpeg2_rows, mpeg2_crc_byte, mpeg2_crc_loop, mpeg2_crc}
use seztuner.Crc.Serial.{shift_left, clocks, crc32_mpeg2_serial}
use seztuner.Crc.Reflected.{xor_selected-xor}

same_top : (a c : ℕ) → a / 2 ^ 31 ≡ c / 2 ^ 31 → ltb a (2 ^ 31) ≡ ltb c (2 ^ 31)
same_top a c h = ground arith

-- A bit that does not reach the top passes through.
shift_left-xor : (a c : ℕ) → a < 2 ^ 31 → shift_left (bit_xor a c) ≡ bit_xor (2 * a) (shift_left c)
unfolding shift_left
shift_left-xor a c h =
    let top : bit_xor a c / 2 ^ 31 ≡ c / 2 ^ 31 =
      xor_div 31 a c ∙ ap (λ t. bit_xor t (c / 2 ^ 31)) (omega arith) ∙ zero-xor (c / 2 ^ 31) in
    let shifted : 2 * bit_xor a c % 2 ^ 32 ≡ bit_xor (2 * a) (2 * c % 2 ^ 32) =
      ap (λ t. t % 2 ^ 32) (sym (xor_double a c))
      ∙ xor_mod 32 (2 * a) (2 * c)
      ∙ ap (λ t. bit_xor t (2 * c % 2 ^ 32)) (omega arith) in
    rw (shifted, same_top (bit_xor a c) c top)
      (xor_assoc (2 * a) (2 * c % 2 ^ 32) (if ltb c (2 ^ 31) then 0 else 0x04c11db7))

abbrev doubled : ℕ → ℕ → ℕ
doubled zero a = a
doubled (suc n) a = doubled n (2 * a)

le-doubled : (n a : ℕ) → a ≤ doubled n a
le-doubled zero a = omega arith
le-doubled (suc n) a = omega (arith, le-doubled n (2 * a))

clocks_left-xor :
    (n a c : ℕ)
    → doubled n a < 2 ^ 32
    → clocks shift_left n (bit_xor a c) ≡ bit_xor (doubled n a) (clocks shift_left n c)
clocks_left-xor zero a c h = refl
clocks_left-xor (suc n) a c h =
    rw (shift_left-xor a c (omega (arith, le-doubled n (2 * a))))
      (clocks_left-xor n (2 * a) (shift_left c) h)

-- The eight constants are the bit-serial results of the eight bits of a byte.
rows_table :
    agree_below 256 (λ x. xor_selected mpeg2_rows x 0) (λ x. clocks shift_left 8 (x * 2 ^ 24))
    ≡ true
unfolding agree_below xor_selected shift_left
rows_table = refl

mpeg2_crc_byte-clocks :
    (c b : ℕ)
    → c < 2 ^ 32
    → IsByte b
    → mpeg2_crc_byte c b ≡ clocks shift_left 8 (bit_xor c (b * 2 ^ 24))
unfolding mpeg2_crc_byte
mpeg2_crc_byte-clocks c b h hb =
    let x = bit_xor (c / 2 ^ 24 % 256) b in
    let low = c % 2 ^ 24 in
    let byte : x < 256 = xor-pow 8 (c / 2 ^ 24 % 256) b (omega arith) hb in
    let split : bit_xor low (c / 2 ^ 24 % 256 * 2 ^ 24) ≡ c =
      xor_comm low (c / 2 ^ 24 % 256 * 2 ^ 24)
      ∙ xor_disjoint 24 (c / 2 ^ 24 % 256) low (omega arith)
      ∙ omega arith in
    xor_selected-xor mpeg2_rows x (c * 256 % 2 ^ 32)
    ∙ ap (bit_xor (c * 256 % 2 ^ 32)) (agree_below→eq 256 _ _ rows_table x byte)
    ∙ ap (λ t. bit_xor t (clocks shift_left 8 (x * 2 ^ 24))) (omega arith)
    ∙ sym (clocks_left-xor 8 low (x * 2 ^ 24) (omega arith))
    ∙ ap (clocks shift_left 8) (
        ap (bit_xor low) (sym (xor_scale 24 (c / 2 ^ 24 % 256) b))
        ∙ sym (xor_assoc low (c / 2 ^ 24 % 256 * 2 ^ 24) (b * 2 ^ 24))
        ∙ ap (λ t. bit_xor t (b * 2 ^ 24)) split)

shift_left-lt : (c : ℕ) → shift_left c < 2 ^ 32
unfolding shift_left
shift_left-lt c = xor-pow 32 (2 * c % 2 ^ 32) _ (omega arith) (ground arith)

mpeg2_crc_loop-serial :
    (c : ℕ) (bs : List ℕ)
    → c < 2 ^ 32
    → All IsByte bs
    → mpeg2_crc_loop c bs ≡ crc32_mpeg2_serial c bs
unfolding mpeg2_crc_loop crc32_mpeg2_serial
mpeg2_crc_loop-serial c [] h hs = refl
mpeg2_crc_loop-serial c (b ∷ bs) h (hb, hs) =
    let c' = clocks shift_left 8 (bit_xor c (b * 2 ^ 24)) in
    rw (mpeg2_crc_byte-clocks c b h hb) (mpeg2_crc_loop-serial c' bs (shift_left-lt _) hs)

-- On every buffer of bytes the table-driven mpeg2_crc is the bit-serial CRC-32/MPEG-2 register, started
-- at all ones.
pub mpeg2_crc-serial :
    (pkt : List ℕ) → All IsByte pkt → mpeg2_crc pkt ≡ crc32_mpeg2_serial (2 ^ 32 - 1) pkt
unfolding mpeg2_crc
mpeg2_crc-serial pkt h = mpeg2_crc_loop-serial (2 ^ 32 - 1) pkt (omega arith) h
