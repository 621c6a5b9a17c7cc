-- ===== src/Crc/Reflected.antt =====
-- `tuner_calc_crc` (socket.cpp) and the bit-serial CRC-32.
use seztuner.Prelude.{
  ℕ, zero, suc, ◌-◌, ◌*◌, ◌/◌, ◌%◌, ◌^◌, ◌<◌, bit_and, bit_xor, List, [], ◌∷◌, All, ◌≡◌, refl, sym,
  ap, ◌∙◌, arith, ◌==◌, true, inl, inr, Bool-cases, IsByte, if◌then◌else◌,
}
use seztuner.Bits.Masks.{agree_below, agree_below→eq}
use seztuner.Bits.Xor.{xor_half, xor_parity, xor_assoc, xor-zero, zero-xor, xor-pow, xor_disjoint}
use seztuner.Crc.{xor_selected, tuner_rows, tuner_crc_byte, tuner_crc_loop, tuner_calc_crc}
use seztuner.Crc.Serial.{shift_right, clocks, crc32_serial}

-- What the rows contribute does not depend on what they are added to.
pub xor_selected-xor :
    (rows : List (ℕ × ℕ)) (x c : ℕ) → xor_selected rows x c ≡ bit_xor c (xor_selected rows x 0)
unfolding xor_selected
xor_selected-xor [] x c = sym (xor-zero c)
xor_selected-xor ((mask, poly) ∷ rows) x c = elim (Bool-cases (bit_and x mask == 0)) [
  | inl e ↦ rw e (xor_selected-xor rows x c)
  | inr e ↦ rw e (
      rw
        (
          xor_selected-xor rows x (bit_xor c poly),
          xor_selected-xor rows x (bit_xor 0 poly),
          zero-xor poly,
        )
        (xor_assoc c poly (xor_selected rows x 0)))
]

-- A bit that stands above the feedback passes through.
pub shift_right-xor : (a c : ℕ) → shift_right (bit_xor (2 * a) c) ≡ bit_xor a (shift_right c)
unfolding shift_right
shift_right-xor a c =
    let p : bit_xor (2 * a) c / 2 ≡ bit_xor a (c / 2) =
      xor_half (2 * a) c ∙ ap (λ t. bit_xor t (c / 2)) (omega arith) in
    let q : bit_xor (2 * a) c % 2 ≡ c % 2 = omega (arith, xor_parity (2 * a) c) in
    rw (p, q) (xor_assoc a (c / 2) (if c % 2 == 1 then 0xedb88320 else 0))

abbrev pub doublings : ℕ → ℕ → ℕ
doublings zero a = a
doublings (suc n) a = 2 * doublings n a

pub clocks-xor :
    (n a c : ℕ)
    → clocks shift_right n (bit_xor (doublings n a) c) ≡ bit_xor a (clocks shift_right n c)
clocks-xor zero a c = refl
clocks-xor (suc n) a c = rw (shift_right-xor (doublings n a) c) (clocks-xor n a (shift_right c))

-- The eight constants are the bit-serial results of the eight bits of a byte.
rows_table : agree_below 256 (λ x. xor_selected tuner_rows x 0) (λ x. clocks shift_right 8 x) ≡ true
unfolding agree_below xor_selected shift_right
rows_table = refl

pub tuner_crc_byte-clocks :
    (c b : ℕ) → b < 256 → tuner_crc_byte c b ≡ clocks shift_right 8 (bit_xor c b)
unfolding tuner_crc_byte
tuner_crc_byte-clocks c b h =
    let x = bit_xor (c % 256) b in
    let byte : x < 256 = xor-pow 8 (c % 256) b (omega arith) h in
    let split : bit_xor (doublings 8 (c / 256)) (c % 256) ≡ c =
      ap (λ t. bit_xor t (c % 256)) (omega arith)
      ∙ xor_disjoint 8 (c / 256) (c % 256) (omega arith)
      ∙ omega arith in
    xor_selected-xor tuner_rows x (c / 256)
    ∙ ap (bit_xor (c / 256)) (agree_below→eq 256 _ _ rows_table x byte)
    ∙ sym (clocks-xor 8 (c / 256) x)
    ∙ ap (clocks shift_right 8)
        (sym (xor_assoc (doublings 8 (c / 256)) (c % 256) b) ∙ ap (λ t. bit_xor t b) split)

pub tuner_crc_loop-serial :
    (c : ℕ) (bs : List ℕ) → All IsByte bs → tuner_crc_loop c bs ≡ crc32_serial c bs
unfolding tuner_crc_loop crc32_serial
tuner_crc_loop-serial c [] h = refl
tuner_crc_loop-serial c (b ∷ bs) (h, hs) =
    rw (tuner_crc_byte-clocks c b h)
      (tuner_crc_loop-serial (clocks shift_right 8 (bit_xor c b)) bs hs)

-- On every buffer of bytes the table-driven tuner_calc_crc is the complement of the bit-serial CRC-32
-- register, started at all ones.
pub tuner_calc_crc-serial :
    (pkt : List ℕ)
    → All IsByte pkt
    → tuner_calc_crc pkt ≡ 2 ^ 32 - 1 - crc32_serial (2 ^ 32 - 1) pkt
unfolding tuner_calc_crc
tuner_calc_crc-serial pkt h = rw (tuner_crc_loop-serial (2 ^ 32 - 1) pkt h)
