-- ===== src/Atsc/Section/Accepted.antt =====
-- Which section headers `mpg_parse_hdr` (mpgatsc.cpp) accepts.
use seztuner.Prelude.{
  ℕ, ◌+◌, ◌-◌, ◌*◌, ◌/◌, ◌%◌, ◌^◌, ◌≤◌, ◌≡◌, ◌≢◌, ◌⊎◌, ◌↔◌, arith, ap, sym, ◌∙◌, true, bit_and,
}
use seztuner.Bits.Digits.{and_step}
use seztuner.Bits.Masks.{and-zero, and_mask}
use seztuner.Crc.{mpeg2_crc}
use seztuner.Atsc.Memory.{Memory, be16, bytes}
use seztuner.Atsc.Section.{
  Header, check_room, check_numbers, version_field, check_version, crc_correct, parse_long,
  mpg_parse_hdr,
}

-- What must hold of every section: the table id, and the checksum in its last four bytes.
pub record Intact (pkt : Memory) (len pos tblid : ℕ) : Type 0 where
  pub table : pkt pos ≡ tblid
  pub has_crc : 4 ≤ len
  pub checked :
      pkt (pos + len - 4) * 2 ^ 24
        + pkt (pos + len - 3) * 2 ^ 16
        + pkt (pos + len - 2) * 256
        + pkt (pos + len - 1)
      ≡ mpeg2_crc (bytes pkt pos (len - 4))

-- The five bits of a version number are `b / 2 % 32`. This is the number without its bit of weight 8.
unfoldable pub read_version : ℕ → ℕ
read_version b = b / 2 % 8 + b / 32 % 2 * 16

-- What must hold of a long header: the table is in force, it is the only one, its version is the first
-- seen or what is read of it follows the last, and there is room for the header and a checksum.
pub record Current (pkt : Memory) (len pos ver : ℕ) : Type 0 where
  pub in_force : pkt (pos + 5) % 2 ≡ 1
  pub version : (ver ≡ 32) ⊎ (read_version (pkt (pos + 5)) ≡ (ver + 1) % 32)
  pub last_section : pkt (pos + 7) ≡ 0
  pub section : pkt (pos + 6) ≡ 0
  pub room : pos + 12 ≤ len

-- What the mask 0x2f keeps: bits 1 to 3 and 5 of the byte.
pub version_field-read_version : (b : ℕ) → version_field b ≡ read_version b
unfolding version_field read_version
version_field-read_version b = omega (
  arith,
  and_step b 0x2f,
  and_step (b / 2) 23,
  and_step (b / 2 / 2) 11,
  and_step (b / 2 / 2 / 2) 5,
  and_step (b / 2 / 2 / 2 / 2) 2,
  and_step (b / 2 / 2 / 2 / 2 / 2) 1,
  and-zero (b / 2 / 2 / 2 / 2 / 2 / 2),
)

crc_correct_iff :
    (pkt : Memory) (len pos : ℕ)
    → (crc_correct pkt len pos ≡ true) ↔ (
        pkt (pos + len - 4) * 2 ^ 24
          + pkt (pos + len - 3) * 2 ^ 16
          + pkt (pos + len - 2) * 256
          + pkt (pos + len - 1)
        ≡ mpeg2_crc (bytes pkt pos (len - 4)))
unfolding crc_correct
crc_correct_iff pkt len pos = ground arith

-- On an intact section the header is read; on any other nothing is.
pub mpg_parse_hdr-Intact :
    (pkt : Memory) (len pos id ver tblid : ℕ)
    → Intact pkt len pos tblid
    → mpg_parse_hdr pkt len pos id ver tblid ≡ parse_long pkt len pos id ver
unfolding mpg_parse_hdr
mpg_parse_hdr-Intact pkt len pos id ver tblid h =
    ground (arith, (crc_correct_iff pkt len pos).1 h.checked)

accepted-Intact :
    (pkt : Memory) (len pos id ver tblid : ℕ)
    → (mpg_parse_hdr pkt len pos id ver tblid).accepted ≡ true
    → Intact pkt len pos tblid
unfolding mpg_parse_hdr
accepted-Intact pkt len pos id ver tblid h = ground (arith, crc_correct_iff pkt len pos)

check_numbers_iff :
    (pkt : Memory) (len pos id ver : ℕ)
    → ((check_numbers pkt len pos id ver).accepted ≡ true)
      ↔ ((pkt (pos + 4) ≡ 0) × (pkt (pos + 3) ≡ 0) × (pos + 9 ≤ len))
unfolding check_numbers check_room
check_numbers_iff pkt len pos id ver = ground arith

parse_long_iff :
    (pkt : Memory) (len pos id ver : ℕ)
    → bit_and (pkt (pos + 1)) 0x80 ≢ 0
    → ((parse_long pkt len pos id ver).accepted ≡ true) ↔ Current pkt len pos ver
unfolding parse_long check_version read_version
parse_long_iff pkt len pos id ver h = ground (
  arith,
  and_mask 1 (pkt (pos + 3 + 2)),
  and_mask 5 (ver + 1),
  version_field-read_version (pkt (pos + 3 + 2)),
  check_numbers_iff pkt len (pos + 3) (be16 pkt (pos + 3)) (version_field (pkt (pos + 3 + 2))),
)

-- A section with a long header is accepted exactly if its table id and checksum are right, it is in
-- force, it is the only section of its table, its version is the first seen or, read without its bit of
-- weight 8, is the successor of the last one modulo 32, and there is room for the header and a checksum.
pub mpg_parse_hdr_iff :
    (pkt : Memory) (len pos id ver tblid : ℕ)
    → bit_and (pkt (pos + 1)) 0x80 ≢ 0
    → ((mpg_parse_hdr pkt len pos id ver tblid).accepted ≡ true)
      ↔ (Intact pkt len pos tblid × Current pkt len pos ver)
mpg_parse_hdr_iff pkt len pos id ver tblid h = (
  λ a.
      let i = accepted-Intact pkt len pos id ver tblid a in
      (
        i,
        (parse_long_iff pkt len pos id ver h).0
            (ap Header.accepted (sym (mpg_parse_hdr-Intact pkt len pos id ver tblid i)) ∙ a),
      ),
  λ (i, c).
      ap Header.accepted (mpg_parse_hdr-Intact pkt len pos id ver tblid i)
      ∙ (parse_long_iff pkt len pos id ver h).1 c,
)

-- After a header was accepted the parsers go on right behind the short or the long header, and four more
-- bytes are within the section.
mpg_parse_hdr_room :
    (pkt : Memory) (len pos id ver tblid : ℕ)
    → (mpg_parse_hdr pkt len pos id ver tblid).accepted ≡ true
    → let h = mpg_parse_hdr pkt len pos id ver tblid in
      ((h.pos ≡ pos + 3) ⊎ (h.pos ≡ pos + 8)) × (h.pos + 4 ≤ len)
unfolding mpg_parse_hdr parse_long check_version check_numbers check_room
mpg_parse_hdr_room pkt len pos id ver tblid h = ground arith
