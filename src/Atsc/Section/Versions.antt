-- ===== src/Atsc/Section/Versions.antt =====
-- Version numbers of tables (mpgatsc.cpp, `mpg_parse_hdr`). A version has five bits, but the mask 0x2f
-- keeps bits 1 to 3 and 5 of the byte and drops bit 4, which is bit 3 of the version.
use seztuner.Prelude.{
  ℕ, ◌+◌, ◌*◌, ◌/◌, ◌%◌, ◌<◌, ◌≡◌, ◌≢◌, refl, arith, true, false, bit_and, IsByte,
}
use seztuner.Bits.Masks.{agree_below, agree_below→eq, and_mask}
use seztuner.Atsc.Memory.{Memory, be16}
use seztuner.Atsc.Section.{
  reject, check_room, check_numbers, version_field, check_version, parse_long, mpg_parse_hdr,
}
use seztuner.Atsc.Section.Accepted.{mpg_parse_hdr-Intact, mpg_parse_hdr_iff}

field_table : agree_below 256 version_field (λ b. b / 2 % 8 + b / 32 % 2 * 16) ≡ true
unfolding agree_below version_field
field_table = refl

-- What the mask keeps of the five bits `b / 2 % 32`.
pub version_field_lem : (b : ℕ) → IsByte b → version_field b ≡ b / 2 % 8 + b / 32 % 2 * 16
version_field_lem = agree_below→eq 256 _ _ field_table

-- After version 7 or 23 no table of bytes with a long header is ever accepted, and the version stays:
-- the version that must follow, 8 or 24, cannot be read.
pub mpg_parse_hdr_stuck :
    (pkt : Memory) (len pos id ver tblid : ℕ)
    → ((i : ℕ) → IsByte (pkt i))
    → ver < 32
    → ver % 16 ≡ 7
    → bit_and (pkt (pos + 1)) 0x80 ≢ 0
    → ((mpg_parse_hdr pkt len pos id ver tblid).accepted ≡ false)
      × ((mpg_parse_hdr pkt len pos id ver tblid).ver ≡ ver)
unfolding mpg_parse_hdr parse_long check_version
mpg_parse_hdr_stuck pkt len pos id ver tblid bytes low stuck long =
    ground
      (arith, version_field_lem (pkt (pos + 3 + 2)) (bytes (pos + 3 + 2)), and_mask 5 (ver + 1))

accepted_version :
    (pkt : Memory) (len pos id ver tblid : ℕ)
    → bit_and (pkt (pos + 1)) 0x80 ≢ 0
    → (mpg_parse_hdr pkt len pos id ver tblid).accepted ≡ true
    → (mpg_parse_hdr pkt len pos id ver tblid).ver ≡ version_field (pkt (pos + 3 + 2))
unfolding mpg_parse_hdr parse_long check_version check_numbers check_room
accepted_version pkt len pos id ver tblid long ok = ground arith

passed_over :
    (pkt : Memory) (len pos id : ℕ)
    → version_field (pkt (pos + 3 + 2)) < 32
    → pkt (pos + 5) % 2 ≡ 1
    → bit_and (pkt (pos + 1)) 0x80 ≢ 0
    → parse_long pkt len pos id (version_field (pkt (pos + 3 + 2)))
      ≡ reject 0 (be16 pkt (pos + 3)) (version_field (pkt (pos + 3 + 2)))
unfolding parse_long check_version
passed_over pkt len pos id small in_force long = ground (arith, and_mask 1 (pkt (pos + 3 + 2)))

-- A table of bytes with a long header that was just accepted is not accepted again: the same section is
-- passed over with a position of 0, which parse_tbl takes for success, and the version stays.
pub mpg_parse_hdr_repeated :
    (pkt : Memory) (len pos id id' ver tblid : ℕ)
    → ((i : ℕ) → IsByte (pkt i))
    → bit_and (pkt (pos + 1)) 0x80 ≢ 0
    → (mpg_parse_hdr pkt len pos id ver tblid).accepted ≡ true
    → let next = mpg_parse_hdr pkt len pos id' (mpg_parse_hdr pkt len pos id ver tblid).ver tblid in
      (next.accepted ≡ false)
      × (next.pos ≡ 0)
      × (next.ver ≡ (mpg_parse_hdr pkt len pos id ver tblid).ver)
mpg_parse_hdr_repeated pkt len pos id id' ver tblid bytes long ok =
    let c = (mpg_parse_hdr_iff pkt len pos id ver tblid long).0 ok in
    let e = accepted_version pkt len pos id ver tblid long ok in
    let v = version_field (pkt (pos + 3 + 2)) in
    let small : v < 32 =
      omega (arith, version_field_lem (pkt (pos + 3 + 2)) (bytes (pos + 3 + 2))) in
    rw (e, mpg_parse_hdr-Intact pkt len pos id' v tblid c.0)
      (ground (arith, passed_over pkt len pos id' small c.1.in_force long))
