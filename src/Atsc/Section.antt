-- ===== src/Atsc/Section.antt =====
-- Section headers: `mpg_parse_hdr` and `atsc_parse_hdr` (mpgatsc.cpp). The out-parameters `*pos_ptr`,
-- `*id` and `*ver` are fields of the result.
pub mod Accepted
pub mod Versions
use seztuner.Prelude.{
  ℕ, ◌+◌, ◌-◌, ◌*◌, ◌/◌, ◌%◌, ◌^◌, bit_and, Bool, true, false, not, ltb, ◌==◌, if◌then◌else◌,
}
use seztuner.Crc.{mpeg2_crc}
use seztuner.Atsc.Memory.{Memory, be16, bytes}

-- `accepted` is the return value 0.
pub record Header : Type 0 where
  pub accepted : Bool
  pub pos : ℕ
  pub id : ℕ
  pub ver : ℕ

abbrev pub accept : ℕ → ℕ → ℕ → Header
accept pos id ver = record { accepted = true; pos = pos; id = id; ver = ver }

abbrev pub reject : ℕ → ℕ → ℕ → Header
reject pos id ver = record { accepted = false; pos = pos; id = id; ver = ver }

-- `if (pos + 4 > len) return 1; return 0;`
unfoldable pub check_room : ℕ → ℕ → ℕ → ℕ → Header
check_room len pos id ver = if ltb len (pos + 4) then reject pos id ver else accept pos id ver

-- From `if (pkt[pos + 4])` on, with the version settled.
unfoldable pub check_numbers : Memory → ℕ → ℕ → ℕ → ℕ → Header
check_numbers pkt len pos id ver =
    if not (pkt (pos + 4) == 0)
    then reject pos id ver
    else if not (pkt (pos + 3) == 0)
    then reject pos id ver
    else if ltb len (pos + 5)
    then reject pos id ver
    else check_room len (pos + 5) id ver

-- The version that a header carries: `(pkt[pos + 2] & 0x2f) >> 1`.
unfoldable pub version_field : ℕ → ℕ
version_field b = bit_and b 0x2f / 2

-- The long header: `current_next_indicator` and version, where 32 stands for "none seen yet".
unfoldable pub check_version : Memory → ℕ → ℕ → ℕ → ℕ → Header
check_version pkt len pos id ver =
    let rx_ver = version_field (pkt (pos + 2)) in
    if bit_and (pkt (pos + 2)) 1 == 0
    then reject 0 id ver
    else if ver == 32
    then check_numbers pkt len pos id rx_ver
    else if rx_ver == ver
    then reject 0 id ver
    else if not (rx_ver == bit_and (ver + 1) 0x1f)
    then reject pos id ver
    else check_numbers pkt len pos id rx_ver

-- The stored checksum, and the one over all bytes before it.
unfoldable pub crc_correct : Memory → ℕ → ℕ → Bool
crc_correct pkt len pos =
    pkt (pos + len - 4) * 2 ^ 24
      + pkt (pos + len - 3) * 2 ^ 16
      + pkt (pos + len - 2) * 256
      + pkt (pos + len - 1)
    == mpeg2_crc (bytes pkt pos (len - 4))

-- After the checksum. `pos` is the start of the section; the source has added 3 by now.
unfoldable pub parse_long : Memory → ℕ → ℕ → ℕ → ℕ → Header
parse_long pkt len pos id ver =
    if not (bit_and (pkt (pos + 1)) 0x80 == 0)
    then check_version pkt len (pos + 3) (be16 pkt (pos + 3)) ver
    else check_room len (pos + 3) id ver

unfoldable pub mpg_parse_hdr : Memory → ℕ → ℕ → ℕ → ℕ → ℕ → Header
mpg_parse_hdr pkt len pos id ver tblid =
    if not (pkt pos == tblid)
    then reject pos id ver
    else if ltb len 4
    then reject pos id ver
    else if not (crc_correct pkt len pos)
    then reject pos id ver
    else parse_long pkt len pos id ver

-- The rest of `atsc_parse_hdr`: `atsc_protocol_version` must be 0.
unfoldable pub check_protocol : Memory → Header → Header
check_protocol pkt h =
    if not h.accepted
    then h
    else if not (pkt h.pos == 0)
    then reject h.pos h.id h.ver
    else accept (h.pos + 1) h.id h.ver

unfoldable pub atsc_parse_hdr : Memory → ℕ → ℕ → ℕ → Header
atsc_parse_hdr pkt len pos ver = check_protocol pkt (mpg_parse_hdr pkt len pos 0 ver (pkt pos))
