-- ===== src/Atsc/Table.antt =====
-- `parse_tbl` (mpgatsc.cpp): which parser a complete section goes to, by its PID and table id.
use seztuner.Prelude.{ℕ, bit_and, List, [], ◌∷◌, Bool, true, false, ◌||◌, ◌==◌, if◌then◌else◌}
use seztuner.Atsc.Memory.{Memory, be16, Atsc, Env, Ret, done, failed}
use seztuner.Atsc.Section.{Header, mpg_parse_hdr, atsc_parse_hdr}
use seztuner.Atsc.Pat.{parse_pat}
use seztuner.Atsc.Mgt.{parse_mgt}
use seztuner.Atsc.Channels.{parse_vct}

-- `return pos ? 1 : 0;` after a header that was not accepted.
unfoldable pub header_ret : Header → Ret
header_ret h = if h.pos == 0 then done else failed

unfoldable pub pat_table : Env → Memory → ℕ → Atsc → Atsc × Ret
pat_table env pkt len s =
    let h = mpg_parse_hdr pkt len 0 0 s.pat_curver 0 in
    let s' = record s { pat_curver = h.ver } in
    if h.accepted then parse_pat env pkt len h s' else (s', header_ret h)

unfoldable pub mgt_table : Memory → ℕ → Atsc → Atsc × Ret
mgt_table pkt len s =
    let h = atsc_parse_hdr pkt len 0 s.mgt_curver in
    let s' = record s { mgt_curver = h.ver } in
    if h.accepted then (s', parse_mgt pkt len h.pos) else (s', header_ret h)

unfoldable pub vct_table : Env → Memory → ℕ → Bool → Atsc → Atsc × Ret
vct_table env pkt len satellite s =
    let h = atsc_parse_hdr pkt len 0 s.vct_curver in
    let s' = record s { vct_curver = h.ver } in
    if h.accepted then parse_vct env pkt len h.pos satellite s' else (s', header_ret h)

unfoldable pub pmt_table : Memory → ℕ → Atsc → Atsc × Ret
pmt_table pkt len s =
    let h = mpg_parse_hdr pkt len 0 0 s.pmt_curver 2 in
    let s' = record s { pmt_curver = h.ver } in
    if h.accepted
    then (record s' { pcr_pid = bit_and (be16 pkt h.pos) 0x1fff }, done)
    else (s', header_ret h)

-- The PSIP tables that are known and not read.
abbrev pub ignored_tables : List ℕ
ignored_tables = 1 ∷ 9 ∷ 0x58 ∷ 0x6e ∷ 0x6f ∷ 0xf0 ∷ 0xca ∷ 0xcb ∷ 0xcd ∷ 0xcf ∷ 0xd1 ∷ 0xd3 ∷ []

abbrev pub among : ℕ → List ℕ → Bool
among a [] = false
among a (x ∷ xs) = a == x || among a xs

-- `case 0x1ffb`
unfoldable pub psip_table : Env → Memory → ℕ → Atsc → Atsc × Ret
psip_table env pkt len s =
    if pkt 0 == 0xc7
    then mgt_table pkt len s
    else if pkt 0 == 0xc8 || pkt 0 == 0xc9
    then vct_table env pkt len false s
    else if pkt 0 == 0xda
    then vct_table env pkt len true s
    else if among (pkt 0) ignored_tables
    then (s, done)
    else (s, failed)

unfoldable pub parse_tbl : Env → Memory → ℕ → ℕ → Atsc → Atsc × Ret
parse_tbl env pkt len pid s =
    if pid == 0
    then pat_table env pkt len s
    else if pid == 0x1ffb
    then psip_table env pkt len s
    else if pid == 0x1fff
    then (s, done)
    else if pid == s.pmt_pid
    then pmt_table pkt len s
    else (s, done)
