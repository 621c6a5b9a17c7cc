-- ===== src/Atsc/Demux.antt =====
-- `init` and `thread_demux` (mpgatsc.cpp): from transport stream packets of 188 bytes to sections. Each
-- PID has one buffer of `max_pkt_len` bytes, of which `pktlen[pid]` are filled.
pub mod Bounds
pub mod Independence
pub mod Assembler
pub mod Reassembly
pub mod Delivery
pub mod Sections
pub mod Buffers
pub mod Contents
pub mod Texts
pub mod Short
use seztuner.Prelude.{
  ℕ, ◌+◌, ◌-◌, ◌*◌, ◌/◌, ◌%◌, ◌^◌, bit_and, List, [], ◌∷◌, ◌++◌, Option, none, some, Bool, true,
  false, ◌&&◌, not, ltb, leb, ◌==◌, if◌then◌else◌,
}
use seztuner.Atsc.Memory.{
  Memory, be16, bytes, memcpy, update, Atsc, Env, Ret, done, failed, runaway,
}
use seztuner.Atsc.Table.{parse_tbl}

abbrev pub max_pkt_len : ℕ
max_pkt_len = 0x1003

-- Everything that `init` resets once the handle of `iconv` is open. The buffers stay allocated.
unfoldable pub reset : Env → Atsc → Atsc
reset env s = record s {
  pktlen = λ _. 0;
  pat_curver = 32;
  pat_tsid = 0;
  pmt_pid = 0;
  pmt_curver = 32;
  pcr_pid = 0;
  mgt_curver = 32;
  vct_curver = 32;
  pat_use = 0;
  iconv_hnd = true;
  vctstr = none;
  dumpfile = if env.dump_moved then none else s.dumpfile;
}

unfoldable pub init : Env → Atsc → Atsc × Ret
unfolding reset
init env s =
    if s.iconv_hnd
    then (reset env s, done)
    else if env.iconv_open_ok
    then (reset env s, done)
    else (record s { iconv_hnd = true }, failed)

-- `fwrite` to the dump file, which is closed when that fails.
unfoldable pub dump : Env → Memory → Atsc → Atsc
dump env pkt s = elim s.dumpfile [
  | none ↦ s
  | some written ↦
      if env.fwrite_ok
      then record s { dumpfile = some (written ++ bytes pkt 0 188) }
      else record s { dumpfile = none }
]

abbrev pub packet_pid : Memory → ℕ
packet_pid pkt = bit_and (be16 pkt 1) 0x1fff

-- Where the payload starts: behind the four bytes of header and the adaptation field, if there is one.
unfoldable pub payload_start : Memory → ℕ
payload_start pkt = if bit_and (pkt 3) 0x20 == 0 then 4 else 4 + (pkt 4 + 1)

-- When `pktlen[pid]` has reached the section's length, parse it and wait for the next unit start.
unfoldable pub section_len : Memory → ℕ
section_len buf = bit_and (be16 buf 1) 0xfff + 3

abbrev pub after_table : ℕ → Atsc × Ret → Atsc × Ret
after_table pid (s, runaway) = (s, runaway)
after_table pid (s, done) = (record s { pktlen = update s.pktlen pid 0 }, done)
after_table pid (s, failed) = (record s { pktlen = update s.pktlen pid 0 }, done)

unfoldable pub try_section : Env → ℕ → Memory → Atsc → Atsc × Ret
try_section env pid buf s =
    if s.pktlen pid == 0
    then (s, done)
    else if leb (section_len buf) (s.pktlen pid)
    then after_table pid (parse_tbl env buf (section_len buf) pid s)
    else (s, done)

-- The PID's buffer is now `buf`, filled up to `n`.
unfoldable pub store_bytes : ℕ → Memory → ℕ → Atsc → Atsc
store_bytes pid buf n s = record s {
  pktlist = update s.pktlist pid (some buf);
  pktlen = update s.pktlen pid n;
}

-- Fill the PID's buffer from offset `at` with `len` bytes of the packet from `pos` on.
unfoldable pub fill : Env → Memory → ℕ → ℕ → ℕ → ℕ → Memory → Atsc → Atsc × Ret
unfolding try_section store_bytes
fill env pkt pid pos at len buf s =
    try_section env pid (memcpy buf at pkt pos len)
      (store_bytes pid (memcpy buf at pkt pos len) (at + len) s)

-- Payload unit start: `pos` is at the pointer field. What was collected before is thrown away.
unfoldable pub start_unit : Env → Memory → ℕ → ℕ → Atsc → Atsc × Ret
unfolding fill
start_unit env pkt pid pos s =
    let start = pos + (pkt pos + 1) in
    if leb 188 start
    then (record s { pktlen = update s.pktlen pid 0 }, done)
    else elim (s.pktlist pid) [
      | some buf ↦ fill env pkt pid start 0 (188 - start) buf s
      | none ↦
          if env.malloc_pkt_ok
          then fill env pkt pid start 0 (188 - start) env.fresh s
          else (record s { pktlen = update s.pktlen pid 0 }, failed)
    ]

-- How much of the payload still fits.
unfoldable pub room_for : ℕ → ℕ → ℕ
room_for filled len = if leb max_pkt_len (filled + len) then max_pkt_len - filled else len

-- A packet that goes on with a section. Without a buffer `pktlen[pid]` is 0, and nothing happens.
unfoldable pub continue_unit : Env → Memory → ℕ → ℕ → Atsc → Atsc × Ret
unfolding fill room_for
continue_unit env pkt pid pos s = elim (s.pktlist pid) [
  | none ↦ (s, done)
  | some buf ↦
      if s.pktlen pid == 0
      then (s, done)
      else if room_for (s.pktlen pid) (188 - pos) == 0
      then (s, done)
      else fill env pkt pid pos (s.pktlen pid) (room_for (s.pktlen pid) (188 - pos)) buf s
]

-- From the test of the adaptation field on.
unfoldable pub demux_payload : Env → Memory → Atsc → Atsc × Ret
unfolding payload_start start_unit continue_unit
demux_payload env pkt s =
    if not (bit_and (pkt 3) 0x20 == 0) && leb 188 (payload_start pkt)
    then (s, done)
    else if bit_and (pkt 1) 0x40 == 0
    then continue_unit env pkt (packet_pid pkt) (payload_start pkt) s
    else start_unit env pkt (packet_pid pkt) (payload_start pkt) s

-- `failed` is `return 1`, which ends the receiving thread. A section that no parser likes is only
-- reported.
unfoldable pub thread_demux : Env → Memory → Atsc → Atsc × Ret
unfolding demux_payload dump
thread_demux env pkt s =
    if not (pkt 0 == 0x47)
    then (s, failed)
    else if not (bit_and (pkt 1) 0x80 == 0)
    then (s, done)
    else demux_payload env pkt (dump env pkt s)

abbrev pub and_then : Atsc × Ret → (Atsc → Atsc × Ret) → Atsc × Ret
and_then (s, done) k = k s
and_then (s, failed) k = (s, failed)
and_then (s, runaway) k = (s, runaway)

-- The packets of a datagram one after the other, as `mpgts::thread_main` passes them on: the first
-- `return 1` ends it.
unfoldable pub demux_all : List (Env × Memory) → Atsc → Atsc × Ret
demux_all [] s = (s, done)
demux_all ((env, pkt) ∷ rest) s = and_then (thread_demux env pkt s) (λ t. demux_all rest t)

-- `fopen` tells whether the file can be created.
unfoldable pub open_dump : Bool → Atsc → Atsc × Ret
open_dump fopen s =
    if fopen
    then (record s { dumpfile = some [] }, done)
    else (record s { dumpfile = none }, failed)

-- `~mpgatsc`
unfoldable pub destroy : Atsc → Atsc
destroy s = record s {
  vctstr = none;
  pat = none;
  pat_use = elim s.pat [ none ↦ s.pat_use | some block ↦ 0 ];
  pat_max = elim s.pat [ none ↦ s.pat_max | some block ↦ 0 ];
  pktlist = λ pid. none;
  pktlen = λ pid. elim (s.pktlist pid) [ none ↦ s.pktlen pid | some block ↦ 0 ];
  iconv_hnd = false;
  dumpfile = none;
}
