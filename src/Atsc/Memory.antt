-- ===== src/Atsc/Memory.antt =====
-- State, memory and environment of the demultiplexer (mpgatsc.h).
pub use seztuner.Prelude.{update}
use seztuner.Prelude.{
  ℕ, zero, suc, ◌+◌, ◌-◌, ◌*◌, List, [], ◌∷◌, Option, none, Bool, false, ◌&&◌, ltb, leb,
  if◌then◌else◌,
}

-- Bytes by offset from a pointer.
abbrev pub Memory : Type 0
Memory = ℕ → ℕ

-- Two bytes, high one first: `((u32) pkt[pos] << 8) + pkt[pos + 1]`.
abbrev pub be16 : Memory → ℕ → ℕ
be16 pkt pos = pkt pos * 256 + pkt (pos + 1)

-- The `n` bytes from `pos` on.
abbrev pub bytes : Memory → ℕ → ℕ → List ℕ
bytes pkt pos zero = []
bytes pkt pos (suc n) = pkt pos ∷ bytes pkt (pos + 1) n

-- `memcpy(dst + to, src + from, n)`
unfoldable pub memcpy : Memory → ℕ → Memory → ℕ → ℕ → Memory
memcpy dst to src from n i = if leb to i && ltb i (to + n) then src (from + (i - to)) else dst i

-- `pktlist[pid]` is the block that was allocated for this PID, if any; `pat` likewise, and `pat_block` is
-- the number of PIDs that the block of `pat` was allocated for. `vctstr` is the
-- text before its NUL, and `dumpfile` the bytes written to the open file. `iconv_hnd` tells whether the
-- handle is open.
pub record Atsc : Type 0 where
  pub pktlist : ℕ → Option Memory
  pub pktlen : ℕ → ℕ
  pub pat_curver : ℕ
  pub pat_tsid : ℕ
  pub pmt_pid : ℕ
  pub pmt_curver : ℕ
  pub pcr_pid : ℕ
  pub mgt_curver : ℕ
  pub vct_curver : ℕ
  pub pat_use : ℕ
  pub pat_max : ℕ
  pub pat : Option Memory
  pub pat_block : ℕ
  pub iconv_hnd : Bool
  pub vctstr : Option (List ℕ)
  pub dumpfile : Option (List ℕ)
  pub tvch : ℕ

-- `mpgatsc()`
unfoldable pub new_atsc : Atsc
new_atsc = record {
  pktlist = λ pid. none;
  pktlen = λ pid. 0;
  pat_curver = 32;
  pat_tsid = 0;
  pmt_pid = 0;
  pmt_curver = 32;
  pcr_pid = 0;
  mgt_curver = 32;
  vct_curver = 32;
  pat_use = 0;
  pat_max = 0;
  pat = none;
  pat_block = 0;
  iconv_hnd = false;
  vctstr = none;
  dumpfile = none;
  tvch = 0;
}

-- What the C library answers in one call. `fresh` is what a new block happens to hold, `convert` is
-- `iconv` on UTF-16 code units with its success and its output, and `format_line` and
-- `format_modulation` are the texts that the two `snprintf` formats describe, before truncation.
pub record Env : Type 0 where
  pub iconv_open_ok : Bool
  pub dump_moved : Bool
  pub malloc_pkt_ok : Bool
  pub malloc_vct_ok : Bool
  pub calloc_pat_ok : Bool
  pub fwrite_ok : Bool
  pub fresh : Memory
  pub convert : List ℕ → record { complete : Bool; text : List ℕ }
  pub format_line : ℕ → ℕ → ℕ → List ℕ → List ℕ → List ℕ
  pub format_modulation : ℕ → List ℕ

-- What a parser returns: 0, 1, or, which the source does not foresee, never within the table.
pub data Ret : Type 0 where
  done failed runaway : Ret
