-- ===== src/Tests/Inputs.antt =====
-- Buffers, a section and a C library for the tests of the demultiplexer (mpgatsc.cpp).
use seztuner.Prelude.{
  ℕ, zero, suc, ◌≡◌, ◌&&◌, ltb, arith, List, [], ◌∷◌, none, Bool, true, false, All, IsByte, get_or,
}
use seztuner.Atsc.Memory.{Memory, Atsc, Env}

-- A buffer with zeros behind its bytes.
abbrev pub buffer : List ℕ → Memory
buffer l i = get_or l i 0

pub buffer-IsByte : (l : List ℕ) → All IsByte l → (i : ℕ) → IsByte (buffer l i)
buffer-IsByte [] h i = omega arith
buffer-IsByte (b ∷ bs) (hb, hs) zero = hb
buffer-IsByte (b ∷ bs) (hb, hs) (suc i) = buffer-IsByte bs hs i

unfoldable pub all_bytes : List ℕ → Bool
all_bytes [] = true
all_bytes (b ∷ bs) = ltb b 256 && all_bytes bs

pub all_bytes-All : (l : List ℕ) → all_bytes l ≡ true → All IsByte l
unfolding all_bytes
all_bytes-All [] h = tt
all_bytes-All (b ∷ bs) h = (ground arith, all_bytes-All bs (ground arith))

-- A program association table of version 0: program 1 has PID 0x20, program 3 has PID 0x30.
abbrev pub pat_bytes : List ℕ
pat_bytes =
    0x00 ∷ 0xb0 ∷ 0x11 ∷ 0x00 ∷ 0x01 ∷ 0xc1 ∷ 0x00 ∷ 0x00 ∷ 0x00 ∷ 0x01 ∷ 0xe0 ∷ 0x20 ∷ 0x00 ∷ 0x03
    ∷ 0xe0 ∷ 0x30 ∷ 0x54 ∷ 0xdc ∷ 0xf6 ∷ 0x66 ∷ []

-- A channel table with one channel and no descriptors.
abbrev pub vct_bytes : List ℕ
vct_bytes =
    1 ∷ 0 ∷ 0x4b ∷ 0 ∷ 0x54 ∷ 0 ∷ 0x4c ∷ 0 ∷ 0x41 ∷ 0 ∷ 0 ∷ 0 ∷ 0 ∷ 0 ∷ 0 ∷ 0xf0 ∷ 0x14 ∷ 0x01 ∷ 4
    ∷ []

-- A C library without a failure. The texts are as short as they can be.
abbrev pub library : Env
library = record {
  iconv_open_ok = true;
  dump_moved = true;
  malloc_pkt_ok = true;
  malloc_vct_ok = true;
  calloc_pat_ok = true;
  fwrite_ok = true;
  fresh = λ _. 0xcc;
  convert = λ units. record { complete = true; text = units };
  format_line = λ tvch major minor modulation name. name;
  format_modulation = λ m. [];
}

-- The state of a new object.
abbrev pub fresh_state : Atsc
fresh_state = record {
  pktlist = λ _. none;
  pktlen = λ _. 0;
  pat_curver = 32;
  pat_tsid = 0;
  pmt_pid = 0;
  pmt_curver = 32;
  pcr_pid = 0;
  mgt_curver = 32;
  vct_curver = 32;
  pat_use = 0;
  pat_max = 0;
  pat = none;
  pat_block = 0;
  iconv_hnd = false;
  vctstr = none;
  dumpfile = none;
  tvch = 0;
}
