-- ===== src/Atsc/Demux/Buffers.antt =====
-- What the table parsers do to the reassembly buffers (mpgatsc.cpp, `parse_tbl` and what it calls).
use seztuner.Prelude.{ℕ, Bool, ◌≡◌, arith}
use seztuner.Atsc.Memory.{Memory, Atsc, Env}
use seztuner.Atsc.Section.{Header}
use seztuner.Atsc.Pat.{regrow_pat, store_programs, load_programs, parse_pat}
use seztuner.Atsc.Channels.{parse_vct}
use seztuner.Atsc.Table.{pat_table, mgt_table, vct_table, pmt_table, psip_table, parse_tbl}

-- Two states have the same buffers, filled to the same lengths.
pub record SameBuffers (s t : Atsc) : Type 0 where
  pub same_list : s.pktlist ≡ t.pktlist
  pub same_len : s.pktlen ≡ t.pktlen

store_programs-SameBuffers :
    (env : Env) (pkt : Memory) (count pos : ℕ) (s : Atsc)
    → SameBuffers (store_programs env pkt count pos s).0 s
unfolding store_programs
store_programs-SameBuffers env pkt count pos s = ground arith

load_programs-SameBuffers :
    (env : Env) (pkt : Memory) (count pos : ℕ) (s : Atsc)
    → SameBuffers (load_programs env pkt count pos s).0 s
unfolding load_programs regrow_pat
load_programs-SameBuffers env pkt count pos s = grind (arith, store_programs-SameBuffers)

parse_pat-SameBuffers :
    (env : Env) (pkt : Memory) (len : ℕ) (h : Header) (s : Atsc)
    → SameBuffers (parse_pat env pkt len h s).0 s
unfolding parse_pat
parse_pat-SameBuffers env pkt len h s = grind (arith, load_programs-SameBuffers)

parse_vct-SameBuffers :
    (env : Env) (pkt : Memory) (len pos : ℕ) (satellite : Bool) (s : Atsc)
    → SameBuffers (parse_vct env pkt len pos satellite s).0 s
unfolding parse_vct
parse_vct-SameBuffers env pkt len pos satellite s = ground arith

pat_table-SameBuffers :
    (env : Env) (pkt : Memory) (len : ℕ) (s : Atsc) → SameBuffers (pat_table env pkt len s).0 s
unfolding pat_table
pat_table-SameBuffers env pkt len s = grind (arith, parse_pat-SameBuffers)

vct_table-SameBuffers :
    (env : Env) (pkt : Memory) (len : ℕ) (satellite : Bool) (s : Atsc)
    → SameBuffers (vct_table env pkt len satellite s).0 s
unfolding vct_table
vct_table-SameBuffers env pkt len satellite s = grind (arith, parse_vct-SameBuffers)

mgt_table-SameBuffers : (pkt : Memory) (len : ℕ) (s : Atsc) → SameBuffers (mgt_table pkt len s).0 s
unfolding mgt_table
mgt_table-SameBuffers pkt len s = ground arith

pmt_table-SameBuffers : (pkt : Memory) (len : ℕ) (s : Atsc) → SameBuffers (pmt_table pkt len s).0 s
unfolding pmt_table
pmt_table-SameBuffers pkt len s = ground arith

psip_table-SameBuffers :
    (env : Env) (pkt : Memory) (len : ℕ) (s : Atsc) → SameBuffers (psip_table env pkt len s).0 s
unfolding psip_table
psip_table-SameBuffers env pkt len s = grind (arith, mgt_table-SameBuffers, vct_table-SameBuffers)

-- Whatever a section holds, parsing it leaves the reassembly buffers of all PIDs and their fill counts
-- as they were.
pub parse_tbl-SameBuffers :
    (env : Env) (pkt : Memory) (len pid : ℕ) (s : Atsc)
    → SameBuffers (parse_tbl env pkt len pid s).0 s
unfolding parse_tbl
parse_tbl-SameBuffers env pkt len pid s = ground (
  arith,
  pat_table-SameBuffers env pkt len s,
  psip_table-SameBuffers env pkt len s,
  pmt_table-SameBuffers pkt len s,
)
