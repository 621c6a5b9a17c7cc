-- ===== src/Atsc/Demux/Texts.antt =====
-- The channel table's text while packets are taken (mpgatsc.cpp, `parse_tbl` and `thread_demux`).
use seztuner.Prelude.{
  ℕ, ◌+◌, ◌-◌, ◌≡◌, ◌≢◌, sym, ◌∙◌, arith, List, [], ◌∷◌, none, Bool, true, false, Option-cases, inl,
  inr,
}
use seztuner.Atsc.Memory.{Memory, memcpy, Atsc, Env, Ret, done, failed, runaway}
use seztuner.Atsc.Section.{Header, atsc_parse_hdr}
use seztuner.Atsc.Pat.{regrow_pat, store_programs, load_programs, parse_pat}
use seztuner.Atsc.Channels.{parse_vct}
use seztuner.Atsc.Table.{pat_table, mgt_table, vct_table, pmt_table, psip_table, parse_tbl}
use seztuner.Atsc.Demux.{
  dump, section_len, after_table, try_section, store_bytes, fill, packet_pid, start_unit, room_for,
  continue_unit, demux_payload, payload_start, thread_demux, and_then, demux_all,
}

pub parse_pat-vctstr :
    (env : Env) (pkt : Memory) (len : ℕ) (h : Header) (s : Atsc)
    → (parse_pat env pkt len h s).0.vctstr ≡ s.vctstr
unfolding parse_pat load_programs store_programs regrow_pat
parse_pat-vctstr env pkt len h s = ground arith

pub pat_table-vctstr :
    (env : Env) (pkt : Memory) (len : ℕ) (s : Atsc) → (pat_table env pkt len s).0.vctstr ≡ s.vctstr
unfolding pat_table
pat_table-vctstr env pkt len s = grind (arith, parse_pat-vctstr)

pub mgt_table-vctstr :
    (pkt : Memory) (len : ℕ) (s : Atsc) → (mgt_table pkt len s).0.vctstr ≡ s.vctstr
unfolding mgt_table
mgt_table-vctstr pkt len s = ground arith

pub pmt_table-vctstr :
    (pkt : Memory) (len : ℕ) (s : Atsc) → (pmt_table pkt len s).0.vctstr ≡ s.vctstr
unfolding pmt_table
pmt_table-vctstr pkt len s = ground arith

parse_vct-text :
    (env : Env) (pkt : Memory) (len pos : ℕ) (satellite : Bool) (s : Atsc)
    → s.vctstr ≢ none
    → (parse_vct env pkt len pos satellite s).0.vctstr ≢ none
unfolding parse_vct
parse_vct-text env pkt len pos satellite s h e = ground (arith, h, e)

vct_table-text :
    (env : Env) (pkt : Memory) (len : ℕ) (satellite : Bool) (s : Atsc)
    → s.vctstr ≢ none
    → (vct_table env pkt len satellite s).0.vctstr ≢ none
unfolding vct_table
vct_table-text env pkt len satellite s h e =
    let header = atsc_parse_hdr pkt len 0 s.vct_curver in
    ground (
      arith,
      h,
      e,
      parse_vct-text env pkt len header.pos satellite (record s { vct_curver = header.ver }) h,
    )

psip_table-text :
    (env : Env) (pkt : Memory) (len : ℕ) (s : Atsc)
    → s.vctstr ≢ none
    → (psip_table env pkt len s).0.vctstr ≢ none
unfolding psip_table
psip_table-text env pkt len s h e = ground (
  arith,
  h,
  e,
  mgt_table-vctstr pkt len s,
  vct_table-text env pkt len false s h,
  vct_table-text env pkt len true s h,
)

parse_tbl-text :
    (env : Env) (pkt : Memory) (len pid : ℕ) (s : Atsc)
    → s.vctstr ≢ none
    → (parse_tbl env pkt len pid s).0.vctstr ≢ none
unfolding parse_tbl
parse_tbl-text env pkt len pid s h e = ground (
  arith,
  h,
  e,
  pat_table-vctstr env pkt len s,
  pmt_table-vctstr pkt len s,
  psip_table-text env pkt len s h,
)

after_table-text :
    (pid : ℕ) (r : Atsc × Ret) → r.0.vctstr ≢ none → (after_table pid r).0.vctstr ≢ none
after_table-text pid (s, done) h = h
after_table-text pid (s, failed) h = h
after_table-text pid (s, runaway) h = h

try_section-text :
    (env : Env) (pid : ℕ) (buf : Memory) (s : Atsc)
    → s.vctstr ≢ none
    → (try_section env pid buf s).0.vctstr ≢ none
unfolding try_section
try_section-text env pid buf s h e = ground (
  arith,
  h,
  e,
  after_table-text pid (parse_tbl env buf (section_len buf) pid s)
      (parse_tbl-text env buf (section_len buf) pid s h),
)

fill-text :
    (env : Env) (pkt : Memory) (pid pos at len : ℕ) (buf : Memory) (s : Atsc)
    → s.vctstr ≢ none
    → (fill env pkt pid pos at len buf s).0.vctstr ≢ none
unfolding fill store_bytes
fill-text env pkt pid pos at len buf s h =
    let dst = memcpy buf at pkt pos len in
    try_section-text env pid dst (store_bytes pid dst (at + len) s) h

start_unit-text :
    (env : Env) (pkt : Memory) (pid pos : ℕ) (s : Atsc)
    → s.vctstr ≢ none
    → (start_unit env pkt pid pos s).0.vctstr ≢ none
unfolding start_unit
start_unit-text env pkt pid pos s h e =
    let start = pos + (pkt pos + 1) in
    elim (Option-cases (s.pktlist pid)) [
      | inl c ↦ ground (arith, h, e, c, fill-text env pkt pid start 0 (188 - start) env.fresh s h)
      | inr (buf, c) ↦ ground (arith, h, e, c, fill-text env pkt pid start 0 (188 - start) buf s h)
    ]

continue_unit-text :
    (env : Env) (pkt : Memory) (pid pos : ℕ) (s : Atsc)
    → s.vctstr ≢ none
    → (continue_unit env pkt pid pos s).0.vctstr ≢ none
unfolding continue_unit
continue_unit-text env pkt pid pos s h e = elim (Option-cases (s.pktlist pid)) [
  | inl c ↦ ground (arith, h, e, c)
  | inr (buf, c) ↦
      let filled = s.pktlen pid in
      ground
        (arith, h, e, c, fill-text env pkt pid pos filled (room_for filled (188 - pos)) buf s h)
]

thread_demux-text :
    (env : Env) (pkt : Memory) (s : Atsc)
    → s.vctstr ≢ none
    → (thread_demux env pkt s).0.vctstr ≢ none
unfolding thread_demux demux_payload dump
thread_demux-text env pkt s h e =
    let t = dump env pkt s in
    let same : t.vctstr ≡ s.vctstr = ground arith in
    let there : t.vctstr ≢ none = λ f. h (sym same ∙ f) in
    ground (
      arith,
      h,
      e,
      there,
      start_unit-text env pkt (packet_pid pkt) (payload_start pkt) t there,
      continue_unit-text env pkt (packet_pid pkt) (payload_start pkt) t there,
    )

and_then-text :
    (r : Atsc × Ret) (k : Atsc → Atsc × Ret)
    → r.0.vctstr ≢ none
    → ((s : Atsc) → s.vctstr ≢ none → (k s).0.vctstr ≢ none)
    → (and_then r k).0.vctstr ≢ none
and_then-text (s, done) k h step = step s h
and_then-text (s, failed) k h step = h
and_then-text (s, runaway) k h step = h

-- A channel table's text that is there is not dropped by packets, whatever they hold.
pub demux_all-text :
    (packets : List (Env × Memory)) (s : Atsc)
    → s.vctstr ≢ none
    → (demux_all packets s).0.vctstr ≢ none
unfolding demux_all
demux_all-text [] s h = h
demux_all-text ((env, pkt) ∷ rest) s h =
    and_then-text (thread_demux env pkt s) (λ t. demux_all rest t) (thread_demux-text env pkt s h)
      (λ t k. demux_all-text rest t k)
