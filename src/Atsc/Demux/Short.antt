-- ===== src/Atsc/Demux/Short.antt =====
-- The length of the channel table's text while packets of bytes are taken (mpgatsc.cpp).
use seztuner.Prelude.{
  ℕ, ◌+◌, ◌-◌, ◌<◌, ◌≡◌, sym, subst, ◌∙◌, ap, refl, arith, List, [], ◌∷◌, Option, none, some, Bool,
  true, false, IsByte, leb, ◌==◌, ◌||◌, ◌&&◌, not, bit_and, if◌then◌else◌, length, Bool-cases, inl,
  inr,
}
use seztuner.Atsc.Memory.{Memory, memcpy, Atsc, Env, Ret, done, failed, runaway}
use seztuner.Atsc.Section.{atsc_parse_hdr}
use seztuner.Atsc.Channels.Text.{parse_vct_fits}
use seztuner.Atsc.Table.{
  pat_table, mgt_table, vct_table, pmt_table, psip_table, parse_tbl, among, ignored_tables,
}
use seztuner.Atsc.Demux.{
  init, reset, dump, section_len, after_table, try_section, store_bytes, fill, packet_pid,
  start_unit, room_for, continue_unit, demux_payload, payload_start, thread_demux, and_then,
  demux_all,
}
use seztuner.Atsc.Demux.Buffers.{parse_tbl-SameBuffers}
use seztuner.Atsc.Demux.Texts.{pat_table-vctstr, mgt_table-vctstr, pmt_table-vctstr}

abbrev pub AreBytes : Memory → Type 0
AreBytes m = (i : ℕ) → IsByte (m i)

abbrev pub IsShort : Option (List ℕ) → Type 0
IsShort o = (text : List ℕ) → o ≡ some text → length text < 65536

-- What was received is bytes, and the text has room.
pub record Small (s : Atsc) : Type 0 where
  pub bytes : (pid : ℕ) (buf : Memory) → s.pktlist pid ≡ some buf → AreBytes buf
  pub short : IsShort s.vctstr

if-IsShort :
    (b : Bool) (x y : Atsc × Ret)
    → IsShort x.0.vctstr
    → IsShort y.0.vctstr
    → IsShort (if b then x else y).0.vctstr
if-IsShort true x y h k = h
if-IsShort false x y h k = k

vct_table-IsShort :
    (env : Env) (pkt : Memory) (len : ℕ) (satellite : Bool) (s : Atsc)
    → AreBytes pkt
    → IsShort s.vctstr
    → IsShort (vct_table env pkt len satellite s).0.vctstr
unfolding vct_table
vct_table-IsShort env pkt len satellite s b h =
    let header = atsc_parse_hdr pkt len 0 s.vct_curver in
    if-IsShort header.accepted _ _
      (λ text e.
        parse_vct_fits env pkt len header.pos satellite (record s { vct_curver = header.ver }) text
          (b header.pos) e)
      h

same-IsShort : (s t : Atsc) → t.vctstr ≡ s.vctstr → IsShort s.vctstr → IsShort t.vctstr
same-IsShort s t e h text f = h text (sym e ∙ f)

psip_table-IsShort :
    (env : Env) (pkt : Memory) (len : ℕ) (s : Atsc)
    → AreBytes pkt
    → IsShort s.vctstr
    → IsShort (psip_table env pkt len s).0.vctstr
unfolding psip_table
psip_table-IsShort env pkt len s b h =
    if-IsShort (pkt 0 == 0xc7) _ _
      (same-IsShort s (mgt_table pkt len s).0 (mgt_table-vctstr pkt len s) h)
      (if-IsShort (pkt 0 == 0xc8 || pkt 0 == 0xc9) _ _ (vct_table-IsShort env pkt len false s b h) (
        if-IsShort (pkt 0 == 0xda) _ _ (vct_table-IsShort env pkt len true s b h)
          (if-IsShort (among (pkt 0) ignored_tables) _ _ h h)))

parse_tbl-IsShort :
    (env : Env) (pkt : Memory) (len pid : ℕ) (s : Atsc)
    → AreBytes pkt
    → IsShort s.vctstr
    → IsShort (parse_tbl env pkt len pid s).0.vctstr
unfolding parse_tbl
parse_tbl-IsShort env pkt len pid s b h =
    if-IsShort (pid == 0) _ _
      (same-IsShort s (pat_table env pkt len s).0 (pat_table-vctstr env pkt len s) h)
      (if-IsShort (pid == 0x1ffb) _ _ (psip_table-IsShort env pkt len s b h) (
        if-IsShort (pid == 0x1fff) _ _ h (
          if-IsShort (pid == s.pmt_pid) _ _
            (same-IsShort s (pmt_table pkt len s).0 (pmt_table-vctstr pkt len s) h) h)))

parse_tbl-Small :
    (env : Env) (pkt : Memory) (len pid : ℕ) (s : Atsc)
    → AreBytes pkt
    → Small s
    → Small (parse_tbl env pkt len pid s).0
parse_tbl-Small env pkt len pid s b h =
    let same = parse_tbl-SameBuffers env pkt len pid s in
    record {
      bytes = λ p buf e. h.bytes p buf (ap (λ f. f p) (sym same.same_list) ∙ e);
      short = parse_tbl-IsShort env pkt len pid s b h.short;
    }

if-Small : (b : Bool) (x y : Atsc × Ret) → Small x.0 → Small y.0 → Small (if b then x else y).0
if-Small true x y h k = h
if-Small false x y h k = k

after_table-Small : (pid : ℕ) (r : Atsc × Ret) → Small r.0 → Small (after_table pid r).0
after_table-Small pid (s, done) h = record { bytes = h.bytes; short = h.short }
after_table-Small pid (s, failed) h = record { bytes = h.bytes; short = h.short }
after_table-Small pid (s, runaway) h = h

try_section-Small :
    (env : Env) (pid : ℕ) (buf : Memory) (s : Atsc)
    → AreBytes buf
    → Small s
    → Small (try_section env pid buf s).0
unfolding try_section
try_section-Small env pid buf s b h = if-Small (s.pktlen pid == 0) _ _ h (
    if-Small (leb (section_len buf) (s.pktlen pid)) _ _
      (after_table-Small pid (parse_tbl env buf (section_len buf) pid s)
        (parse_tbl-Small env buf (section_len buf) pid s b h))
      h)

memcpy-AreBytes :
    (dst src : Memory) (to from n : ℕ)
    → AreBytes dst
    → AreBytes src
    → AreBytes (memcpy dst to src from n)
unfolding memcpy
memcpy-AreBytes dst src to from n h k i =
    let old = h i in let new = k (from + (i - to)) in ground (arith, old, new)

fill-Small :
    (env : Env) (pkt : Memory) (pid pos at len : ℕ) (buf : Memory) (s : Atsc)
    → AreBytes pkt
    → AreBytes buf
    → Small s
    → Small (fill env pkt pid pos at len buf s).0
unfolding fill store_bytes
fill-Small env pkt pid pos at len buf s b c h =
    let dst = memcpy buf at pkt pos len in
    let copied = memcpy-AreBytes buf pkt at pos len c b in
    try_section-Small env pid dst (store_bytes pid dst (at + len) s) copied (record {
      bytes = λ p block e. elim (Bool-cases (pid == p)) [
        | inl q ↦ let same : dst ≡ block = ground (arith, e, q) in subst AreBytes same copied
        | inr q ↦ h.bytes p block (ground (arith, e, q))
      ];
      short = h.short;
    })

abbrev SmallAfter : Atsc × Ret → Type 0
SmallAfter r = Small r.0

Option-Small :
    (o : Option Memory) (x : Atsc × Ret) (f : Memory → Atsc × Ret)
    → (o ≡ none → Small x.0)
    → ((buf : Memory) → o ≡ some buf → Small (f buf).0)
    → SmallAfter (elim o [ none ↦ x | some buf ↦ f buf ])
Option-Small none x f h k = h refl
Option-Small (some buf) x f h k = k buf refl

start_unit-Small :
    (env : Env) (pkt : Memory) (pid pos : ℕ) (s : Atsc)
    → AreBytes env.fresh
    → AreBytes pkt
    → Small s
    → Small (start_unit env pkt pid pos s).0
unfolding start_unit
start_unit-Small env pkt pid pos s f b h =
    let start = pos + (pkt pos + 1) in
    if-Small (leb 188 start) _ _ (record { bytes = h.bytes; short = h.short })
      (Option-Small (s.pktlist pid) _ _
        (λ _.
          if-Small env.malloc_pkt_ok _ _
            (fill-Small env pkt pid start 0 (188 - start) env.fresh s b f h)
            (record { bytes = h.bytes; short = h.short }))
        (λ buf e. fill-Small env pkt pid start 0 (188 - start) buf s b (h.bytes pid buf e) h))

continue_unit-Small :
    (env : Env) (pkt : Memory) (pid pos : ℕ) (s : Atsc)
    → AreBytes pkt
    → Small s
    → Small (continue_unit env pkt pid pos s).0
unfolding continue_unit
continue_unit-Small env pkt pid pos s b h =
    Option-Small (s.pktlist pid) _ _ (λ _. h)
      (λ buf e. if-Small (s.pktlen pid == 0) _ _ h (
        if-Small (room_for (s.pktlen pid) (188 - pos) == 0) _ _ h (
          fill-Small env pkt pid pos (s.pktlen pid) (room_for (s.pktlen pid) (188 - pos)) buf s b
            (h.bytes pid buf e) h)))

dump-Small : (env : Env) (pkt : Memory) (s : Atsc) → Small s → Small (dump env pkt s)
unfolding dump
dump-Small env pkt s h =
    let list : (dump env pkt s).pktlist ≡ s.pktlist = ground arith in
    let text : (dump env pkt s).vctstr ≡ s.vctstr = ground arith in
    record {
      bytes = λ p buf e. h.bytes p buf (ap (λ f. f p) (sym list) ∙ e);
      short = λ x e. h.short x (sym text ∙ e);
    }

thread_demux-Small :
    (env : Env) (pkt : Memory) (s : Atsc)
    → AreBytes env.fresh
    → AreBytes pkt
    → Small s
    → Small (thread_demux env pkt s).0
unfolding thread_demux demux_payload
thread_demux-Small env pkt s f b h =
    let t = dump env pkt s in
    let k = dump-Small env pkt s h in
    if-Small (not (pkt 0 == 0x47)) _ _ h (
      if-Small (not (bit_and (pkt 1) 0x80 == 0)) _ _ h (
        if-Small (not (bit_and (pkt 3) 0x20 == 0) && leb 188 (payload_start pkt)) _ _ k (
          if-Small (bit_and (pkt 1) 0x40 == 0) _ _
            (continue_unit-Small env pkt (packet_pid pkt) (payload_start pkt) t b k)
            (start_unit-Small env pkt (packet_pid pkt) (payload_start pkt) t f b k))))

-- Packets of bytes, and memory that holds bytes.
abbrev pub PacketsOfBytes : List (Env × Memory) → Type 0
PacketsOfBytes [] = Unit {0}
PacketsOfBytes ((env, pkt) ∷ rest) = (AreBytes env.fresh × AreBytes pkt) × PacketsOfBytes rest

and_then-Small :
    (r : Atsc × Ret) (k : Atsc → Atsc × Ret)
    → Small r.0
    → ((s : Atsc) → Small s → Small (k s).0)
    → Small (and_then r k).0
and_then-Small (s, done) k h step = step s h
and_then-Small (s, failed) k h step = h
and_then-Small (s, runaway) k h step = h

pub demux_all-Small :
    (packets : List (Env × Memory)) (s : Atsc)
    → PacketsOfBytes packets
    → Small s
    → Small (demux_all packets s).0
unfolding demux_all
demux_all-Small [] s b h = h
demux_all-Small ((env, pkt) ∷ rest) s b h =
    and_then-Small (thread_demux env pkt s) (λ t. demux_all rest t)
      (thread_demux-Small env pkt s b.0.0 b.0.1 h) (λ t k. demux_all-Small rest t b.1 k)

pub init-Small : (env : Env) (s : Atsc) → Small s → Small (init env s).0
unfolding init reset
init-Small env s h =
    if-Small s.iconv_hnd _ _ (record { bytes = h.bytes; short = λ x e. absurd (ground (arith, e)) })
      (if-Small env.iconv_open_ok _ _
        (record { bytes = h.bytes; short = λ x e. absurd (ground (arith, e)) })
        (record { bytes = h.bytes; short = h.short }))
