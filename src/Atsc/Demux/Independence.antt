-- ===== src/Atsc/Demux/Independence.antt =====
-- What packets of one PID do to the buffers of the others (mpgatsc.cpp, `thread_demux`).
use seztuner.Prelude.{ℕ, ◌+◌, ◌≡◌, ◌≢◌, refl, arith, ap, ◌∙◌, List, [], ◌∷◌}
use seztuner.Atsc.Memory.{Memory, memcpy, Atsc, Env, Ret, done, failed, runaway}
use seztuner.Atsc.Table.{parse_tbl}
use seztuner.Atsc.Demux.{
  packet_pid, payload_start, section_len, store_bytes, after_table, try_section, fill, start_unit,
  continue_unit, demux_payload, dump, thread_demux, and_then, demux_all,
}
use seztuner.Atsc.Demux.Buffers.{SameBuffers, parse_tbl-SameBuffers}

-- PID `p` has the same buffer, filled to the same length.
pub record Untouched (p : ℕ) (s t : Atsc) : Type 0 where
  pub same_block : s.pktlist p ≡ t.pktlist p
  pub same_fill : s.pktlen p ≡ t.pktlen p

-- No packet is of this PID.
abbrev pub AllOther : ℕ → List (Env × Memory) → Type 0
AllOther p [] = Unit {0}
AllOther p ((env, pkt) ∷ rest) = (packet_pid pkt ≢ p) × AllOther p rest

Untouched-refl : (p : ℕ) (s : Atsc) → Untouched p s s
Untouched-refl p s = record { same_block = refl; same_fill = refl }

Untouched-trans : (p : ℕ) (s t u : Atsc) → Untouched p s t → Untouched p t u → Untouched p s u
Untouched-trans p s t u h k = record {
  same_block = h.same_block ∙ k.same_block;
  same_fill = h.same_fill ∙ k.same_fill;
}

SameBuffers-Untouched : (p : ℕ) (s t : Atsc) → SameBuffers s t → Untouched p s t
SameBuffers-Untouched p s t h = record {
  same_block = ap (λ f. f p) h.same_list;
  same_fill = ap (λ f. f p) h.same_len;
}

after_table-Untouched :
    (pid p : ℕ) (r : Atsc × Ret) (s : Atsc)
    → pid ≢ p
    → Untouched p r.0 s
    → Untouched p (after_table pid r).0 s
after_table-Untouched pid p (t, runaway) s other h = h
after_table-Untouched pid p (t, done) s other h = ground arith
after_table-Untouched pid p (t, failed) s other h = ground arith

try_section-Untouched :
    (env : Env) (pid p : ℕ) (buf : Memory) (s : Atsc)
    → pid ≢ p
    → Untouched p (try_section env pid buf s).0 s
unfolding try_section
try_section-Untouched env pid p buf s other =
    let parsed = parse_tbl env buf (section_len buf) pid s in
    let kept : Untouched p (after_table pid parsed).0 s =
      after_table-Untouched pid p parsed s other (
        SameBuffers-Untouched p parsed.0 s
          (parse_tbl-SameBuffers env buf (section_len buf) pid s)) in
    ground (arith, kept)

store_bytes-Untouched :
    (pid p : ℕ) (buf : Memory) (n : ℕ) (s : Atsc)
    → pid ≢ p
    → Untouched p (store_bytes pid buf n s) s
unfolding store_bytes
store_bytes-Untouched pid p buf n s other = ground arith

fill-Untouched :
    (env : Env) (pkt : Memory) (pid p pos at len : ℕ) (buf : Memory) (s : Atsc)
    → pid ≢ p
    → Untouched p (fill env pkt pid pos at len buf s).0 s
unfolding fill
fill-Untouched env pkt pid p pos at len buf s other =
    let buf' = memcpy buf at pkt pos len in
    let t = store_bytes pid buf' (at + len) s in
    Untouched-trans p (try_section env pid buf' t).0 t s
      (try_section-Untouched env pid p buf' t other)
      (store_bytes-Untouched pid p buf' (at + len) s other)

start_unit-Untouched :
    (env : Env) (pkt : Memory) (pid p pos : ℕ) (s : Atsc)
    → pid ≢ p
    → Untouched p (start_unit env pkt pid pos s).0 s
unfolding start_unit
start_unit-Untouched env pkt pid p pos s other = grind (arith, fill-Untouched)

continue_unit-Untouched :
    (env : Env) (pkt : Memory) (pid p pos : ℕ) (s : Atsc)
    → pid ≢ p
    → Untouched p (continue_unit env pkt pid pos s).0 s
unfolding continue_unit
continue_unit-Untouched env pkt pid p pos s other = grind (arith, fill-Untouched)

dump-Untouched : (env : Env) (pkt : Memory) (p : ℕ) (s : Atsc) → Untouched p (dump env pkt s) s
unfolding dump
dump-Untouched env pkt p s = ground arith

pub thread_demux-Untouched :
    (env : Env) (pkt : Memory) (p : ℕ) (s : Atsc)
    → packet_pid pkt ≢ p
    → Untouched p (thread_demux env pkt s).0 s
unfolding thread_demux demux_payload
thread_demux-Untouched env pkt p s other =
    let u = dump env pkt s in
    let dumped = dump-Untouched env pkt p s in
    let started = start_unit-Untouched env pkt (packet_pid pkt) p (payload_start pkt) u other in
    let continued =
      continue_unit-Untouched env pkt (packet_pid pkt) p (payload_start pkt) u other in
    ground (arith, dumped, started, continued)

and_then-Untouched :
    (p : ℕ) (s : Atsc) (k : Atsc → Atsc × Ret)
    → ((t : Atsc) → Untouched p (k t).0 t)
    → (r : Atsc × Ret) → Untouched p r.0 s
    → Untouched p (and_then r k).0 s
and_then-Untouched p s k later (t, done) h = Untouched-trans p (k t).0 t s (later t) h
and_then-Untouched p s k later (t, failed) h = h
and_then-Untouched p s k later (t, runaway) h = h

-- Any sequence of packets of which none is of a PID, damaged or not, leaves that PID's buffer and its
-- fill count as they were.
pub demux_all-Untouched :
    (p : ℕ) (packets : List (Env × Memory)) (s : Atsc)
    → AllOther p packets
    → Untouched p (demux_all packets s).0 s
unfolding demux_all
demux_all-Untouched p [] s h = Untouched-refl p s
demux_all-Untouched p ((env, pkt) ∷ rest) s (other, others) =
    and_then-Untouched p s (λ t. demux_all rest t) (λ t. demux_all-Untouched p rest t others)
      (thread_demux env pkt s) (thread_demux-Untouched env pkt p s other)
