-- ===== src/Atsc/Demux/Bounds.antt =====
-- Memory safety of the reassembly (mpgatsc.cpp, `thread_demux`): how far the buffers of `max_pkt_len` bytes
-- are filled.
use seztuner.Prelude.{ℕ, ◌+◌, ◌-◌, ◌≤◌, ◌≡◌, arith, none, ap, sym, inl, inr, ◌∙◌, Option-cases}
use seztuner.Atsc.Memory.{Memory, memcpy, Atsc, Env, Ret, done, failed, runaway}
use seztuner.Atsc.Table.{parse_tbl}
use seztuner.Atsc.Demux.{
  max_pkt_len, init, dump, payload_start, section_len, store_bytes, after_table, try_section, fill,
  start_unit, room_for, continue_unit, demux_payload, thread_demux, packet_pid,
}
use seztuner.Atsc.Demux.Buffers.{SameBuffers, parse_tbl-SameBuffers}

-- The buffer of one PID is filled within its bounds.
pub record Fits (s : Atsc) (pid : ℕ) : Type 0 where
  pub bounded : s.pktlen pid ≤ max_pkt_len
  pub allocated : s.pktlist pid ≡ none → s.pktlen pid ≡ 0

abbrev pub IsValid : Atsc → Type 0
IsValid s = (pid : ℕ) → Fits s pid

SameBuffers-Fits : (s t : Atsc) (pid : ℕ) → SameBuffers s t → Fits t pid → Fits s pid
SameBuffers-Fits s t pid same fits =
    let l : s.pktlen pid ≡ t.pktlen pid = ap (λ f. f pid) same.same_len in
    let p : s.pktlist pid ≡ t.pktlist pid = ap (λ f. f pid) same.same_list in
    record {
      bounded = omega (arith, l, fits.bounded);
      allocated = λ e. l ∙ fits.allocated (sym p ∙ e);
    }

after_table-Fits : (pid p : ℕ) (r : Atsc × Ret) → Fits r.0 p → Fits (after_table pid r).0 p
after_table-Fits pid p (s, runaway) h = h
after_table-Fits pid p (s, done) h = ground arith
after_table-Fits pid p (s, failed) h = ground arith

try_section-Fits :
    (env : Env) (pid : ℕ) (buf : Memory) (s : Atsc) (p : ℕ)
    → Fits s p
    → Fits (try_section env pid buf s).0 p
unfolding try_section
try_section-Fits env pid buf s p h =
    let parsed = parse_tbl env buf (section_len buf) pid s in
    let kept : Fits (after_table pid parsed).0 p =
      after_table-Fits pid p parsed
        (SameBuffers-Fits _ s p (parse_tbl-SameBuffers env buf (section_len buf) pid s) h) in
    ground (arith, kept)

store_bytes-Fits :
    (pid : ℕ) (buf : Memory) (n : ℕ) (s : Atsc) (p : ℕ)
    → n ≤ max_pkt_len
    → Fits s p
    → Fits (store_bytes pid buf n s) p
unfolding store_bytes
store_bytes-Fits pid buf n s p room h = ground arith

fill-Fits :
    (env : Env) (pkt : Memory) (pid pos at len : ℕ) (buf : Memory) (s : Atsc) (p : ℕ)
    → at + len ≤ max_pkt_len
    → Fits s p
    → Fits (fill env pkt pid pos at len buf s).0 p
unfolding fill
fill-Fits env pkt pid pos at len buf s p room h =
    let buf' = memcpy buf at pkt pos len in
    try_section-Fits env pid buf' (store_bytes pid buf' (at + len) s) p
      (store_bytes-Fits pid buf' (at + len) s p room h)

-- A copy into a buffer stays within it, and takes no more than the packet has.
room_for_bounds :
    (filled len : ℕ)
    → filled ≤ max_pkt_len
    → (filled + room_for filled len ≤ max_pkt_len) × (room_for filled len ≤ len)
unfolding room_for
room_for_bounds filled len h = ground arith

start_unit-Fits :
    (env : Env) (pkt : Memory) (pid pos : ℕ) (s : Atsc) (p : ℕ)
    → Fits s p
    → Fits (start_unit env pkt pid pos s).0 p
unfolding start_unit
start_unit-Fits env pkt pid pos s p h = grind (arith, fill-Fits)

continue_unit-Fits :
    (env : Env) (pkt : Memory) (pid pos : ℕ) (s : Atsc) (p : ℕ)
    → IsValid s
    → Fits (continue_unit env pkt pid pos s).0 p
unfolding continue_unit
continue_unit-Fits env pkt pid pos s p h =
    let len = room_for (s.pktlen pid) (188 - pos) in
    let room : s.pktlen pid + len ≤ max_pkt_len =
      (room_for_bounds (s.pktlen pid) (188 - pos) (h pid).bounded).0 in
    elim (Option-cases (s.pktlist pid)) [
      | inl e ↦ rw (e, continue_unit) (h p)
      | inr (buf, e) ↦
          rw (e, continue_unit)
            (ground (arith, h p, fill-Fits env pkt pid pos (s.pktlen pid) len buf s p room))
    ]

demux_payload-Fits :
    (env : Env) (pkt : Memory) (s : Atsc) (p : ℕ) → IsValid s → Fits (demux_payload env pkt s).0 p
unfolding demux_payload
demux_payload-Fits env pkt s p h = ground (
  arith,
  h p,
  start_unit-Fits env pkt (packet_pid pkt) (payload_start pkt) s p,
  continue_unit-Fits env pkt (packet_pid pkt) (payload_start pkt) s p h,
)

dump-SameBuffers : (env : Env) (pkt : Memory) (s : Atsc) → SameBuffers (dump env pkt s) s
unfolding dump
dump-SameBuffers env pkt s = ground arith

-- When each PID's buffer is filled at most to its 0x1003 bytes, and unfilled where none was allocated,
-- then the same holds after every transport packet, damaged or not, and whatever the C library answers.
pub thread_demux-IsValid :
    (env : Env) (pkt : Memory) (s : Atsc) → IsValid s → IsValid (thread_demux env pkt s).0
unfolding thread_demux
thread_demux-IsValid env pkt s h p = ground (
  arith,
  h p,
  demux_payload-Fits env pkt (dump env pkt s) p
      (λ q. SameBuffers-Fits _ s q (dump-SameBuffers env pkt s) (h q)),
)

-- When init succeeds, each PID's buffer is filled within its bounds, in whatever state it was called.
pub init-IsValid : (env : Env) (s : Atsc) → (init env s).1 ≡ done → IsValid (init env s).0
unfolding init
init-IsValid env s e p = ground arith
