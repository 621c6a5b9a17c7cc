-- ===== src/Atsc/Demux/Delivery.antt =====
-- A section that is spread over packets (mpgatsc.cpp, `thread_demux`): which calls only collect, which
-- one parses, and what it parses.
use seztuner.Prelude.{
  ℕ, ◌+◌, ◌-◌, ◌<◌, List, ◌++◌, ◌≡◌, ◌≢◌, sym, ap, ◌∙◌, arith, none, some, true, bit_and, length,
  inl, inr, ◌⊎◌, Option-cases,
}
use seztuner.Atsc.Memory.{Memory, bytes, memcpy, Atsc, Env}
use seztuner.Atsc.Demux.{
  max_pkt_len, packet_pid, payload_start, store_bytes, fill, start_unit, room_for, continue_unit,
  demux_payload, dump, thread_demux,
}
use seztuner.Atsc.Demux.Contents.{length-bytes, bytes-memcpy}
use seztuner.Atsc.Demux.Reassembly.{stored, stored_len}

-- A good packet of this PID.
pub record Carries (pkt : Memory) (pid : ℕ) : Type 0 where
  pub sync : pkt 0 ≡ 0x47
  pub intact : bit_and (pkt 1) 0x80 ≡ 0
  pub of_pid : packet_pid pkt ≡ pid
  pub has_payload : payload_start pkt < 188

-- Its payload, when it goes on with a section.
abbrev pub payload : Memory → List ℕ
payload pkt = bytes pkt (payload_start pkt) (188 - payload_start pkt)

pub record Continues (pkt : Memory) (pid : ℕ) : Type 0 where
  pub carries : Carries pkt pid
  pub no_start : bit_and (pkt 1) 0x40 ≡ 0

-- Where a section begins, behind the pointer field, and its bytes up to the end of the packet.
abbrev pub unit_start : Memory → ℕ
unit_start pkt = payload_start pkt + (pkt (payload_start pkt) + 1)

abbrev pub unit : Memory → List ℕ
unit pkt = bytes pkt (unit_start pkt) (188 - unit_start pkt)

pub record Starts (pkt : Memory) (pid : ℕ) : Type 0 where
  pub carries : Carries pkt pid
  pub start : bit_and (pkt 1) 0x40 ≢ 0
  pub within : unit_start pkt < 188

-- The buffer of this PID holds the bytes `b`.
pub record Holds (s : Atsc) (pid : ℕ) (b : List ℕ) : Type 0 where
  pub block : Memory
  pub here : s.pktlist pid ≡ some block
  pub filled : s.pktlen pid ≡ length b
  pub contents : bytes block 0 (length b) ≡ b

-- Everything but the buffers and the dump file is the same.
pub record SameTables (s t : Atsc) : Type 0 where
  pub pat_curver : s.pat_curver ≡ t.pat_curver
  pub pat_tsid : s.pat_tsid ≡ t.pat_tsid
  pub pmt_pid : s.pmt_pid ≡ t.pmt_pid
  pub pmt_curver : s.pmt_curver ≡ t.pmt_curver
  pub pcr_pid : s.pcr_pid ≡ t.pcr_pid
  pub mgt_curver : s.mgt_curver ≡ t.mgt_curver
  pub vct_curver : s.vct_curver ≡ t.vct_curver
  pub pat_use : s.pat_use ≡ t.pat_use
  pub pat_max : s.pat_max ≡ t.pat_max
  pub pat : s.pat ≡ t.pat
  pub pat_block : s.pat_block ≡ t.pat_block
  pub vctstr : s.vctstr ≡ t.vctstr
  pub tvch : s.tvch ≡ t.tvch

-- A good packet reaches its branch of `thread_demux`.
thread_demux-Starts :
    (env : Env) (pkt : Memory) (s : Atsc) (pid : ℕ)
    → Starts pkt pid
    → thread_demux env pkt s ≡ start_unit env pkt pid (payload_start pkt) (dump env pkt s)
unfolding thread_demux demux_payload
thread_demux-Starts env pkt s pid h = ground arith

thread_demux-Continues :
    (env : Env) (pkt : Memory) (s : Atsc) (pid : ℕ)
    → Continues pkt pid
    → thread_demux env pkt s ≡ continue_unit env pkt pid (payload_start pkt) (dump env pkt s)
unfolding thread_demux demux_payload
thread_demux-Continues env pkt s pid h = ground arith

pub dump-buffers :
    (env : Env) (pkt : Memory) (s : Atsc)
    → ((dump env pkt s).pktlist ≡ s.pktlist) × ((dump env pkt s).pktlen ≡ s.pktlen)
unfolding dump
dump-buffers env pkt s = ground arith

pub stored-SameTables :
    (env : Env) (q : Memory) (s : Atsc) (pkt : Memory) (pid pos at len : ℕ) (buf : Memory)
    → SameTables (stored (dump env q s) pkt pid pos at len buf) s
unfolding dump store_bytes
stored-SameTables env q s pkt pid pos at len buf = ground arith

stored_block :
    (s : Atsc) (pkt : Memory) (pid pos at len : ℕ) (buf : Memory)
    → (stored s pkt pid pos at len buf).pktlist pid ≡ some (memcpy buf at pkt pos len)
unfolding store_bytes
stored_block s pkt pid pos at len buf = ground arith

pub stored-Holds :
    (s : Atsc) (pkt : Memory) (pid pos at len : ℕ) (buf : Memory) (b : List ℕ)
    → bytes buf 0 at ++ bytes pkt pos len ≡ b
    → Holds (stored s pkt pid pos at len buf) pid b
stored-Holds s pkt pid pos at len buf b e =
    let copied = bytes-memcpy buf pkt at pos len ∙ e in
    let size : at + len ≡ length b =
      sym (length-bytes (memcpy buf at pkt pos len) 0 (at + len)) ∙ ap length copied in
    record {
      block = memcpy buf at pkt pos len;
      here = stored_block s pkt pid pos at len buf;
      filled = stored_len s pkt pid pos at len buf ∙ size;
      contents = ap (bytes (memcpy buf at pkt pos len) 0) (sym size) ∙ copied;
    }

-- Room for a packet's first section: the block is there, or is allocated now.
abbrev pub CanStore : Env → Atsc → ℕ → Type 0
CanStore env s pid = (s.pktlist pid ≢ none) ⊎ (env.malloc_pkt_ok ≡ true)

start_unit_known :
    (env : Env) (pkt : Memory) (pid pos : ℕ) (s : Atsc) (buf : Memory)
    → pos + (pkt pos + 1) < 188
    → s.pktlist pid ≡ some buf
    → start_unit env pkt pid pos s
      ≡ fill env pkt pid (pos + (pkt pos + 1)) 0 (188 - (pos + (pkt pos + 1))) buf s
unfolding start_unit
start_unit_known env pkt pid pos s buf h e = ground arith

start_unit_fresh :
    (env : Env) (pkt : Memory) (pid pos : ℕ) (s : Atsc)
    → pos + (pkt pos + 1) < 188
    → s.pktlist pid ≡ none
    → env.malloc_pkt_ok ≡ true
    → start_unit env pkt pid pos s
      ≡ fill env pkt pid (pos + (pkt pos + 1)) 0 (188 - (pos + (pkt pos + 1))) env.fresh s
unfolding start_unit
start_unit_fresh env pkt pid pos s h e k = ground arith

continue_unit_known :
    (env : Env) (pkt : Memory) (pid pos n : ℕ) (s : Atsc) (buf : Memory)
    → s.pktlist pid ≡ some buf
    → s.pktlen pid ≡ n
    → 0 < n
    → n < max_pkt_len
    → pos < 188
    → continue_unit env pkt pid pos s ≡ fill env pkt pid pos n (room_for n (188 - pos)) buf s
unfolding continue_unit
continue_unit_known env pkt pid pos n s buf e l some_bytes room before =
    let space : 0 < room_for n (188 - pos) = unfold room_for in ground arith in
    ground (arith, space)

pub start_unit-fill :
    (env : Env) (pkt : Memory) (s : Atsc) (pid : ℕ)
    → Starts pkt pid
    → CanStore env s pid
    → (buf : Memory) × (thread_demux env pkt s
        ≡ fill env pkt pid (unit_start pkt) 0 (188 - unit_start pkt) buf (dump env pkt s))
start_unit-fill env pkt s pid h room = elim (Option-cases (s.pktlist pid)) [
  | inl e ↦ (
    env.fresh,
    thread_demux-Starts env pkt s pid h
        ∙ start_unit_fresh env pkt pid (payload_start pkt) (dump env pkt s) h.within
            (ap (λ f. f pid) (dump-buffers env pkt s).0 ∙ e) (must_allocate e room),
  )
  | inr (buf, e) ↦ (
    buf,
    thread_demux-Starts env pkt s pid h
        ∙ start_unit_known env pkt pid (payload_start pkt) (dump env pkt s) buf h.within
            (ap (λ f. f pid) (dump-buffers env pkt s).0 ∙ e),
  )
]
  where
    must_allocate : s.pktlist pid ≡ none → CanStore env s pid → env.malloc_pkt_ok ≡ true
    must_allocate e (inl some_block) = absurd (some_block e)
    must_allocate e (inr granted) = granted

pub continue_unit-fill :
    (env : Env) (pkt : Memory) (s : Atsc) (pid : ℕ) (b : List ℕ) (c : Continues pkt pid)
    (h : Holds s pid b)
    → 0 < length b
    → length b < max_pkt_len
    → thread_demux env pkt s
      ≡ fill env pkt pid
          (payload_start pkt)
          (length b)
          (room_for (length b) (188 - payload_start pkt))
          h.block
          (dump env pkt s)
continue_unit-fill env pkt s pid b c h some_bytes room =
    let same = dump-buffers env pkt s in
    thread_demux-Continues env pkt s pid c
    ∙ continue_unit_known env pkt pid (payload_start pkt) (length b) (dump env pkt s) h.block
        (ap (λ f. f pid) same.0 ∙ h.here) (ap (λ f. f pid) same.1 ∙ h.filled) some_bytes room
        c.carries.has_payload
