-- ===== src/Atsc/Demux/Assembler.antt =====
-- What `thread_demux` (mpgatsc.cpp) promises for one PID, without buffers: a list of bytes that waits for the
-- rest of its section.
pub mod Simulation
pub mod Refinement
use seztuner.Prelude.{
  ℕ, ◌+◌, ◌-◌, ◌*◌, ◌^◌, ◌≤◌, ◌<◌, ◌≡◌, ◌⊎◌, List, [], ◌∷◌, ◌++◌, Option, none, some, bit_and, not,
  leb, ◌==◌, if◌then◌else◌, length, ◌&&◌,
}
use seztuner.Atsc.Memory.{Memory, bytes, Atsc, Env}
use seztuner.Atsc.Demux.{packet_pid, payload_start}
use seztuner.Atsc.Demux.Reassembly.{announced}
use seztuner.Atsc.Demux.Delivery.{payload, unit_start, unit}

-- What a packet means for a PID.
pub data Event : Type 0 where
  nothing restart : Event
  begin more : List ℕ → Event

abbrev pub unit_event : Memory → Event
unit_event pkt = if leb 188 (unit_start pkt) then restart else begin (unit pkt)

abbrev pub payload_event : Memory → Event
payload_event pkt = if bit_and (pkt 1) 0x40 == 0 then more (payload pkt) else unit_event pkt

unfoldable pub event_of : ℕ → Memory → Event
event_of pid pkt =
    if not (packet_pid pkt == pid)
    then nothing
    else if not (bit_and (pkt 1) 0x80 == 0)
    then nothing
    else if not (bit_and (pkt 3) 0x20 == 0) && leb 188 (payload_start pkt)
    then nothing
    else payload_event pkt

-- A complete section is handed on, and the rest of its packet is thrown away.
unfoldable pub hand_on : List ℕ → List ℕ
hand_on c = if leb (announced c) (length c) then [] else c

unfoldable pub assemble_step : Event → List ℕ → List ℕ
assemble_step nothing c = c
assemble_step restart c = []
assemble_step (begin l) c = hand_on l
assemble_step (more l) [] = []
assemble_step (more l) (b ∷ c) = hand_on ((b ∷ c) ++ l)

unfoldable pub assemble : ℕ → List (Env × Memory) → List ℕ → List ℕ
assemble pid [] c = c
assemble pid ((env, pkt) ∷ rest) c = assemble pid rest (assemble_step (event_of pid pkt) c)

-- The bytes that the buffer of a PID holds.
unfoldable pub collected : Atsc → ℕ → List ℕ
collected s pid = elim (s.pktlist pid) [ none ↦ [] | some buf ↦ bytes buf 0 (s.pktlen pid) ]

-- The state stands for these bytes, and they are no complete section.
pub record Represents (c : List ℕ) (s : Atsc) (pid : ℕ) : Type 0 where
  pub same : collected s pid ≡ c
  pub allocated : s.pktlist pid ≡ none → s.pktlen pid ≡ 0
  pub unfinished : (c ≡ []) ⊎ (length c < announced c)
