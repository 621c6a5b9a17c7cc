-- ===== src/Tests/Packets.antt =====
-- A section over three packets, and the bounds of the buffers (mpgatsc.cpp, `thread_demux`).
use seztuner.Prelude.{ap, ◌≤◌, ◌<◌, ◌≡◌, ◌≢◌, inr, refl, arith, [], ◌∷◌, ◌++◌, length}
use seztuner.Atsc.Memory.{Memory, Atsc, Ret, done}
use seztuner.Atsc.Demux.{packet_pid, reset, init, payload_start, thread_demux, demux_all}
use seztuner.Atsc.Demux.Bounds.{IsValid, thread_demux-IsValid, init-IsValid}
use seztuner.Atsc.Demux.Reassembly.{announced, Parses}
use seztuner.Atsc.Demux.Delivery.{Starts, Continues, SameTables, payload, unit}
use seztuner.Atsc.Demux.Sections.{payloads, demux_all_delivers}
use seztuner.Atsc.Demux.Independence.{Untouched, demux_all-Untouched}
use seztuner.Atsc.Demux.Assembler.{Represents, assemble}
use seztuner.Atsc.Demux.Assembler.Simulation.{empty-Represents}
use seztuner.Atsc.Demux.Assembler.Refinement.{demux_all-Represents}
use seztuner.Tests.Inputs.{buffer, library, fresh_state}

-- A section of 400 bytes for PID 0x1ffb starts in `first`, goes on in `more` and ends in a second such packet.
abbrev first : Memory
first = buffer (0x47 ∷ 0x5f ∷ 0xfb ∷ 0x10 ∷ 0 ∷ 0xc8 ∷ 0xf1 ∷ 0x8d ∷ [])

abbrev more : Memory
more = buffer (0x47 ∷ 0x1f ∷ 0xfb ∷ 0x11 ∷ 5 ∷ 6 ∷ 7 ∷ [])

opens : (init library fresh_state).1 ≡ done
unfolding init reset
opens = refl

thread_demux-IsValid_example : IsValid (thread_demux library first (init library fresh_state).0).0
thread_demux-IsValid_example =
    thread_demux-IsValid library first (init library fresh_state).0
      (init-IsValid library fresh_state opens)

first-Starts : Starts first 0x1ffb
unfolding payload_start
first-Starts = record {
  carries = record { sync = refl; intact = refl; of_pid = refl; has_payload = omega arith };
  start = λ e. absurd (omega (arith, e));
  within = omega arith;
}

more-Continues : Continues more 0x1ffb
unfolding payload_start
more-Continues = record {
  carries = record { sync = refl; intact = refl; of_pid = refl; has_payload = omega arith };
  no_start = refl;
}

waits :
    length (unit first ++ payloads ((library, more) ∷ []))
    < announced (unit first ++ payloads ((library, more) ∷ []))
unfolding payload_start announced
waits = omega arith

full :
    announced (unit first ++ payloads ((library, more) ∷ []) ++ payload more)
    ≤ length (unit first ++ payloads ((library, more) ∷ []) ++ payload more)
unfolding payload_start announced
full = omega arith

demux_all_delivers_example :
    (t u : Atsc) × (demux_all ((library, first) ∷ (library, more) ∷ []) fresh_state ≡ (u, done))
    × SameTables u fresh_state
    × SameTables t fresh_state
    × Parses library 0x1ffb
        (unit first ++ payloads ((library, more) ∷ []) ++ payload more)
        t
        (thread_demux library more u)
demux_all_delivers_example =
    demux_all_delivers library library first more ((library, more) ∷ []) fresh_state 0x1ffb
      first-Starts (inr refl) (more-Continues, tt) more-Continues waits full

other_pid : packet_pid first ≢ 0x10
other_pid e = absurd (omega (arith, e))

demux_all-Untouched_example :
    Untouched 0x10 (demux_all ((library, first) ∷ []) fresh_state).0 fresh_state
demux_all-Untouched_example =
    demux_all-Untouched 0x10 ((library, first) ∷ []) fresh_state (other_pid, tt)

both_return :
    demux_all ((library, first) ∷ (library, more) ∷ []) fresh_state
    ≡ ((demux_all ((library, first) ∷ (library, more) ∷ []) fresh_state).0, done)
both_return =
    ap
      (λ (r : Atsc × Ret).
        ((demux_all ((library, first) ∷ (library, more) ∷ []) fresh_state).0, r.1))
      demux_all_delivers_example.2

demux_all-Represents_example :
    Represents
      (assemble 0x1ffb ((library, first) ∷ (library, more) ∷ []) [])
      (demux_all ((library, first) ∷ (library, more) ∷ []) fresh_state).0
      0x1ffb
demux_all-Represents_example =
    demux_all-Represents 0x1ffb ((library, first) ∷ (library, more) ∷ []) fresh_state
      (demux_all ((library, first) ∷ (library, more) ∷ []) fresh_state).0 [] both_return
      (empty-Represents fresh_state 0x1ffb refl)
