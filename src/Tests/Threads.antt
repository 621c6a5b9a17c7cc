-- ===== src/Tests/Threads.antt =====
-- The receiving thread and the program's requests to it (mpgts.cpp).
use seztuner.Prelude.{ℕ, ◌+◌, ◌≡◌, refl, ap, arith, [], ◌∷◌, true, false, if◌then◌else◌, none, ◌==◌}
use seztuner.Atsc.Memory.{Atsc, Ret, done}
use seztuner.Atsc.Demux.{init, reset}
use seztuner.Atsc.Demux.Bounds.{init-IsValid}
use seztuner.Mpgts.Thread.{
  Receivers, timeout, readable, lost, datagram, Turn, Status, going, next, with_atsc, clear,
  serve_reset, serve_resets, thread_turn, thread_main,
}
use seztuner.Mpgts.Buffers.{BothValid, thread_main-BothValid}
use seztuner.Mpgts.Control.{Mpgts, start_ts, begin_stream}
use seztuner.Mpgts.Control.Start.{Turns, start_ts-begin_stream}
use seztuner.Mpgts.Handshake.{
  Both, Step, select, no_request, request, ask, look_passes, look_waits, opened, Reach, begin,
  later, through, reading,
}
use seztuner.Mpgts.Handshake as Handshake
use seztuner.Mpgts.Handshake.Safety.{start_ts_reset}
use seztuner.Tests.Inputs.{buffer, library, fresh_state}
use seztuner.Tests.Channels.{device, tuned}

opens : (init library fresh_state).1 ≡ done
unfolding init reset
opens = refl

abbrev receivers : Receivers
receivers = record { atsc = λ i. (init library fresh_state).0; want_reset = λ i. 0 }

-- A datagram for the first receiver.
abbrev busy : Turn
busy = record {
  select = readable (λ i. i == 0);
  received = λ i. datagram 1328 (
      buffer (
        0 ∷ 0 ∷ 0 ∷ 1 ∷ 0 ∷ 0 ∷ 0 ∷ 0 ∷ 0 ∷ 0 ∷ 0 ∷ 0 ∷ 0x47 ∷ 0x5f ∷ 0xfb ∷ 0x10 ∷ 0 ∷ 0xc8 ∷ 0xf1
        ∷ 0x8d ∷ []));
  init_env = λ i. library;
  packet_env = λ i ofs. library;
}

thread_main-BothValid_example : BothValid (thread_main (busy ∷ []) receivers).0
thread_main-BothValid_example =
    thread_main-BothValid (busy ∷ []) receivers
      (record { valid = λ i. init-IsValid library fresh_state opens })

abbrev quiet : Turn
quiet = record {
  select = timeout;
  received = λ i. lost;
  init_env = λ i. library;
  packet_env = λ i ofs. library;
}

init-library : (s : Atsc) → (init library s).1 ≡ done
unfolding init
init-library s = ground arith

with_atsc-going :
    (i : ℕ) (s : Receivers) (r : Atsc × Ret) → r.1 ≡ done → (with_atsc i s r).1 ≡ going
with_atsc-going i s r e = ground (arith, e)

serve_reset-going : (i : ℕ) (s : Receivers) → (serve_reset quiet i s).1 ≡ going
unfolding serve_reset
serve_reset-going i s =
    let reset = with_atsc-going i (clear i s) (init library (s.atsc i)) (init-library (s.atsc i)) in
    ground (arith, reset)

next-going :
    (r : Receivers × Status) (k : Receivers → Receivers × Status)
    → r.1 ≡ going
    → ((s : Receivers) → (k s).1 ≡ going)
    → (next r k).1 ≡ going
next-going (s, going) k e h = h s
next-going (s, Status.returned) k e h = absurd (ground (arith, e))
next-going (s, Status.hung) k e h = absurd (ground (arith, e))

quiet-going : (s : Receivers) → (thread_turn quiet s).1 ≡ going
unfolding thread_turn serve_resets
quiet-going s =
    next-going (serve_reset quiet 0 s) (serve_reset quiet 1) (serve_reset-going 0 s)
      (serve_reset-going 1)

abbrev sleeping : ℕ → Mpgts (Unit {0}) → Mpgts (Unit {0})
sleeping k s = if k == 1 then record s { shared = (thread_turn quiet s.shared).0 } else s

abbrev pub program : Mpgts (Unit {0})
program = record {
  tun = tuned;
  shared = receivers;
  udp_sock = λ i. none;
  udp_port = λ i. 4000 + i;
  tsth = true;
}

sleeping-Turns : Turns sleeping 1
sleeping-Turns = record {
  turn = λ s. quiet;
  completes = λ s. ap (λ (x : Status). ((thread_turn quiet s.shared).0, x)) (quiet-going s.shared);
}

start_ts-begin_stream_example :
    (u : Mpgts (Unit {0})) × (u.shared.want_reset 1 ≡ 0)
    × (start_ts device sleeping 0x7f000001 1 program ≡ begin_stream device sleeping 0x7f000001 1 u)
start_ts-begin_stream_example =
    start_ts-begin_stream device sleeping 0x7f000001 1 1 program (omega arith) (omega arith)
      sleeping-Turns

abbrev fresh : ℕ → Atsc
fresh i = fresh_state

-- The program asks for receiver 0, the thread makes the reset, and the program sees it before the thread goes on.
asked : (s : Both) × Reach fresh s × (s.caller ≡ through 0) × (s.place ≡ reading 0)
asked = (
  _,
  later
      (later
        (later
          (later (later (later begin (ask 0 0 refl (omega arith))) (select refl))
            (request 0 refl (λ e. absurd (omega (arith, e)))))
          (Handshake.Step.reset 0 library refl opens))
        (look_passes 0 0 refl (omega arith) refl))
      (no_request 1 refl refl),
  refl,
  refl,
)

start_ts_reset_example : asked.0.owed 0 ≡ false
start_ts_reset_example = start_ts_reset fresh asked.0 0 0 asked.1 asked.2 asked.3
