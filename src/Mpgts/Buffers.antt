-- ===== src/Mpgts/Buffers.antt =====
-- The buffers of both receivers while the thread runs (mpgts.cpp, `thread_main`).
use seztuner.Prelude.{ℕ, arith, List, [], ◌∷◌}
use seztuner.Atsc.Memory.{Memory, Atsc, Env, Ret, done, failed, runaway}
use seztuner.Atsc.Demux.{init, thread_demux, and_then, demux_all}
use seztuner.Atsc.Demux.Bounds.{IsValid, thread_demux-IsValid}
use seztuner.Mpgts.Thread.{Receivers, Turn, packets_from, thread_main}
use seztuner.Mpgts.Invariant.{AllKeep, thread_main-BothHold}

-- What holds of one receiver's buffers holds of both.
pub record BothValid (s : Receivers) : Type 0 where
  pub valid : (i : ℕ) → IsValid (s.atsc i)

and_then-IsValid :
    (r : Atsc × Ret) (k : Atsc → Atsc × Ret)
    → IsValid r.0
    → ((s : Atsc) → IsValid s → IsValid (k s).0)
    → IsValid (and_then r k).0
and_then-IsValid (s, done) k h step = step s h
and_then-IsValid (s, failed) k h step = h
and_then-IsValid (s, runaway) k h step = h

demux_all-IsValid :
    (packets : List (Env × Memory)) (s : Atsc) → IsValid s → IsValid (demux_all packets s).0
unfolding demux_all
demux_all-IsValid [] s h = h
demux_all-IsValid ((env, pkt) ∷ rest) s h =
    and_then-IsValid (thread_demux env pkt s) (λ t. demux_all rest t)
      (thread_demux-IsValid env pkt s h) (λ t k. demux_all-IsValid rest t k)

init_keeps-IsValid : (env : Env) (s : Atsc) → IsValid s → IsValid (init env s).0
unfolding init
init_keeps-IsValid env s h p = let kept = h p in ground (arith, kept)

IsValid-AllKeep : (turns : List Turn) → AllKeep IsValid turns
IsValid-AllKeep [] = tt
IsValid-AllKeep (turn ∷ rest) = (
  record {
    reset = λ i a h. init_keeps-IsValid (turn.init_env i) a h;
    packets = λ i r rx a e h. demux_all-IsValid (packets_from (turn.packet_env i) rx r 12 r) a h;
  },
  IsValid-AllKeep rest,
)

-- When the buffers of both receivers are within their bounds, they stay so through any number of rounds
-- of the receiving thread, whatever datagrams arrive, whatever the system and the C library answer, and
-- whichever round ends the thread.
pub thread_main-BothValid :
    (turns : List Turn) (s : Receivers) → BothValid s → BothValid (thread_main turns s).0
thread_main-BothValid turns s h =
    let kept =
      thread_main-BothHold IsValid turns s (IsValid-AllKeep turns) (record { of = h.valid }) in
    record { valid = kept.of }
