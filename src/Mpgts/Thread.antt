-- ===== src/Mpgts/Thread.antt =====
-- `thread_main` (mpgts.cpp).
use seztuner.Prelude.{ℕ, zero, suc, ◌+◌, List, [], ◌∷◌, Bool, not, ltb, ◌==◌, if◌then◌else◌, update}
use seztuner.Atsc.Memory.{Memory, Atsc, Env, Ret, done, failed, runaway}
use seztuner.Atsc.Demux.{init, demux_all}

-- What the thread shares with the rest of the program.
pub record Receivers : Type 0 where
  pub atsc : ℕ → Atsc
  pub want_reset : ℕ → ℕ

-- `pselect` fails, runs out of time, or tells which sockets can be read.
pub data Select : Type 0 where
  broken timeout : Select
  readable : (ℕ → Bool) → Select

-- `recvfrom` fails, or gives a number of bytes.
pub data Received : Type 0 where
  lost : Received
  datagram : ℕ → Memory → Received

-- What the system and the C library answer in one round of the loop.
pub record Turn : Type 0 where
  pub select : Select
  pub received : ℕ → Received
  pub init_env : ℕ → Env
  pub packet_env : ℕ → ℕ → Env

-- The thread goes on, has returned, or is in a parser that does not return.
pub data Status : Type 0 where
  going returned hung : Status

abbrev pub next : Receivers × Status → (Receivers → Receivers × Status) → Receivers × Status
next (s, going) k = k s
next (s, returned) k = (s, returned)
next (s, hung) k = (s, hung)

abbrev pub set_atsc : ℕ → Atsc → Receivers → Receivers
set_atsc i a s = record s { atsc = update s.atsc i a }

abbrev pub with_atsc : ℕ → Receivers → Atsc × Ret → Receivers × Status
with_atsc i s (a, done) = (set_atsc i a s, going)
with_atsc i s (a, failed) = (set_atsc i a s, returned)
with_atsc i s (a, runaway) = (set_atsc i a s, hung)

unfoldable pub clear : ℕ → Receivers → Receivers
clear i s = record s { want_reset = update s.want_reset i 0 }

unfoldable pub serve_reset : Turn → ℕ → Receivers → Receivers × Status
serve_reset turn i s =
    if s.want_reset i == 0
    then (s, going)
    else with_atsc i (clear i s) (init (turn.init_env i) (s.atsc i))

-- The packets of 188 bytes from `ofs` on, of a datagram of `r` bytes.
unfoldable pub packets_from : (ℕ → Env) → Memory → ℕ → ℕ → ℕ → List (Env × Memory)
packets_from env rx r ofs zero = []
packets_from env rx r ofs (suc n) =
    if ltb ofs r then (env ofs, λ k. rx (ofs + k)) ∷ packets_from env rx r (ofs + 188) n else []

-- Only datagrams of 1328 bytes are taken: 12 bytes of header and seven packets.
unfoldable pub take_datagram : Turn → ℕ → Received → Receivers → Receivers × Status
take_datagram turn i lost s = (s, returned)
take_datagram turn i (datagram r rx) s =
    if r == 0
    then (s, going)
    else if not (r == 1328)
    then (s, going)
    else with_atsc i s (demux_all (packets_from (turn.packet_env i) rx r 12 r) (s.atsc i))

unfoldable pub receive : Turn → (ℕ → Bool) → ℕ → Receivers → Receivers × Status
receive turn set i s = if set i then take_datagram turn i (turn.received i) s else (s, going)

unfoldable pub serve_resets : Turn → Receivers → Receivers × Status
serve_resets turn s = next (serve_reset turn 0 s) (serve_reset turn 1)

abbrev pub after_select : Turn → Select → Receivers → Receivers × Status
after_select turn broken s = (s, returned)
after_select turn timeout s = serve_resets turn s
after_select turn (readable set) s =
    next (next (serve_resets turn s) (receive turn set 0)) (receive turn set 1)

-- One round of the loop.
unfoldable pub thread_turn : Turn → Receivers → Receivers × Status
thread_turn turn s = after_select turn turn.select s

unfoldable pub thread_main : List Turn → Receivers → Receivers × Status
thread_main [] s = (s, going)
thread_main (turn ∷ rest) s = next (thread_turn turn s) (thread_main rest)
