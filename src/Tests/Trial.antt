-- ===== src/Tests/Trial.antt =====
-- A trial against a clock (main.cpp, `do_item`).
use seztuner.Prelude.{ℕ, ◌+◌, ◌/◌, ◌%◌, ◌≤◌, ◌≢◌, arith, [], ◌∷◌, ◌==◌, if◌then◌else◌, get_or}
use seztuner.Run.{ok, stuck, if-Leaves}
use seztuner.Socket.Bus.{Bus}
use seztuner.Tuner.{Tuner, ant1, vhf1}
use seztuner.Probe.{Time, strong_channels}
use seztuner.Probe.Clock.{Ticks}
use seztuner.Probe.Ending.{strong_channels_end}
use seztuner.Tests.Channels.{silence}

-- The world is the time in microseconds, and a request takes 300 of them. No channel is received.
abbrev slow : Bus ℕ
slow = record {
  write_then_read = λ request room d.
      if get_or request 5 0 == 0xb3
      then ok (0 ∷ 0x0d ∷ 0 ∷ 1 ∷ 0 ∷ []) (d + 300)
      else ok (0 ∷ 0x0d ∷ 0 ∷ 0 ∷ []) (d + 300);
  usleep = λ microseconds d. d + microseconds;
}

abbrev clock : ℕ → ℕ × Time
clock d = (d, record { sec = d / 1000000; usec = d % 1000000 })

slow-Ticks : Ticks slow clock (λ d. d)
slow-Ticks = record {
  asked = λ request room d.
      if-Leaves (λ e. d ≤ e) (get_or request 5 0 == 0xb3) _ _ (omega arith) (omega arith);
  slept = λ microseconds d. omega arith;
  onward = λ d. omega arith;
  exact = λ d. omega arith;
  usec = λ d. omega arith;
}

abbrev idle : Tuner ℕ
idle = record {
  dev = 43200000000;
  cur_gpio = 0x80f0;
  active_ant = ant1;
  ch_state = λ ch. record { i = vhf1; tvch = 7 };
}

strong_channels_end_example :
    strong_channels slow silence clock (record { sec = 43200; usec = 0 }) 23 (7 ∷ 9 ∷ 11 ∷ []) idle
    ≢ stuck
strong_channels_end_example =
    strong_channels_end slow silence clock (record { sec = 43200; usec = 0 }) (λ d. d) slow-Ticks
      (omega arith) 23 (7 ∷ 9 ∷ 11 ∷ []) idle (omega arith) (omega arith)
