-- ===== src/Probe/Clock.antt =====
-- The clock of the trial (main.cpp, `do_item`).
use seztuner.Prelude.{ℕ, ◌+◌, ◌*◌, ◌≤◌, ◌<◌, ◌≡◌, arith, List}
use seztuner.Run.{Leaves}
use seztuner.Socket.Bus.{Bus}
use seztuner.Probe.{Time, elapsed}

-- A time in microseconds.
abbrev pub micros_of : Time → ℕ
micros_of t = t.sec * 1000000 + t.usec

-- In these two orders `cur_ms` and the time that has passed differ by less than a millisecond.
pub elapsed_near :
    (start now : Time)
    → start.usec < 1000000
    → now.usec < 1000000
    → micros_of start ≤ micros_of now
    → (elapsed start now * 1000 + micros_of start < micros_of now + 1000)
      × (micros_of now < elapsed start now * 1000 + micros_of start + 1000)
unfolding elapsed
elapsed_near start now h k late = ground (arith, h, k, late)

-- `micros` is the time of the world in microseconds. It does not go back when the clock is read or a request is made,
-- which comes back, and `usleep` lets at least its argument pass. `gettimeofday` gives that time.
pub record Ticks {D : Type 0} (bus : Bus D) (clock : D → D × Time) (micros : D → ℕ) : Type 0 where
  pub asked :
      (request : List ℕ) (room : ℕ) (d : D)
      → Leaves (λ e. micros d ≤ micros e) (bus.write_then_read request room d)
  pub slept :
      (microseconds : ℕ) (d : D) → micros d + microseconds ≤ micros (bus.usleep microseconds d)
  pub onward : (d : D) → micros d ≤ micros (clock d).0
  pub exact : (d : D) → micros_of (clock d).1 ≡ micros (clock d).0
  pub usec : (d : D) → (clock d).1.usec < 1000000
