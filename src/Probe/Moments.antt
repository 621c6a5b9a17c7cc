-- ===== src/Probe/Moments.antt =====
-- Moments of the trial (main.cpp, `do_item`): how late it is, and until when receivers are tuned.
use seztuner.Prelude.{ℕ, ◌+◌, ◌*◌, ◌≤◌, ◌<◌, ◌≡◌, refl, arith, Bool, true, ltb, ◌==◌}
use seztuner.Run.{Run, ok, fail, stuck, M, Leaves}
use seztuner.Socket.Bus.{Bus}
use seztuner.Tuner.{Tuner, on_dev}
use seztuner.Tuner.Reception.{get_mse}
use seztuner.Tuner.Persists.{Kept, get_mse-Leaves, on_dev-Leaves}
use seztuner.Probe.{
  Probe, with_tuner, Time, release, keep_strong, sleep, look, judge, finish, try_receiver,
}
use seztuner.Probe.Clock.{micros_of, elapsed_near, Ticks}
use seztuner.Probe.Lands.{Lands, bind-Lands, if-Lands, map-Lands}

-- What a trial stands on: the connection, the clock with its first answer, and the time of the world.
pub record Trial (D : Type 0) : Type 0 where
  pub bus : Bus D
  pub behind : ℕ → ℕ
  pub clock : D → D × Time
  pub start : Time
  pub micros : D → ℕ
  pub ticks : Ticks bus clock micros
  pub valid : start.usec < 1000000

module _ {D : Type 0} (trial : Trial D) where
  open trial use {bus, behind, clock, start, micros, ticks, valid}

  abbrev pub now : Probe D → ℕ
  now s = micros s.tun.dev

  -- It is this late, and no receiver is tuned for longer than until `end`, in milliseconds.
  pub record At (time end : ℕ) (s : Probe D) : Type 0 where
    pub begun : micros_of start ≤ time
    pub late : time ≤ now s
    pub ends : (ch : ℕ) → s.end ch ≤ end

  pub later : (time : ℕ) → Kept bus (λ d. time ≤ micros d)
  later time = record {
    asked = λ request room d h.
        leaves (bus.write_then_read request room d) h (ticks.asked request room d);
    slept = λ microseconds d h. let after = ticks.slept microseconds d in omega (arith, h, after);
  }
    where
      leaves :
          {A : Type 0} (r : Run D A) {d : D}
          → time ≤ micros d
          → Leaves (λ e. micros d ≤ micros e) r
          → Leaves (λ e. time ≤ micros e) r
      leaves (ok a e) h k = omega (arith, h, k)
      leaves (fail e) h k = omega (arith, h, k)
      leaves stuck h k = k

  pub tuned-At :
      {A : Type 0} (time end : ℕ) (m : M (Tuner D) A) (s : Probe D)
      → At time end s
      → Leaves (λ u. time ≤ micros u.dev) (m s.tun)
      → Lands (λ _ t. At time end t) (with_tuner m s)
  tuned-At time end m s h k = through (m s.tun) k
    where
      through :
          {A : Type 0} (r : Run (Tuner D) A)
          → Leaves (λ u. time ≤ micros u.dev) r
          → Lands
              (λ _ t. At time end t)
              (elim r [
                | ok a t ↦ ok a (record s { tun = t })
                | fail t ↦ fail (record s { tun = t })
                | stuck ↦ stuck
              ])
      through (ok a t) k = record { begun = h.begun; late = k; ends = h.ends }
      through (fail t) k = tt
      through stuck k = k

  -- What a look at the clock gives.
  pub record Looked (time end cur_ms : ℕ) (s : Probe D) : Type 0 where
    pub at : At time end s
    pub above : time < cur_ms * 1000 + micros_of start + 1000
    pub below : cur_ms * 1000 + micros_of start < now s + 1000

  pub look-Looked :
      (time end : ℕ) (s : Probe D)
      → At time end s
      → Lands (Looked time end) (look bus behind clock start s)
  unfolding look
  look-Looked time end s h =
      let d = s.tun.dev in
      let begun = h.begun in
      let late = h.late in
      let onward = ticks.onward d in
      let exact = ticks.exact d in
      let (low, high) =
        elapsed_near start (clock d).1 valid (ticks.usec d)
          (omega (arith, begun, late, onward, exact)) in
      record {
        at = record { begun = h.begun; late = omega (arith, late, onward); ends = h.ends };
        above = omega (arith, high, exact, late, onward);
        below = omega (arith, low, exact);
      }

  pub release-At : (time end ch : ℕ) (s : Probe D) → At time end s → At time end (release ch s)
  unfolding release
  release-At time end ch s h = record {
    begun = h.begun;
    late = h.late;
    ends = λ i. let before = h.ends i in ground (arith, before);
  }

  pub sleep-At :
      (time end : ℕ) (s : Probe D)
      → At time end s
      → At (time + 100000) end (sleep bus behind clock start s)
  unfolding sleep
  sleep-At time end s h =
      let after = ticks.slept 100000 s.tun.dev in
      let begun = h.begun in
      let late = h.late in
      record { begun = omega (arith, begun); late = omega (arith, after, late); ends = h.ends }

  -- Whether receiver `ch` can be used: it can when the clock is past every `end`.
  pub record Judged (time end ch cur_ms : ℕ) (done : Bool) (s : Probe D) : Type 0 where
    pub at : At time end s
    pub due : end < cur_ms → done ≡ true

  pub judge-At :
      (time end ch status : ℕ) (s : Probe D)
      → At time end s
      → Lands (λ _ t. At time end t) (judge bus behind clock start ch status s)
  unfolding judge keep_strong
  judge-At time end ch status s h =
      if-Lands (λ _ t. At time end t) (ltb 3 status) _ _
        (λ _.
          release-At time end ch (keep_strong ch s)
            (record { begun = h.begun; late = h.late; ends = h.ends }))
        (λ _. h)

  pub finish-Judged :
      (time end ch cur_ms : ℕ) (s : Probe D)
      → At time end s
      → Lands (Judged time end ch cur_ms) (finish bus behind clock start ch cur_ms s)
  unfolding finish
  finish-Judged time end ch cur_ms s h =
      if-Lands (Judged time end ch cur_ms) (ltb (s.end ch) cur_ms) _ _
        (λ _. record { at = release-At time end ch s h; due = λ _. refl })
        (λ c.
          bind-Lands (λ _ t. At time end t) (Judged time end ch cur_ms)
            (with_tuner (on_dev (get_mse bus ch)) s) _
            (tuned-At time end (on_dev (get_mse bus ch)) s h (
              on_dev-Leaves bus (λ d. time ≤ micros d) (later time) (get_mse bus ch) s.tun
                (get_mse-Leaves bus (λ d. time ≤ micros d) (later time) ch s.tun.dev h.late)))
            (λ mse t k.
              map-Lands (λ _ u. At time end u) (Judged time end ch cur_ms)
                (judge bus behind clock start ch mse.status t) (judge-At time end ch mse.status t k)
                (λ done u l. record {
                  at = l;
                  due = λ past. let busy = h.ends ch in absurd (ground (arith, c, past, busy));
                })))

  pub try_receiver-Judged :
      (time end ch cur_ms : ℕ) (s : Probe D)
      → At time end s
      → Lands (Judged time end ch cur_ms) (try_receiver bus behind clock start ch cur_ms s)
  unfolding try_receiver
  try_receiver-Judged time end ch cur_ms s h =
      if-Lands (Judged time end ch cur_ms) (s.end ch == 0) _ _
        (λ _. record { at = h; due = λ _. refl }) (λ _. finish-Judged time end ch cur_ms s h)
