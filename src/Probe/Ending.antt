-- ===== src/Probe/Ending.antt =====
-- The trial of `do_item` (main.cpp) comes to its end.
use seztuner.Prelude.{
  ℕ, zero, suc, ◌+◌, ◌-◌, ◌*◌, ◌/◌, ◌≤◌, ◌<◌, ◌≡◌, ◌≢◌, refl, ap, subst, arith, List, [], ◌∷◌, Bool,
  true, false, not, leb, ◌==◌, Bool-cases, ◌⊎◌, inl, inr,
}
use seztuner.Run.{stuck}
use seztuner.Socket.Bus.{Bus}
use seztuner.Tuner.{Tuner, set_freq}
use seztuner.Tuner.Persists.{set_freq-Leaves}
use seztuner.Probe.{
  Probe, with_tuner, Time, occupy, sleep, look, finish, free_receiver, begin_channel, try_channels,
  still_busy, finish_channels, strong_channels,
}
use seztuner.Probe.Clock.{micros_of, Ticks}
use seztuner.Probe.Lands.{Lands, bind-Lands, if-Lands, choose-Lands, lands}
use seztuner.Probe.Moments.{
  Trial, now, At, later, tuned-At, Looked, look-Looked, sleep-At, Judged, finish-Judged,
}
use seztuner.Probe.Freed.{Freed, pairs, free_receiver-Freed}

early : (busy : Bool) (time due : ℕ) → busy ≡ true → (due ≤ time → busy ≡ false) → time < due
early busy time due c idle = elim (Bool-cases (leb due time)) [
  | inl late ↦ let no_more = idle (ground (arith, late)) in absurd (ground (arith, c, no_more))
  | inr h ↦ ground (arith, h)
]

module _ {D : Type 0} (trial : Trial D) where
  open trial use {bus, behind, clock, start, micros, ticks, valid}

  -- No receiver is tuned for longer than a second from now.
  record Ahead (s : Probe D) : Type 0 where
    begun : micros_of start ≤ now trial s
    soon : (ch : ℕ) → s.end ch * 1000 + micros_of start ≤ now trial s + 1001000

  occupy-end :
      (ch cur_ms tvch i : ℕ) (s : Probe D)
      → ((occupy ch cur_ms tvch s).end i ≡ s.end i)
        ⊎ ((occupy ch cur_ms tvch s).end i ≤ cur_ms + 1000)
  unfolding occupy
  occupy-end ch cur_ms tvch i s = ground arith

  begin_channel-Ahead :
      (tvch time end : ℕ) (r : ℕ × ℕ) (s : Probe D)
      → Freed trial time end r s
      → end * 1000 + micros_of start ≤ time + 1001000
      → Lands (λ _ t. Ahead t) (begin_channel bus behind clock start tvch r.0 r.1 s)
  unfolding begin_channel occupy
  begin_channel-Ahead tvch time end r s h bound =
      let last = (now trial s + 1001000 - micros_of start) / 1000 in
      let u = occupy r.0 r.1 tvch s in
      let at = h.at in
      let soon = h.soon in
      let begun = at.begun in
      let late = at.late in
      let occupied : At trial (now trial s) last u = record {
        begun = omega (arith, begun, late);
        late = omega arith;
        ends = λ i.
            let before = at.ends i in
            elim (occupy-end r.0 r.1 tvch i s) [
              | inl same ↦ omega (arith, same, before, bound, late, begun)
              | inr fresh ↦ omega (arith, fresh, soon, late, begun)
            ];
      } in
      bind-Lands (λ _ t. At trial (now trial s) last t) (λ _ t. Ahead t)
        (with_tuner (set_freq bus behind r.0 tvch 20) u) _
        (tuned-At trial (now trial s) last (set_freq bus behind r.0 tvch 20) u occupied (
          set_freq-Leaves bus (λ d. now trial s ≤ micros d) (later trial (now trial s)) behind r.0
            tvch 20 u.tun occupied.late))
        (λ _ t k.
          let slept = sleep-At trial (now trial s) last t k in
          let after = slept.late in
          record {
            begun = omega (arith, begun, late, after);
            soon = λ i. let ends = slept.ends i in omega (arith, ends, after, begun, late);
          })

  try_channels-Ahead :
      (more : ℕ) (l : List ℕ) (s : Probe D)
      → Ahead s
      → Lands (λ _ t. Ahead t) (try_channels bus behind clock start (suc (pairs trial 11 more)) l s)
  unfolding try_channels
  try_channels-Ahead more [] s h = h
  try_channels-Ahead more (tvch ∷ rest) s h =
      let time = now trial s in
      let end = (time + 1001000 - micros_of start) / 1000 in
      let begun = h.begun in
      bind-Lands (Freed trial time end) (λ _ t. Ahead t)
        (free_receiver bus behind clock start (suc (pairs trial 11 more)) 0 s) _
        (free_receiver-Freed trial 11 more time end s
          (record {
            begun = h.begun;
            late = omega arith;
            ends = λ ch. let soon = h.soon ch in omega (arith, soon, begun);
          })
          (omega (arith, begun)))
        (λ r t f.
          bind-Lands (λ _ u. Ahead u) (λ _ u. Ahead u)
            (begin_channel bus behind clock start tvch r.0 r.1 t) _
            (begin_channel-Ahead tvch time end r t f (omega (arith, begun)))
            (λ _ u k. try_channels-Ahead more rest u k))

  -- Whether a receiver goes on: none does when it is late.
  record Waited (time end : ℕ) (busy : Bool) (s : Probe D) : Type 0 where
    at : At trial time end s
    due : (end + 2) * 1000 + micros_of start ≤ time → busy ≡ false

  still_busy-Waited :
      (time end ch : ℕ) (s : Probe D)
      → At trial time end s
      → Lands (Waited time end) (still_busy bus behind clock start ch s)
  unfolding still_busy
  still_busy-Waited time end ch s h =
      bind-Lands (Looked trial time end) (Waited time end) (look bus behind clock start s) _
        (look-Looked trial time end s h)
        (λ cur_ms t l.
          let above = l.above in
          if-Lands (Waited time end) (t.end ch == 0) _ _
            (λ _. record { at = l.at; due = λ _. refl })
            (λ _.
              bind-Lands (Judged trial time end ch cur_ms) (Waited time end)
                (finish bus behind clock start ch cur_ms t) _
                (finish-Judged trial time end ch cur_ms t l.at)
                (λ done u j. record {
                  at = j.at;
                  due = λ late. ap not (j.due (omega (arith, late, above)));
                })))

  -- A round in which a receiver goes on is early.
  finish_channels-step :
      (fuel time end : ℕ) (s : Probe D)
      → At trial time end s
      → ((u : Probe D)
          → At trial time end u
          → time < (end + 2) * 1000 + micros_of start
          → Lands
              (λ _ _. Unit {0})
              (finish_channels bus behind clock start fuel (sleep bus behind clock start u)))
      → Lands (λ _ _. Unit {0}) (finish_channels bus behind clock start (suc fuel) s)
  unfolding finish_channels
  finish_channels-step fuel time end s h next =
      bind-Lands (Waited time end) (λ _ _. Unit {0}) (still_busy bus behind clock start 0 s) _
        (still_busy-Waited time end 0 s h)
        (λ b0 t v.
          bind-Lands (Waited time end) (λ _ _. Unit {0}) (still_busy bus behind clock start 1 t) _
            (still_busy-Waited time end 1 t v.at)
            (λ b1 u w.
              choose-Lands (λ _ _. Unit {0}) b0 _ _
                (λ c. next u w.at (early b0 time ((end + 2) * 1000 + micros_of start) c v.due))
                (λ _.
                  choose-Lands (λ _ _. Unit {0}) b1 _ _
                    (λ c. next u w.at (early b1 time ((end + 2) * 1000 + micros_of start) c w.due))
                    (λ _. tt))))

  abbrev ahead : ℕ → ℕ → ℕ
  ahead zero more = more
  ahead (suc n) more = suc (ahead n more)

  finish_channels-Lands :
      (n more time end : ℕ) (s : Probe D)
      → At trial time end s
      → (end + 2) * 1000 + micros_of start ≤ time + n * 100000
      → Lands (λ _ _. Unit {0}) (finish_channels bus behind clock start (suc (ahead n more)) s)
  finish_channels-Lands zero more time end s h due =
      finish_channels-step more time end s h (λ u k early. absurd (omega (arith, due, early)))
  finish_channels-Lands (suc n) more time end s h due =
      finish_channels-step (suc (ahead n more)) time end s h (λ u k _.
        finish_channels-Lands n more (time + 100000) end (sleep bus behind clock start u)
          (sleep-At trial time end u k) (omega (arith, due)))

  strong_channels-Lands :
      (more : ℕ) (chlist : List ℕ) (tun : Tuner D)
      → micros_of start ≤ micros tun.dev
      → Lands
          (λ _ _. Unit {0})
          (strong_channels bus behind clock start (suc (pairs trial 11 more)) chlist tun)
  unfolding strong_channels
  strong_channels-Lands more chlist tun begun =
      let fresh : Probe D = record { tun = tun; end = λ ch. 0; endch = λ ch. 0; strongch = [] } in
      bind-Lands (λ _ t. Ahead t) (λ _ _. Unit {0})
        (try_channels bus behind clock start (suc (pairs trial 11 more)) chlist fresh) _
        (try_channels-Ahead more chlist fresh
          (record { begun = begun; soon = λ ch. omega (arith, begun) }))
        (λ _ t a.
          let time = now trial t in
          let end = (time + 1001000 - micros_of start) / 1000 in
          let after = a.begun in
          bind-Lands (λ _ _. Unit {0}) (λ _ _. Unit {0})
            (finish_channels bus behind clock start (suc (pairs trial 11 more)) t) _
            (finish_channels-Lands 11
              (suc (suc (suc (suc (suc (suc (suc (suc (suc (suc (suc more))))))))))) time end t
              (record {
                begun = a.begun;
                late = omega arith;
                ends = λ ch. let soon = a.soon ch in omega (arith, soon, after);
              })
              (omega (arith, after)))
            (λ _ u _. tt))

-- When requests come back, the clock shows the time and does not go back, and usleep lets at least its
-- argument pass, then the trial of any scanned channels ends, with or without success, and no loop of it
-- takes more than 23 rounds for one channel or at the end.
pub strong_channels_end :
    {D : Type 0} (bus : Bus D) (behind : ℕ → ℕ) (clock : D → D × Time) (start : Time)
    (micros : D → ℕ)
    → Ticks bus clock micros
    → start.usec < 1000000
    → (fuel : ℕ) (chlist : List ℕ) (tun : Tuner D) → 23 ≤ fuel
    → micros_of start ≤ micros tun.dev
    → strong_channels bus behind clock start fuel chlist tun ≢ stuck
strong_channels_end {D} bus behind clock start micros ticks valid fuel chlist tun enough begun =
    let trial : Trial D = record {
      bus = bus;
      behind = behind;
      clock = clock;
      start = start;
      micros = micros;
      ticks = ticks;
      valid = valid;
    } in
    let counted : suc (pairs trial 11 (fuel - 23)) ≡ fuel = omega (arith, enough) in
    subst (λ n. strong_channels bus behind clock start n chlist tun ≢ stuck) counted
      (lands (λ _ _. Unit {0}) _ (strong_channels-Lands trial (fuel - 23) chlist tun begun))
