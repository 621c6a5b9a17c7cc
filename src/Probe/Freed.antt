-- ===== src/Probe/Freed.antt =====
-- The search for a receiver that can be used (main.cpp, `do_item`) comes to its end.
use seztuner.Prelude.{
  ℕ, zero, suc, ◌+◌, ◌*◌, ◌≤◌, ◌<◌, ◌≡◌, arith, Bool, true, false, ltb, ◌==◌, if◌then◌else◌,
  Bool-cases, inl, inr,
}
use seztuner.Probe.{Probe, sleep, look, try_receiver, free_receiver}
use seztuner.Probe.Clock.{micros_of}
use seztuner.Probe.Lands.{Lands, bind-Lands, choose-Lands, map-Lands}
use seztuner.Probe.Moments.{
  Trial, now, At, Looked, look-Looked, sleep-At, Judged, try_receiver-Judged,
}

not_past :
    (done : Bool) (end cur_ms : ℕ) → done ≡ false → (end < cur_ms → done ≡ true) → cur_ms ≤ end
not_past done end cur_ms c due = elim (Bool-cases (ltb end cur_ms)) [
  | inl past ↦ let yes = due (ground (arith, past)) in absurd (ground (arith, c, yes))
  | inr early ↦ ground (arith, early)
]

module _ {D : Type 0} (trial : Trial D) where
  open trial use {bus, behind, clock, start, micros, ticks, valid}

  -- A receiver that can be used, and when.
  pub record Freed (time end : ℕ) (r : ℕ × ℕ) (s : Probe D) : Type 0 where
    pub at : At trial time end s
    pub soon : r.1 * 1000 + micros_of start < now trial s + 1000

  -- `n` pairs of looks, and some more.
  abbrev pub pairs : ℕ → ℕ → ℕ
  pairs zero more = more
  pairs (suc n) more = suc (suc (pairs n more))

  At-since :
      (time since end : ℕ) (s : Probe D)
      → At trial since end s
      → micros_of start ≤ time
      → time ≤ since
      → At trial time end s
  At-since time since end s h begun k =
      let late = h.late in record { begun = begun; late = omega (arith, k, late); ends = h.ends }

  -- A look that finds the receiver still busy is early.
  free_receiver-step :
      (fuel ch time end : ℕ) (s : Probe D)
      → At trial time end s
      → ((u : Probe D)
          → At trial time end u
          → time < (end + 1) * 1000 + micros_of start
          → Lands (Freed time end) (
              if ch == 0
              then free_receiver bus behind clock start fuel 1 u
              else free_receiver bus behind clock start fuel 0 (sleep bus behind clock start u)))
      → Lands (Freed time end) (free_receiver bus behind clock start (suc fuel) ch s)
  unfolding free_receiver
  free_receiver-step fuel ch time end s h next =
      let begun = h.begun in
      bind-Lands (Looked trial time end) (Freed time end) (look bus behind clock start s) _
        (look-Looked trial time end s h)
        (λ cur_ms t l.
          let at = l.at in
          let late = at.late in
          let below = l.below in
          let above = l.above in
          bind-Lands (Judged trial (now trial t) end ch cur_ms) (Freed time end)
            (try_receiver bus behind clock start ch cur_ms t) _
            (try_receiver-Judged trial (now trial t) end ch cur_ms t
              (record { begun = omega (arith, begun, late); late = omega arith; ends = at.ends }))
            (λ free u j.
              let before = At-since time (now trial t) end u j.at h.begun late in
              let after = j.at in
              let grown = after.late in
              choose-Lands (Freed time end) free _ _
                (λ _. record { at = before; soon = omega (arith, below, grown) })
                (λ c.
                  let busy : cur_ms ≤ end = not_past free end cur_ms c j.due in
                  next u before (omega (arith, above, busy)))))

  pub free_receiver-Freed :
      (n more time end : ℕ) (s : Probe D)
      → At trial time end s
      → (end + 2) * 1000 + micros_of start ≤ time + n * 100000
      → Lands (Freed time end) (free_receiver bus behind clock start (suc (pairs n more)) 0 s)
  free_receiver-Freed zero more time end s h due =
      free_receiver-step more 0 time end s h (λ u k early. absurd (omega (arith, due, early)))
  free_receiver-Freed (suc n) more time end s h due =
      free_receiver-step (suc (suc (pairs n more))) 0 time end s h (λ u k _.
        free_receiver-step (suc (pairs n more)) 1 time end u k (λ v l _.
          map-Lands (Freed (time + 100000) end) (Freed time end)
            (free_receiver bus behind clock start (suc (pairs n more)) 0
              (sleep bus behind clock start v))
            (free_receiver-Freed n more (time + 100000) end (sleep bus behind clock start v)
              (sleep-At trial time end v l) (omega (arith, due)))
            (λ r w f. record {
              at = At-since time (time + 100000) end w f.at h.begun (omega arith);
              soon = f.soon;
            })))
