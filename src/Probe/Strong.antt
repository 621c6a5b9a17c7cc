-- ===== src/Probe/Strong.antt =====
-- How many channels `do_item` (main.cpp) stores in `strongch`, and which.
use seztuner.Prelude.{
  ℕ, zero, suc, ◌+◌, ◌≤◌, ◌<◌, ◌≡◌, ◌≢◌, refl, sym, ap, ◌∙◌, arith, List, [], ◌∷◌, Bool, true,
  false, not, ==→eq, ltb, ◌==◌, if◌then◌else◌, length,
}
use seztuner.Run.{ok, bind}
use seztuner.Socket.Bus.{Bus}
use seztuner.Tuner.{Tuner, on_dev, set_freq}
use seztuner.Tuner.Reception.{get_mse}
use seztuner.Tuner.Scan.Rounds.{count}
use seztuner.Probe.{
  Probe, with_tuner, Time, release, keep_strong, occupy, sleep, look, judge, finish, try_receiver,
  free_receiver, begin_channel, try_channels, still_busy, finish_channels, strong_channels,
}
use seztuner.Probe.Weights.{
  total, weight, Gives, bind-Gives, ok-Gives, if-Gives, choose-Gives, Below, release-Below,
  strong-Below, kept-Below, occupy-Below,
}

-- A receiver that is done is free.
abbrev Tried : {D : Type 0} → (ℕ → ℕ) → ℕ → ℕ → Bool → Probe D → Type 0
Tried w n ch done s = (weight w s ≤ n) × (done ≡ true → s.end ch ≡ 0)

abbrev Free : {D : Type 0} → (ℕ → ℕ) → ℕ → ℕ × ℕ → Probe D → Type 0
Free w n r s = (weight w s ≤ n) × (r.0 < 2) × (s.end r.0 ≡ 0)

release-free : {D : Type 0} (ch : ℕ) (s : Probe D) → (release ch s).end ch ≡ 0
unfolding release
release-free ch s = ground arith

module _ {D : Type 0} (bus : Bus D) (behind : ℕ → ℕ) (clock : D → D × Time) (start : Time) where
  look-Below :
      (w : ℕ → ℕ) (n : ℕ) (s : Probe D)
      → weight w s ≤ n
      → Gives (Below w n) (look bus behind clock start s)
  unfolding look
  look-Below w n s h a t e = ground (arith, h, e)

  sleep-Below :
      (w : ℕ → ℕ) (n : ℕ) (s : Probe D)
      → weight w s ≤ n
      → weight w (sleep bus behind clock start s) ≤ n
  unfolding sleep
  sleep-Below w n s h = ground (arith, h)

  judge-Tried :
      (w : ℕ → ℕ) (n ch status : ℕ) (s : Probe D)
      → ch < 2
      → s.end ch ≢ 0
      → weight w s ≤ n
      → Gives (Tried w n ch) (judge bus behind clock start ch status s)
  unfolding judge
  judge-Tried w n ch status s h busy k =
      if-Gives (Tried w n ch) (ltb 3 status) _ _
        (λ _.
          ok-Gives (Tried w n ch) true (release ch (keep_strong ch s))
            (strong-Below w n ch s h busy k, λ _. release-free ch (keep_strong ch s)))
        (λ _. ok-Gives (Tried w n ch) false s (k, λ e. absurd (ground (arith, e))))

  finish-Tried :
      (w : ℕ → ℕ) (n ch cur_ms : ℕ) (s : Probe D)
      → ch < 2
      → s.end ch ≢ 0
      → weight w s ≤ n
      → Gives (Tried w n ch) (finish bus behind clock start ch cur_ms s)
  unfolding finish
  finish-Tried w n ch cur_ms s h busy k =
      if-Gives (Tried w n ch) (ltb (s.end ch) cur_ms) _ _
        (λ _.
          ok-Gives (Tried w n ch) true (release ch s)
            (release-Below w n ch s h k, λ _. release-free ch s))
        (λ _.
          bind-Gives (λ a t. (weight w t ≤ n) × (t.end ≡ s.end)) (Tried w n ch)
            (with_tuner (on_dev (get_mse bus ch)) s)
            (λ mse t. judge bus behind clock start ch mse.status t)
            (kept-Below w n (on_dev (get_mse bus ch)) s k)
            (λ mse t p.
              judge-Tried w n ch mse.status t h (λ z. busy (sym (ap (λ f. f ch) p.1) ∙ z)) p.0))

  try_receiver-Tried :
      (w : ℕ → ℕ) (n ch cur_ms : ℕ) (s : Probe D)
      → ch < 2
      → weight w s ≤ n
      → Gives (Tried w n ch) (try_receiver bus behind clock start ch cur_ms s)
  unfolding try_receiver
  try_receiver-Tried w n ch cur_ms s h k =
      if-Gives (Tried w n ch) (s.end ch == 0) _ _
        (λ c. ok-Gives (Tried w n ch) true s (k, λ _. ==→eq (s.end ch) 0 c))
        (λ c. finish-Tried w n ch cur_ms s h (λ z. absurd (ground (arith, c, z))) k)

  free_receiver-Free :
      (w : ℕ → ℕ) (n fuel ch : ℕ) (s : Probe D)
      → ch < 2
      → weight w s ≤ n
      → Gives (Free w n) (free_receiver bus behind clock start fuel ch s)
  unfolding free_receiver
  free_receiver-Free w n zero ch s h k = λ a t e. absurd (ground (arith, e))
  free_receiver-Free w n (suc fuel) ch s h k =
      bind-Gives (Below w n) (Free w n) (look bus behind clock start s) _ (look-Below w n s k)
        (λ cur_ms t p.
          bind-Gives (Tried w n ch) (Free w n) (try_receiver bus behind clock start ch cur_ms t) _
            (try_receiver-Tried w n ch cur_ms t h p)
            (λ free u q.
              choose-Gives (Free w n) free _ _
                (λ c. ok-Gives (Free w n) (ch, cur_ms) u (q.0, h, q.1 c))
                (λ c.
                  if-Gives (Free w n) (ch == 0) _ _
                    (λ _. free_receiver-Free w n fuel 1 u (omega arith) q.0)
                    (λ _.
                      free_receiver-Free w n fuel 0 (sleep bus behind clock start u) (omega arith)
                        (sleep-Below w n u q.0)))))

  begin_channel-Below :
      (w : ℕ → ℕ) (n tvch ch cur_ms : ℕ) (s : Probe D)
      → ch < 2
      → s.end ch ≡ 0
      → weight w s ≤ n
      → Gives (Below w (n + w tvch)) (begin_channel bus behind clock start tvch ch cur_ms s)
  unfolding begin_channel
  begin_channel-Below w n tvch ch cur_ms s h free k =
      let m = n + w tvch in
      let u = occupy ch cur_ms tvch s in
      bind-Gives (λ a t. (weight w t ≤ m) × (t.end ≡ u.end)) (Below w m)
        (with_tuner (set_freq bus behind ch tvch 20) u)
        (λ _ t. ok tt (sleep bus behind clock start t))
        (kept-Below w m (set_freq bus behind ch tvch 20) u
          (occupy-Below w n ch cur_ms tvch s h free k))
        (λ x t p. ok-Gives (Below w m) tt (sleep bus behind clock start t) (sleep-Below w m t p.0))

  try_channels-Below :
      (w : ℕ → ℕ) (n fuel : ℕ) (l : List ℕ) (s : Probe D)
      → weight w s ≤ n
      → Gives (Below w (n + total w l)) (try_channels bus behind clock start fuel l s)
  unfolding try_channels
  try_channels-Below w n fuel [] s h = ok-Gives (Below w (n + 0)) tt s (omega (arith, h))
  try_channels-Below w n fuel (tvch ∷ rest) s h =
      bind-Gives (Free w n) (Below w (n + (w tvch + total w rest)))
        (free_receiver bus behind clock start fuel 0 s) _
        (free_receiver-Free w n fuel 0 s (omega arith) h)
        (λ r t p.
          bind-Gives (Below w (n + w tvch)) (Below w (n + (w tvch + total w rest)))
            (begin_channel bus behind clock start tvch r.0 r.1 t) _
            (begin_channel-Below w n tvch r.0 r.1 t p.1 p.2 p.0)
            (λ _ u q a v e. omega (arith, try_channels-Below w (n + w tvch) fuel rest u q a v e)))

  still_busy-Below :
      (w : ℕ → ℕ) (n ch : ℕ) (s : Probe D)
      → ch < 2
      → weight w s ≤ n
      → Gives (Below w n) (still_busy bus behind clock start ch s)
  unfolding still_busy
  still_busy-Below w n ch s h k =
      bind-Gives (Below w n) (Below w n) (look bus behind clock start s) _ (look-Below w n s k)
        (λ cur_ms t p.
          if-Gives (Below w n) (t.end ch == 0) _ _ (λ _. ok-Gives (Below w n) false t p)
            (λ c.
              bind-Gives (Tried w n ch) (Below w n) (finish bus behind clock start ch cur_ms t) _
                (finish-Tried w n ch cur_ms t h (λ z. absurd (ground (arith, c, z))) p)
                (λ done u q. ok-Gives (Below w n) (not done) u q.0)))

  finish_channels-Below :
      (w : ℕ → ℕ) (n fuel : ℕ) (s : Probe D)
      → weight w s ≤ n
      → Gives (Below w n) (finish_channels bus behind clock start fuel s)
  unfolding finish_channels
  finish_channels-Below w n zero s h = λ a t e. absurd (ground (arith, e))
  finish_channels-Below w n (suc fuel) s h =
      bind-Gives (Below w n) (Below w n) (still_busy bus behind clock start 0 s) _
        (still_busy-Below w n 0 s (omega arith) h)
        (λ b0 t p.
          bind-Gives (Below w n) (Below w n) (still_busy bus behind clock start 1 t) _
            (still_busy-Below w n 1 t (omega arith) p)
            (λ b1 u q.
              let more =
                finish_channels-Below w n fuel (sleep bus behind clock start u)
                  (sleep-Below w n u q) in
              choose-Gives (Below w n) b0 _ _ (λ _. more)
                (λ _.
                  choose-Gives (Below w n) b1 _ _ (λ _. more) (λ _. ok-Gives (Below w n) tt u q))))

  -- Whatever the channels weigh, those that are strong weigh no more than all of them.
  strong_channels-total :
      (w : ℕ → ℕ) (fuel : ℕ) (chlist strong : List ℕ) (tun : Tuner D) (t : Probe D)
      → strong_channels bus behind clock start fuel chlist tun ≡ ok strong t
      → total w strong ≤ total w chlist
  unfolding strong_channels
  strong_channels-total w fuel chlist strong tun t e =
      let fresh : Probe D = record { tun = tun; end = λ ch. 0; endch = λ ch. 0; strongch = [] } in
      bind-Gives (Below w (total w chlist)) (λ l u. total w l ≤ total w chlist)
        (try_channels bus behind clock start fuel chlist fresh)
        (λ _ t. bind (finish_channels bus behind clock start fuel t) λ _ u. ok u.strongch u)
        (λ a u f. omega (arith, try_channels-Below w 0 fuel chlist fresh (omega arith) a u f))
        (λ _ u p.
          bind-Gives (Below w (total w chlist)) (λ l v. total w l ≤ total w chlist)
            (finish_channels bus behind clock start fuel u) (λ _ v. ok v.strongch v)
            (finish_channels-Below w (total w chlist) fuel u p)
            (λ _ v q. ok-Gives (λ l z. total w l ≤ total w chlist) v.strongch v (omega (arith, q))))
        strong t e

  total-length : (l : List ℕ) → total (λ x. 1) l ≡ length l
  total-length [] = refl
  total-length (x ∷ l) = omega (arith, total-length l)

  total-count : (x : ℕ) (l : List ℕ) → total (λ y. if x == y then 1 else 0) l ≡ count x l
  total-count x [] = refl
  total-count x (y ∷ l) = omega (arith, total-count x l)

  -- When the trial of the scanned channels ends with success, whatever the clock says and the tuner
  -- answers, no more channels were stored as strong than were scanned, for which the array has room, and
  -- each channel at most as often as it was scanned.
  pub strong_channels_fit :
      (fuel : ℕ) (chlist strong : List ℕ) (tun : Tuner D) (t : Probe D)
      → strong_channels bus behind clock start fuel chlist tun ≡ ok strong t
      → (length strong ≤ length chlist) × ((x : ℕ) → count x strong ≤ count x chlist)
  strong_channels_fit fuel chlist strong tun t e = (
    omega (
      arith,
      strong_channels-total (λ x. 1) fuel chlist strong tun t e,
      total-length strong,
      total-length chlist,
    ),
    λ x. omega (
      arith,
      strong_channels-total (λ y. if x == y then 1 else 0) fuel chlist strong tun t e,
      total-count x strong,
      total-count x chlist,
    ),
  )
