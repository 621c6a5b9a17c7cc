-- ===== src/Command/Session/Quits.antt =====
-- What `close` (mpgts.cpp) leaves of the connection, the thread and the sockets.
use seztuner.Prelude.{
  ℕ, ◌≡◌, refl, ap, ◌∙◌, arith, some, Bool, true, false, Bool-cases, Option-cases, inl, inr, ◌==◌,
}
use seztuner.Run.{Run-cases}
use seztuner.Socket.Bus.{Bus}
use seztuner.Tuner.{nc, Tuner, set_antenna}
use seztuner.Tuner.Scan.Ending.{Answers}
use seztuner.Tuner.Scan.Steady.{set_antenna-Steady}
use seztuner.Mpgts.Control.{
  Mpgts, Host, in_world, close_tuner, stop_thread, close_thread, close_udp, close_mpgts,
}
use seztuner.Command.Session.Closed.{Closed, close_mpgts-Closed}

-- The system's calls, by what can be seen of the world: whether the connection is up, whether the thread runs,
-- and which sockets are open. A thread that runs can be cancelled, and then joined, which waits for its end.
pub record Ends {D : Type 0} (host : Host D) (connected running : D → Bool) (opened : ℕ → D → Bool)
    : Type 0 where
  pub hangs_up : (d : D) → connected (host.disconnect d) ≡ false
  pub cancels : (d : D) → running d ≡ true → (host.pthread_cancel d).0 ≡ true
  pub cancel_starts_none : (d : D) → running d ≡ false → running (host.pthread_cancel d).1 ≡ false
  pub joins :
      (d : D)
      → (host.pthread_cancel d).0 ≡ true
      → running (host.pthread_join (host.pthread_cancel d).1).1 ≡ false
  pub closes : (fd : ℕ) (d : D) → opened fd (host.close_fd fd d) ≡ false
  pub opens_none :
      (fd other : ℕ) (d : D) → opened other d ≡ false → opened other (host.close_fd fd d) ≡ false
  pub cancel_connected : (d : D) → connected (host.pthread_cancel d).1 ≡ connected d
  pub join_connected : (d : D) → connected (host.pthread_join d).1 ≡ connected d
  pub close_connected : (fd : ℕ) (d : D) → connected (host.close_fd fd d) ≡ connected d
  pub close_running : (fd : ℕ) (d : D) → running (host.close_fd fd d) ≡ running d

module _ {D : Type 0} (bus : Bus D) (behind : ℕ → ℕ) (host : Host D) (connected running : D → Bool)
    (opened : ℕ → D → Bool) (ends : Ends host connected running opened) where
  stop_thread-connected : (d : D) → connected (stop_thread bus host d) ≡ connected d
  unfolding stop_thread
  stop_thread-connected d = elim (Bool-cases (host.pthread_cancel d).0) [
    | inl c ↦
        rw (stop_thread, c)
          (ends.join_connected (host.pthread_cancel d).1 ∙ ends.cancel_connected d)
    | inr c ↦ rw (stop_thread, c) (ends.cancel_connected d)
  ]

  stop_thread-stops : (d : D) → running (stop_thread bus host d) ≡ false
  unfolding stop_thread
  stop_thread-stops d = elim (Bool-cases (host.pthread_cancel d).0) [
    | inl c ↦ rw (stop_thread, c) (ends.joins d c)
    | inr c ↦ elim (Bool-cases (running d)) [
      | inl r ↦ let yes = ends.cancels d r in absurd (ground (arith, c, yes))
      | inr r ↦ rw (stop_thread, c) (ends.cancel_starts_none d r)
    ]
  ]

  -- What no call that closes a descriptor changes.
  close_udp-keeps :
      (Q : D → Type 0) (i : ℕ) (s : Mpgts D)
      → ((fd : ℕ) (d : D) → Q d → Q (host.close_fd fd d))
      → Q s.tun.dev
      → Q (close_udp bus host i s).tun.dev
  unfolding close_udp
  close_udp-keeps Q i s keeps h = elim (Option-cases (s.udp_sock i)) [
    | inl c ↦ rw (close_udp, c) h
    | inr (fd, c) ↦ rw (close_udp, c) (keeps fd s.tun.dev h)
  ]

  close_udp-closes :
      (i fd : ℕ) (s : Mpgts D)
      → s.udp_sock i ≡ some fd
      → opened fd (close_udp bus host i s).tun.dev ≡ false
  unfolding close_udp
  close_udp-closes i fd s h = rw (close_udp, h) (ends.closes fd s.tun.dev)

  close_udp-other :
      (i j : ℕ) (s : Mpgts D)
      → (i == j) ≡ false
      → (close_udp bus host i s).udp_sock j ≡ s.udp_sock j
  unfolding close_udp
  close_udp-other i j s h = elim (Option-cases (s.udp_sock i)) [
    | inl c ↦ rw (close_udp, c) refl
    | inr (fd, c) ↦ ground (arith, c, h)
  ]

  close_tuner-hangs_up :
      (s : Mpgts D)
      → Answers bus
      → (t : Mpgts D) × (close_tuner bus host behind s ≡ some t)
        × (connected t.tun.dev ≡ false)
        × (t.tsth ≡ s.tsth)
        × (t.udp_sock ≡ s.udp_sock)
  unfolding close_tuner
  close_tuner-hangs_up s live =
      let steady = set_antenna-Steady bus live behind nc s.tun in
      let hung_up : Tuner D → Mpgts D = λ u. in_world host.disconnect (record s { tun = u }) in
      elim (Run-cases (set_antenna bus behind nc s.tun)) [
        | inl (_, u, c) ↦ (hung_up u, ground (arith, c), ends.hangs_up u.dev, refl, refl)
        | inr (inl (u, c)) ↦ (hung_up u, ground (arith, c), ends.hangs_up u.dev, refl, refl)
        | inr (inr c) ↦ absurd (steady.ends c)
      ]

  close_thread-ends :
      (s : Mpgts D)
      → (connected (close_thread bus host s).tun.dev ≡ connected s.tun.dev)
        × ((close_thread bus host s).udp_sock ≡ s.udp_sock)
        × (s.tsth ≡ true → running (close_thread bus host s).tun.dev ≡ false)
  unfolding close_thread
  close_thread-ends s = elim (Bool-cases s.tsth) [
    | inl c ↦ rw c (stop_thread-connected s.tun.dev, refl, λ _. stop_thread-stops s.tun.dev)
    | inr c ↦ rw c (refl, refl, λ e. absurd (ground (arith, e)))
  ]

  pub close_mpgts_ends :
      (s : Mpgts D)
      → Answers bus
      → (t : Mpgts D) × (close_mpgts bus host behind s ≡ some t)
        × Closed t
        × (connected t.tun.dev ≡ false)
        × (s.tsth ≡ true → running t.tun.dev ≡ false)
        × ((fd : ℕ) → s.udp_sock 0 ≡ some fd → opened fd t.tun.dev ≡ false)
        × ((fd : ℕ) → s.udp_sock 1 ≡ some fd → opened fd t.tun.dev ≡ false)
  unfolding close_mpgts
  close_mpgts_ends s live =
      let (u, closed, off, thread, socks) = close_tuner-hangs_up s live in
      let v = close_thread bus host u in
      let (same, socks', stopped) = close_thread-ends u in
      let w = close_udp bus host 0 v in
      let t = close_udp bus host 1 w in
      let run : close_mpgts bus host behind s ≡ some t = ground (arith, closed) in
      let off_kept : (fd : ℕ) (d : D)
          → connected d ≡ false
          → connected (host.close_fd fd d) ≡ false =
        λ fd d h. ends.close_connected fd d ∙ h in
      let still : (fd : ℕ) (d : D) → running d ≡ false → running (host.close_fd fd d) ≡ false =
        λ fd d h. ends.close_running fd d ∙ h in
      (
        t,
        run,
        close_mpgts-Closed bus behind host s t run,
        close_udp-keeps (λ d. connected d ≡ false) 1 w off_kept
            (close_udp-keeps (λ d. connected d ≡ false) 0 v off_kept (same ∙ off)),
        λ started.
            close_udp-keeps (λ d. running d ≡ false) 1 w still
              (close_udp-keeps (λ d. running d ≡ false) 0 v still (stopped (thread ∙ started))),
        λ fd h.
            close_udp-keeps (λ d. opened fd d ≡ false) 1 w (λ other. ends.opens_none other fd)
              (close_udp-closes 0 fd v (ap (λ f. f 0) (socks' ∙ socks) ∙ h)),
        λ fd h.
            close_udp-closes 1 fd w
              (close_udp-other 0 1 v refl ∙ ap (λ f. f 1) (socks' ∙ socks) ∙ h),
      )
