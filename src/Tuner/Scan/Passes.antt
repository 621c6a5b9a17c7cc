-- ===== src/Tuner/Scan/Passes.antt =====
-- Passes of `scan` (tuner.cpp) that come back, and the antenna that they leave active.
use seztuner.Prelude.{
  ℕ, zero, suc, ◌+◌, ◌*◌, ◌≡◌, refl, sym, subst, ◌∙◌, arith, List, Option, some, Bool, leb, ◌==◌,
  if◌then◌else◌, get_or, inl, inr, Option-cases,
}
use seztuner.Run.{Run, ok, fail, stuck, M}
use seztuner.Socket.Bus.{Bus}
use seztuner.Socket.Registers.{get_demod8, set_demod8}
use seztuner.Tuner.{off, Antenna, ch_freq, Tuner, on_dev, set_amp, set_antenna}
use seztuner.Tuner.Scan.{
  tune_in, wait_rest, heard, listen, undo_12a, always, on_fail, switch_antenna, report, scan_at,
  scan_round, scan_pass, next_antenna,
}
use seztuner.Tuner.Scan.Rounds.{positions, positions-more, pass_end, pass_more}
use seztuner.Tuner.Scan.Visits.{rounds}
use seztuner.Tuner.Scan.Ending.{Ends, Answers, on_dev-Ends, get_demod8-Ends, set_demod8-Ends}
use seztuner.Tuner.Scan.Steady.{
  Steady, relay, bind-Steady, if-Steady, ok-Steady, fail-Steady, on_dev-Steady, set_amp-Steady,
  set_freq-Steady, set_antenna-Steady,
}

module _ {D : Type 0} (bus : Bus D) (live : Answers bus) (behind : ℕ → ℕ) where
  tune_in-Steady :
      {ant : Antenna} (cr_ms i j : ℕ) (s : Tuner D)
      → s.active_ant ≡ ant
      → Steady ant (tune_in bus behind cr_ms i j s)
  unfolding tune_in
  tune_in-Steady cr_ms i j s h = if-Steady (leb 50 (i + j * 2)) _ _ (ok-Steady tt s h) (
      if-Steady (get_or ch_freq (i + j * 2) 0 == 0) _ _ (ok-Steady tt s h)
        (set_freq-Steady bus live behind j (i + j * 2 + 2) (if leb cr_ms 20 then cr_ms else 0) s h))

  listen-Steady :
      {ant : Antenna} (i j : ℕ) (find : List ℕ) (s : Tuner D)
      → s.active_ant ≡ ant
      → Steady ant (listen bus behind i j find s)
  unfolding listen
  listen-Steady i j find s h = if-Steady (leb 50 (i + j * 2)) _ _ (ok-Steady find s h) (
      bind-Steady (on_dev (get_demod8 bus j 0x11d) s) _
        (on_dev-Steady (get_demod8 bus j 0x11d) s (get_demod8-Ends bus live j 0x11d s.dev) h)
        (λ b t k. ok-Steady (heard bus behind j find b t) t k))

  wait_rest-antenna :
      (cr_ms : ℕ) (s : Tuner D) → (wait_rest bus behind cr_ms s).active_ant ≡ s.active_ant
  unfolding wait_rest
  wait_rest-antenna cr_ms s = ground arith

  module _ (cb : Option (ℕ → ℕ → D → D)) where
    pub report-antenna :
        (i : ℕ) (ant_valid : Bool) (find : List ℕ) (s : Tuner D)
        → (report bus behind cb i ant_valid find s).active_ant ≡ s.active_ant
    unfolding report
    report-antenna i ant_valid find s = ground arith

    scan_round-Steady :
        {ant : Antenna} (cr_ms : ℕ) (ant_valid : Bool) (i : ℕ) (find : List ℕ) (s : Tuner D)
        → s.active_ant ≡ ant
        → Steady ant (scan_round bus behind cb cr_ms ant_valid i find s)
    unfolding scan_round
    scan_round-Steady cr_ms ant_valid i find s h =
        let begin = report bus behind cb (i + 1) ant_valid find s in
        bind-Steady (tune_in bus behind cr_ms i 0 begin) _
          (tune_in-Steady cr_ms i 0 begin (report-antenna (i + 1) ant_valid find s ∙ h))
          (λ _ t k.
            bind-Steady (tune_in bus behind cr_ms i 1 t) _ (tune_in-Steady cr_ms i 1 t k) (λ _ u l.
              let w = wait_rest bus behind cr_ms u in
              bind-Steady (listen bus behind i 0 find w) _
                (listen-Steady i 0 find w (wait_rest-antenna cr_ms u ∙ l))
                (λ found v m. listen-Steady i 1 found v m)))

    pub scan_pass-Steady :
        {ant : Antenna} (n cr_ms : ℕ) (ant_valid : Bool) (i : ℕ) (find rounds : List ℕ)
        (s : Tuner D)
        → positions n i ≡ some rounds
        → s.active_ant ≡ ant
        → Steady ant (scan_pass bus behind cb n cr_ms ant_valid i find s)
    scan_pass-Steady zero cr_ms ant_valid i find rounds s e h = absurd (ground (arith, e))
    scan_pass-Steady {ant} (suc n) cr_ms ant_valid i find rounds s e h =
        elim (Option-cases (scan_at i)) [
          | inl c ↦
              subst (Steady ant) (sym (pass_end bus behind cb n cr_ms ant_valid i find s c))
                (ok-Steady find s h)
          | inr (k, c) ↦
              let (l, later, same) = positions-more bus behind cb n i k rounds c e in
              subst (Steady ant) (sym (pass_more bus behind cb n cr_ms ant_valid i k find s c)) (
                bind-Steady (scan_round bus behind cb cr_ms ant_valid k find s) _
                  (scan_round-Steady cr_ms ant_valid k find s h)
                  (λ found t m. scan_pass-Steady n cr_ms ant_valid (k + 4) found l t later m))
        ]

    pub on_fail-Steady :
        {ant : Antenna} {A : Type 0} (r : Run (Tuner D) A) (k : M (Tuner D) A)
        → Steady ant r
        → ((s : Tuner D) → Steady ant (k s))
        → Steady ant (on_fail r k)
    on_fail-Steady (ok a s) k h u = h
    on_fail-Steady (fail s) k h u = u s
    on_fail-Steady stuck k h u = absurd (h.ends refl)

    -- A call whose result is thrown away may leave any antenna.
    always-Steady :
        {ant : Antenna} {A B : Type 0} (r : Run (Tuner D) A) (k : M (Tuner D) B)
        → Ends r
        → ((s : Tuner D) → Steady ant (k s))
        → Steady ant (always r k)
    always-Steady (ok a s) k h u = u s
    always-Steady (fail s) k h u = u s
    always-Steady stuck k h u = absurd (h refl)

    pub undo_12a-Steady :
        {ant : Antenna} (old0 old1 : ℕ) (s : Tuner D) → Steady ant (undo_12a bus behind old0 old1 s)
    unfolding undo_12a
    undo_12a-Steady old0 old1 s =
        always-Steady (on_dev (set_demod8 bus 0 0x12a old0) s) _
          (on_dev-Ends (set_demod8 bus 0 0x12a old0) s
            (set_demod8-Ends bus live 0 0x12a old0 s.dev))
          (λ t.
            always-Steady (on_dev (set_demod8 bus 1 0x12a old1) t) _
              (on_dev-Ends (set_demod8 bus 1 0x12a old1) t
                (set_demod8-Ends bus live 1 0x12a old1 t.dev))
              (λ u. fail-Steady u))

    pub switch_antenna-Steady :
        {ant : Antenna} (s : Tuner D)
        → s.active_ant ≡ ant
        → Steady (next_antenna ant) (switch_antenna bus behind s)
    unfolding switch_antenna
    switch_antenna-Steady {ant} s h =
        relay (set_amp bus 0 off s) _ (set_amp-Steady bus live 0 off s h) (λ _ t k.
          relay (set_amp bus 1 off t) _ (set_amp-Steady bus live 1 off t k) (λ _ u l.
            subst
              (λ a. Steady (next_antenna a) (set_antenna bus behind (next_antenna u.active_ant) u))
              l (set_antenna-Steady bus live behind (next_antenna u.active_ant) u)))
