-- ===== src/Tuner/Scan/Tuning.antt =====
-- What a round of `scan` (tuner.cpp) tunes the receivers to.
use seztuner.Prelude.{
  ℕ, zero, suc, ◌+◌, ◌*◌, ◌/◌, ◌%◌, ◌≤◌, ◌<◌, ◌≡◌, ◌≢◌, inl, inr, refl, sym, ap, ◌∙◌, arith, List,
  [], ◌∷◌, none, Bool, true, ◌&&◌, leb, ◌==◌, if◌then◌else◌, get_or, length, bit_and, Bool-cases,
  Option-cases,
}
use seztuner.Run.{ok, bind, bind-ok}
use seztuner.Socket.Bus.{Bus}
use seztuner.Socket.Registers.{request}
use seztuner.Tuner.{
  off, antenna_input, Tuner, band, ch_freq, on_dev, then_fail, set_tvch, set_amp, reset_if, settle,
  program, freq_of, tune, set_freq,
}
use seztuner.Tuner.Inputs.{set_amp-Selected}
use seztuner.Tuner.Channel.{then_fail-ok, on_dev-states, reset_if-states, tune-lit}
use seztuner.Tuner.Scan.{tune_in}

abbrev no_zero : List ℕ → Bool
no_zero [] = true
no_zero (x ∷ l) = leb 1 x && no_zero l

get_or-no_zero : (l : List ℕ) (p : ℕ) → no_zero l ≡ true → p < length l → get_or l p 0 ≢ 0
get_or-no_zero [] p h k = absurd (omega (arith, k))
get_or-no_zero (x ∷ l) zero h k = ground (arith, h)
get_or-no_zero (x ∷ l) (suc p) h k = get_or-no_zero l p (ground (arith, h)) (omega (arith, k))

ch_freq_there : (p : ℕ) → p < 50 → get_or ch_freq p 0 ≢ 0
ch_freq_there p h = get_or-no_zero ch_freq p refl h

set_tvch-others :
    {D : Type 0} (ch other tvch : ℕ) (s : Tuner D)
    → other ≢ ch
    → (set_tvch ch tvch s).ch_state other ≡ s.ch_state other
unfolding set_tvch
set_tvch-others ch other tvch s h = ground (arith, h)

module _ {D : Type 0} (bus : Bus D) where
  settle-others :
      (ch other tvch reset_ms rxlen : ℕ) (s t : Tuner D)
      → other ≢ ch
      → settle bus ch tvch reset_ms rxlen s ≡ ok tt t
      → t.ch_state other ≡ s.ch_state other
  unfolding settle
  settle-others ch other tvch reset_ms rxlen s t h e = elim (Bool-cases (rxlen == 4)) [
    | inr c ↦
        let faulty : then_fail (set_amp bus ch off s) ≡ ok tt t = ground arith in
        absurd (then_fail-ok (set_amp bus ch off s) tt t faulty)
    | inl c ↦
        let whole : bind (reset_if bus ch reset_ms s) (λ _ u. ok tt (set_tvch ch tvch u))
            ≡ ok tt t =
          ground arith in
        let (x, u, reset, last) =
          bind-ok (reset_if bus ch reset_ms s) (λ _ u. ok tt (set_tvch ch tvch u)) tt t whole in
        let final : set_tvch ch tvch u ≡ t = ground (arith, last) in
        ap (λ (r : Tuner D). r.ch_state other) (sym final)
        ∙ set_tvch-others ch other tvch u h
        ∙ ap (λ f. f other) (reset_if-states bus ch reset_ms s u reset)
  ]

  program-others :
      (ch other tvch freq bandswitch reset_ms : ℕ) (s t : Tuner D)
      → other ≢ ch
      → program bus ch tvch freq bandswitch reset_ms s ≡ ok tt t
      → t.ch_state other ≡ s.ch_state other
  unfolding program
  program-others ch other tvch freq bandswitch reset_ms s t h e =
      let pll = freq * 16 + 704 in
      let body : List ℕ =
        ch ∷ 0xc2 ∷ bit_and (pll / 256) 0x7f ∷ (pll % 256) ∷ 0x86 ∷ bandswitch ∷ 0x50 ∷ [] in
      let (rx, u, sent, after) =
        bind-ok (on_dev (bus.write_then_read (request body) 8) s)
          (λ rx u. settle bus ch tvch reset_ms (length rx) u) tt t e in
      settle-others ch other tvch reset_ms (length rx) u t h after
      ∙ ap (λ f. f other) (on_dev-states bus (bus.write_then_read (request body) 8) rx s u sent).0

  tune-others :
      (behind : ℕ → ℕ) (ch other tvch reset_ms : ℕ) (s t : Tuner D)
      → other ≢ ch
      → tune bus behind ch tvch reset_ms s ≡ ok tt t
      → t.ch_state other ≡ s.ch_state other
  unfolding tune
  tune-others behind ch other tvch reset_ms s t h e =
      elim (Option-cases (band (freq_of behind tvch))) [
        | inl c ↦ absurd (no_band c)
        | inr (b, c) ↦
            let amp = antenna_input s.active_ant b.1 in
            let chain : bind (set_amp bus ch amp s)
                  (λ _ u. program bus ch tvch (freq_of behind tvch) b.0 reset_ms u)
                ≡ ok tt t =
              ground arith in
            let (x, u, first, second) =
              bind-ok (set_amp bus ch amp s)
                (λ _ u. program bus ch tvch (freq_of behind tvch) b.0 reset_ms u) tt t chain in
            program-others ch other tvch (freq_of behind tvch) b.0 reset_ms u t h second
            ∙ (set_amp-Selected bus ch amp s u first).others other h
      ]
    where
      no_band : band (freq_of behind tvch) ≢ none
      no_band c = ground arith

  -- `set_freq` for a channel is `tune`.
  set_freq-tune :
      (behind : ℕ → ℕ) (ch tvch reset_ms : ℕ) (s t : Tuner D)
      → tvch < 52
      → set_freq bus behind ch tvch reset_ms s ≡ ok tt t
      → tune bus behind ch tvch reset_ms s ≡ ok tt t
  unfolding set_freq
  set_freq-tune behind ch tvch reset_ms s t h e = ground (arith, h, e)

  module _ (behind : ℕ → ℕ) (cr_ms i : ℕ) where
    tune_in-tune :
        (j : ℕ) (s t : Tuner D)
        → i + j * 2 < 50
        → tune_in bus behind cr_ms i j s ≡ ok tt t
        → tune bus behind j (i + j * 2 + 2) (if leb cr_ms 20 then cr_ms else 0) s ≡ ok tt t
    unfolding tune_in
    tune_in-tune j s t h e =
        let there = ch_freq_there (i + j * 2) h in
        set_freq-tune behind j (i + j * 2 + 2) (if leb cr_ms 20 then cr_ms else 0) s t
          (omega (arith, h)) (ground (arith, there, h, e))

    -- The receiver is tuned to the channel of its position,
    pub tune_in-tvch :
        (j : ℕ) (s t : Tuner D)
        → i + j * 2 < 50
        → tune_in bus behind cr_ms i j s ≡ ok tt t
        → (t.ch_state j).tvch ≡ i + j * 2 + 2
    tune_in-tvch j s t h e =
        (tune-lit bus behind j (i + j * 2 + 2) (if leb cr_ms 20 then cr_ms else 0) s t
          (tune_in-tune j s t h e)).2

    tune_in-idle :
        (j : ℕ) (s t : Tuner D) → 50 ≤ i + j * 2 → tune_in bus behind cr_ms i j s ≡ ok tt t → s ≡ t
    unfolding tune_in
    tune_in-idle j s t h e = ground (arith, h, e)

    -- and the other one is left alone.
    pub tune_in-others :
        (j other : ℕ) (s t : Tuner D)
        → other ≢ j
        → tune_in bus behind cr_ms i j s ≡ ok tt t
        → t.ch_state other ≡ s.ch_state other
    tune_in-others j other s t h e = elim (Bool-cases (leb 50 (i + j * 2))) [
      | inl c ↦
          ap (λ (r : Tuner D). r.ch_state other) (sym (tune_in-idle j s t (ground (arith, c)) e))
      | inr c ↦
          tune-others behind j other (i + j * 2 + 2) (if leb cr_ms 20 then cr_ms else 0) s t h
            (tune_in-tune j s t (ground (arith, c)) e)
    ]
