-- ===== src/Tuner/Channel.antt =====
-- What a receiver is tuned to after `set_freq` and `set_antenna` (tuner.cpp), as `get_freq` (tuner.h) tells.
use seztuner.Prelude.{
  ℕ, ◌+◌, ◌*◌, ◌/◌, ◌%◌, ◌<◌, ◌≡◌, ◌≢◌, inl, inr, sym, ap, ◌∙◌, arith, none, some, ◌==◌, List, [],
  ◌∷◌, ==→eq, length, bit_and, Bool-cases, Option-cases,
}
use seztuner.Run.{Run, ok, fail, stuck, M, bind, bind-ok}
use seztuner.Socket.Bus.{Bus}
use seztuner.Socket.Registers.{request}
use seztuner.Tuner.{
  Amp, off, number, Antenna, nc, ant1, ant2, coax, ChannelState, Tuner, no_tvch, band,
  antenna_input, on_dev, then_fail, set_tvch, set_amp, reset_if, settle, program, freq_of, tune,
  set_freq, set_antenna, get_freq,
}
use seztuner.Tuner.Inputs.{set_amp-Selected, nc_round}

pub then_fail-ok : {S A B : Type 0} (r : Run S A) (b : B) (s : S) → then_fail r ≢ ok b s
then_fail-ok (ok a u) b s e = ground (arith, e)
then_fail-ok (fail u) b s e = ground (arith, e)
then_fail-ok stuck b s e = ground (arith, e)

-- Only the two bands' inputs, and those that an antenna makes of them, are selected: never `off`.
band-lit :
    (ant : Antenna) (freq : ℕ) (b : ℕ × Amp)
    → band freq ≡ some b
    → number (antenna_input ant b.1) ≢ 0
unfolding band
band-lit nc freq b e z = ground arith
band-lit ant1 freq b e z = ground arith
band-lit ant2 freq b e z = ground arith
band-lit coax freq b e z = ground arith

pub get_freq_off :
    {D : Type 0} (ch : ℕ) (t : Tuner D) → ch < 2 → (t.ch_state ch).i ≡ off → get_freq ch t ≡ no_tvch
unfolding get_freq
get_freq_off ch t h e = let z : number (t.ch_state ch).i ≡ 0 = ap number e in ground (arith, z)

get_freq_on :
    {D : Type 0} (ch : ℕ) (t : Tuner D)
    → ch < 2
    → number (t.ch_state ch).i ≢ 0
    → get_freq ch t ≡ (t.ch_state ch).tvch
unfolding get_freq
get_freq_on ch t h z = ground arith

set_tvch-here :
    {D : Type 0} (ch tvch : ℕ) (s : Tuner D)
    → (set_tvch ch tvch s).ch_state ch ≡ record { i = (s.ch_state ch).i; tvch = tvch }
unfolding set_tvch
set_tvch-here ch tvch s = ground arith

module _ {D : Type 0} (bus : Bus D) where
  pub on_dev-states :
      {A : Type 0} (m : M D A) (a : A) (s t : Tuner D)
      → on_dev m s ≡ ok a t
      → (t.ch_state ≡ s.ch_state) × (t.active_ant ≡ s.active_ant)
  on_dev-states m a s t e = ground arith

  pub reset_if-states :
      (ch reset_ms : ℕ) (s t : Tuner D)
      → reset_if bus ch reset_ms s ≡ ok tt t
      → t.ch_state ≡ s.ch_state
  unfolding reset_if
  reset_if-states ch reset_ms s t e = ground arith

  settle-keeps :
      (ch tvch reset_ms rxlen : ℕ) (s t : Tuner D)
      → settle bus ch tvch reset_ms rxlen s ≡ ok tt t
      → t.ch_state ch ≡ record { i = (s.ch_state ch).i; tvch = tvch }
  unfolding settle
  settle-keeps ch tvch reset_ms rxlen s t e = elim (Bool-cases (rxlen == 4)) [
    | inr c ↦
        let faulty : then_fail (set_amp bus ch off s) ≡ ok tt t = ground arith in
        absurd (then_fail-ok (set_amp bus ch off s) tt t faulty)
    | inl c ↦
        let whole : bind (reset_if bus ch reset_ms s) (λ _ u. ok tt (set_tvch ch tvch u))
            ≡ ok tt t =
          ground arith in
        let (x, u, reset, last) =
          bind-ok (reset_if bus ch reset_ms s) (λ _ u. ok tt (set_tvch ch tvch u)) tt t whole in
        let final : set_tvch ch tvch u ≡ t = ground (arith, last) in
        ap (λ (r : Tuner D). r.ch_state ch) (sym final)
        ∙ set_tvch-here ch tvch u
        ∙ ap (λ f. record { i = (f ch).i; tvch = tvch }) (reset_if-states ch reset_ms s u reset)
  ]

  program-keeps :
      (ch tvch freq bandswitch reset_ms : ℕ) (s t : Tuner D)
      → program bus ch tvch freq bandswitch reset_ms s ≡ ok tt t
      → t.ch_state ch ≡ record { i = (s.ch_state ch).i; tvch = tvch }
  unfolding program
  program-keeps ch tvch freq bandswitch reset_ms s t e =
      let pll = freq * 16 + 704 in
      let body : List ℕ =
        ch ∷ 0xc2 ∷ bit_and (pll / 256) 0x7f ∷ (pll % 256) ∷ 0x86 ∷ bandswitch ∷ 0x50 ∷ [] in
      let (rx, u, sent, after) =
        bind-ok (on_dev (bus.write_then_read (request body) 8) s)
          (λ rx u. settle bus ch tvch reset_ms (length rx) u) tt t e in
      settle-keeps ch tvch reset_ms (length rx) u t after
      ∙ ap (λ f. record { i = (f ch).i; tvch = tvch })
          (on_dev-states (bus.write_then_read (request body) 8) rx s u sent).0

  -- When set_antenna succeeds for nc, the active antenna is nc and get_freq says of both receivers that
  -- they are off.
  pub set_antenna_nc :
      (behind : ℕ → ℕ) (s t : Tuner D)
      → set_antenna bus behind nc s ≡ ok tt t
      → (t.active_ant ≡ nc) × (get_freq 0 t ≡ no_tvch) × (get_freq 1 t ≡ no_tvch)
  unfolding set_antenna get_freq
  set_antenna_nc behind s t e =
      let (x, u, first, second) = bind-ok _ _ tt t e in
      let p = nc_round bus behind 0 (record s { active_ant = nc }) u (omega arith) first in
      let q = nc_round bus behind 1 u t (omega arith) second in
      (
        q.antenna ∙ p.antenna,
        get_freq_off 0 t (omega arith)
            (ap ChannelState.i (q.others 0 (λ z. absurd (omega (arith, z)))) ∙ p.here),
        get_freq_off 1 t (omega arith) q.here,
      )

  pub tune-lit :
      (behind : ℕ → ℕ) (ch tvch reset_ms : ℕ) (s t : Tuner D)
      → tune bus behind ch tvch reset_ms s ≡ ok tt t
      → (ch < 2) × (number (t.ch_state ch).i ≢ 0) × ((t.ch_state ch).tvch ≡ tvch)
  unfolding tune
  tune-lit behind ch tvch reset_ms s t e = elim (Option-cases (band (freq_of behind tvch))) [
    | inl c ↦ absurd (no_band c)
    | inr (b, c) ↦
        let amp = antenna_input s.active_ant b.1 in
        let chain : bind (set_amp bus ch amp s)
              (λ _ u. program bus ch tvch (freq_of behind tvch) b.0 reset_ms u)
            ≡ ok tt t =
          ground arith in
        let (x, u, first, second) =
          bind-ok (set_amp bus ch amp s)
            (λ _ u. program bus ch tvch (freq_of behind tvch) b.0 reset_ms u) tt t chain in
        let sel = set_amp-Selected bus ch amp s u first in
        let final = program-keeps ch tvch (freq_of behind tvch) b.0 reset_ms u t second in
        let input : number (t.ch_state ch).i ≡ number amp =
          ap (λ c. number (ChannelState.i c)) final ∙ ap number sel.here in
        (
          sel.exists,
          λ z. band-lit s.active_ant (freq_of behind tvch) b c (sym input ∙ z),
          ap ChannelState.tvch final,
        )
  ]
    where
      no_band : band (freq_of behind tvch) ≢ none
      no_band c = ground arith

  -- When set_freq succeeds, get_freq gives the channel that was asked for, also when that is the number
  -- that switches the receiver off.
  pub get_freq-set_freq :
      (behind : ℕ → ℕ) (ch tvch reset_ms : ℕ) (s t : Tuner D)
      → set_freq bus behind ch tvch reset_ms s ≡ ok tt t
      → get_freq ch t ≡ tvch
  unfolding set_freq
  get_freq-set_freq behind ch tvch reset_ms s t e = elim (Bool-cases (tvch == no_tvch)) [
    | inl c ↦
        let amp_off : set_amp bus ch off s ≡ ok tt t = ground arith in
        let sel = set_amp-Selected bus ch off s t amp_off in
        get_freq_off ch t sel.exists sel.here ∙ sym (==→eq tvch no_tvch c)
    | inr c ↦
        let tuned : tune bus behind ch tvch reset_ms s ≡ ok tt t = ground arith in
        let (exists, lit, there) = tune-lit behind ch tvch reset_ms s t tuned in
        get_freq_on ch t exists lit ∙ there
  ]
