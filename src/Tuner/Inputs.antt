-- ===== src/Tuner/Inputs.antt =====
-- Which inputs `set_amp` and `set_antenna` (tuner.cpp) leave selected.
use seztuner.Prelude.{
  ℕ, ◌<◌, ◌≡◌, ◌≢◌, ◌⊎◌, inl, inr, refl, sym, ap, ◌∙◌, arith, ◌==◌, if◌then◌else◌, Bool-cases,
}
use seztuner.Run.{ok, fail}
use seztuner.Socket.Bus.{Bus}
use seztuner.Tuner.{
  Amp, off, vhf1, vhf2, uhf1, uhf2, external, number, nc, ChannelState, Tuner, set_input, with_gpio,
  set_amp, move_antenna, antenna_round,
}

amp_of : ℕ → Amp
amp_of n =
    if n == 0
    then off
    else if n == 1
    then vhf1
    else if n == 2
    then vhf2
    else if n == 3
    then uhf1
    else if n == 4
    then uhf2
    else external

amp_of-number : (a : Amp) → amp_of (number a) ≡ a
unfolding amp_of
amp_of-number off = refl
amp_of-number vhf1 = refl
amp_of-number vhf2 = refl
amp_of-number uhf1 = refl
amp_of-number uhf2 = refl
amp_of-number external = refl

number-injective : (a b : Amp) → number a ≡ number b → a ≡ b
number-injective a b h = sym (amp_of-number a) ∙ ap amp_of h ∙ amp_of-number b

-- From `s` to `t` receiver `ch` got this input. It keeps its channel, and the other receiver and the
-- antenna are as they were.
pub record Selected {D : Type 0} (ch : ℕ) (state : Amp) (s t : Tuner D) : Type 0 where
  pub exists : ch < 2
  pub here : (t.ch_state ch).i ≡ state
  pub channel : (t.ch_state ch).tvch ≡ (s.ch_state ch).tvch
  pub others : (other : ℕ) → other ≢ ch → t.ch_state other ≡ s.ch_state other
  pub antenna : t.active_ant ≡ s.active_ant

pub set_input-others :
    {D : Type 0} (ch other : ℕ) (state : Amp) (s : Tuner D)
    → other ≢ ch
    → (set_input ch state s).ch_state other ≡ s.ch_state other
unfolding set_input
set_input-others ch other state s h = ground arith

set_input-here :
    {D : Type 0} (ch : ℕ) (state : Amp) (s : Tuner D)
    → (set_input ch state s).ch_state ch ≡ record { i = state; tvch = (s.ch_state ch).tvch }
unfolding set_input
set_input-here ch state s = ground arith

module _ {D : Type 0} (bus : Bus D) where
  -- A call that succeeds either found the input selected and did nothing, or selected it.
  set_amp-cases :
      (ch : ℕ) (state : Amp) (s t : Tuner D)
      → set_amp bus ch state s ≡ ok tt t
      → (ch < 2)
        × (((t ≡ s) × (number state ≡ number (s.ch_state ch).i))
            ⊎ ((t.ch_state ≡ (set_input ch state s).ch_state) × (t.active_ant ≡ s.active_ant)))
  unfolding set_amp set_input with_gpio
  set_amp-cases ch state s t e = ground arith

  -- After set_amp succeeds the receiver exists and has the input, keeps its channel, and the other
  -- receiver and the antenna are as before.
  pub set_amp-Selected :
      (ch : ℕ) (state : Amp) (s t : Tuner D)
      → set_amp bus ch state s ≡ ok tt t
      → Selected ch state s t
  set_amp-Selected ch state s t e =
      let (exists, c) = set_amp-cases ch state s t e in
      elim c [
        | inl (same, n) ↦ record {
          exists = exists;
          here = ap (λ (r : Tuner D). (r.ch_state ch).i) same ∙ sym (number-injective state _ n);
          channel = ap (λ (r : Tuner D). (r.ch_state ch).tvch) same;
          others = λ other h. ap (λ (r : Tuner D). r.ch_state other) same;
          antenna = ap (λ (r : Tuner D). r.active_ant) same;
        }
        | inr (states, kept) ↦
            let there = ap (λ f. f ch) states ∙ set_input-here ch state s in
            record {
              exists = exists;
              here = ap ChannelState.i there;
              channel = ap ChannelState.tvch there;
              others = λ other h. ap (λ f. f other) states ∙ set_input-others ch other state s h;
              antenna = kept;
            }
      ]

  -- When set_amp fails no receiver's input or channel has changed.
  set_amp_fails :
      (ch : ℕ) (state : Amp) (s t : Tuner D)
      → set_amp bus ch state s ≡ fail t
      → t.ch_state ≡ s.ch_state
  unfolding set_amp set_input with_gpio
  set_amp_fails ch state s t e = ground arith

  -- A round of `set_antenna` for `nc` leaves the receiver off.
  pub nc_round :
      (behind : ℕ → ℕ) (ch : ℕ) (s t : Tuner D)
      → ch < 2
      → antenna_round bus behind nc ch s ≡ ok tt t
      → Selected ch off s t
  unfolding antenna_round move_antenna
  nc_round behind ch s t h e = elim (Bool-cases (number (s.ch_state ch).i == 0)) [
    | inl c ↦
        let same : s ≡ t = ground arith in
        record {
          exists = h;
          here =
              ap (λ (r : Tuner D). (r.ch_state ch).i) (sym same)
              ∙ number-injective _ off (ground arith);
          channel = ap (λ (r : Tuner D). (r.ch_state ch).tvch) (sym same);
          others = λ other k. ap (λ (r : Tuner D). r.ch_state other) (sym same);
          antenna = ap (λ (r : Tuner D). r.active_ant) (sym same);
        }
    | inr c ↦ set_amp-Selected ch off s t (ground arith)
  ]
