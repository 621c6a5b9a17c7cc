-- ===== src/Tuner/Setup/Silence.antt =====
-- The receivers after `tuner::init` (tuner.cpp).
use seztuner.Prelude.{ℕ, ◌≡◌, ◌≢◌, ap, ◌∙◌, arith, List, Option, none, some, leb, if◌then◌else◌}
use seztuner.Run.{ok, fail, bind-ok}
use seztuner.Socket.Bus.{Bus}
use seztuner.Tuner.{off, vhf1, ChannelState, Tuner, no_tvch, on_dev, set_input, set_amp, get_freq}
use seztuner.Tuner.Inputs.{set_amp-Selected, set_input-others}
use seztuner.Tuner.Channel.{get_freq_off, on_dev-states}
use seztuner.Tuner.Setup.{vsb, get_str, set_modulation, init_channel, init_channels, tuner_init}

module _ {D : Type 0} (bus : Bus D) where
  init_channel-off :
      (ch : ℕ) (s t : Tuner D)
      → init_channel bus ch s ≡ ok tt t
      → ((t.ch_state ch).i ≡ off) × ((other : ℕ) → other ≢ ch → t.ch_state other ≡ s.ch_state other)
  unfolding init_channel
  init_channel-off ch s t e =
      let (x, u, amp, modulated) =
        bind-ok (set_amp bus ch off (set_input ch vhf1 s))
          (λ _ v. on_dev (set_modulation bus ch vsb) v) tt t e in
      let sel = set_amp-Selected bus ch off (set_input ch vhf1 s) u amp in
      let (states, ant) = on_dev-states bus (set_modulation bus ch vsb) tt u t modulated in
      (
        ap (λ f. ChannelState.i (f ch)) states ∙ sel.here,
        λ other h.
            ap (λ f. f other) states ∙ sel.others other h ∙ set_input-others ch other vhf1 s h,
      )

  init_channels-off :
      (s t : Tuner D)
      → init_channels bus s ≡ ok tt t
      → (get_freq 0 t ≡ no_tvch) × (get_freq 1 t ≡ no_tvch)
  unfolding init_channels
  init_channels-off s t e =
      let (x, u, first, second) =
        bind-ok (init_channel bus 0 s) (λ _ v. init_channel bus 1 v) tt t e in
      let (off0, others0) = init_channel-off 0 s u first in
      let (off1, others1) = init_channel-off 1 u t second in
      (
        get_freq_off 0 t (omega arith)
            (ap ChannelState.i (others1 0 (λ z. absurd (omega (arith, z)))) ∙ off0),
        get_freq_off 1 t (omega arith) off1,
      )

  -- When tuner::init succeeds, get_freq says of both receivers that they are off, however the version is
  -- read.
  tuner_init_off :
      (parse_version : List ℕ → Option ℕ) (s t : Tuner D)
      → tuner_init bus parse_version s ≡ ok tt t
      → (get_freq 0 t ≡ no_tvch) × (get_freq 1 t ≡ no_tvch)
  unfolding tuner_init
  tuner_init_off parse_version s t e =
      let (ver, u, got, rest) =
        bind-ok (on_dev (get_str bus 0 12) s)
          (λ ver u. elim (parse_version ver) [
            | none ↦ fail u
            | some v ↦ if leb v 20081010 then fail u else init_channels bus u
          ])
          tt t e in
      let started : init_channels bus u ≡ ok tt t = ground (arith, rest) in
      init_channels-off u t started
