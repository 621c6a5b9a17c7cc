-- ===== src/Tests/Strong.antt =====
-- Three channels that are all strong (main.cpp, `do_item`).
use seztuner.Prelude.{
  ℕ, zero, suc, ◌≤◌, ◌≡◌, refl, List, [], ◌∷◌, ◌==◌, if◌then◌else◌, length, get_or,
}
use seztuner.Run.{Run, ok, fail, stuck}
use seztuner.Socket.Bus.{Bus}
use seztuner.Socket.Registers.{
  exchange, command, check_demod, get_demod8, set_demod8, get_demod_n, set_gpio, reset_demod,
}
use seztuner.Tuner.{
  band, set_input, set_tvch, new_input, with_gpio, gpio_word, set_amp, reset_if, settle, program,
  freq_of, tune, set_freq,
}
use seztuner.Tuner.Reception.{get_mse, get_locked_mse, status_of, be24}
use seztuner.Tuner.Scan.Rounds.{count}
use seztuner.Probe.{
  Probe, Time, elapsed, release, keep_strong, occupy, sleep, look, judge, finish, try_receiver,
  free_receiver, begin_channel, try_channels, still_busy, finish_channels, strong_channels,
}
use seztuner.Probe.Strong.{strong_channels_fit}
use seztuner.Tests.Channels.{tuned, silence}

abbrev bytes_of : ℕ → List ℕ
bytes_of zero = []
bytes_of (suc n) = 0x8f ∷ bytes_of n

-- As many bytes as are asked for, all 0x8f.
abbrev locked : Bus (Unit {0})
locked = record {
  write_then_read = λ request room d.
      if get_or request 5 0 == 0xb3
      then ok (0 ∷ 0x0d ∷ 0 ∷ get_or request 6 0 ∷ bytes_of (get_or request 6 0)) d
      else ok (0 ∷ 0x0d ∷ 0 ∷ 0 ∷ []) d;
  usleep = λ microseconds d. d;
}

abbrev noon : Time
noon = record { sec = 43200; usec = 0 }

abbrev tried : Run (Probe (Unit {0})) (List ℕ)
tried = strong_channels locked silence (λ d. (d, noon)) noon 20 (7 ∷ 9 ∷ 11 ∷ []) tuned

abbrev state_of : Run (Probe (Unit {0})) (List ℕ) → Probe (Unit {0})
state_of (ok a t) = t
state_of (fail t) = t
state_of stuck = record { tun = tuned; end = λ ch. 0; endch = λ ch. 0; strongch = [] }

tries : tried ≡ ok (7 ∷ 9 ∷ 11 ∷ []) (state_of tried)
unfolding strong_channels try_channels free_receiver try_receiver finish judge look elapsed sleep
    release keep_strong occupy begin_channel still_busy finish_channels set_freq tune freq_of band
    set_amp set_input with_gpio new_input gpio_word set_gpio command exchange program settle
    reset_if set_tvch reset_demod get_demod8 set_demod8 get_demod_n check_demod get_mse
    get_locked_mse status_of be24
tries = refl

abbrev three : List ℕ
three = 7 ∷ 9 ∷ 11 ∷ []

strong_channels_fit_example :
    (length three ≤ length three) × ((x : ℕ) → count x three ≤ count x three)
strong_channels_fit_example =
    strong_channels_fit locked silence (λ d. (d, noon)) noon 20 three three tuned (state_of tried)
      tries
