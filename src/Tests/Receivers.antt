-- ===== src/Tests/Receivers.antt =====
-- Tuning, with a tuner that acknowledges every request (tuner.cpp).
use seztuner.Prelude.{
  ℕ, suc, ◌≡◌, ◌<◌, ◌↔◌, refl, true, [], ◌∷◌, ◌==◌, if◌then◌else◌, get_or, bit_or,
}
use seztuner.Bits.Fields.{field}
use seztuner.Run.{Run, ok, fail, stuck}
use seztuner.Socket.Bus.{Bus}
use seztuner.Socket.Registers.{
  exchange, command, check_demod, get_demod8, set_demod8, set_gpio, reset_demod,
}
use seztuner.Tuner.{
  vhf1, uhf2, external, nc, ant1, Tuner, no_tvch, amp_gpio, gpio_word, band, set_input, set_tvch,
  new_input, with_gpio, set_amp, reset_if, settle, program, freq_of, tune, set_freq, antenna_round,
  move_antenna, set_antenna, get_freq,
}
use seztuner.Tuner.Gpio.{right_amps, gpio_word_amps}
use seztuner.Tuner.Channel.{set_antenna_nc, get_freq-set_freq}

-- Counts the requests. A read of one byte is told by the request's second byte.
abbrev device : Bus ℕ
device = record {
  write_then_read = λ request room count.
      if get_or request 5 0 == 0xb3
      then ok (0 ∷ 0x0d ∷ 0 ∷ 1 ∷ 0x81 ∷ []) (suc count)
      else ok (0 ∷ 0x0d ∷ 0 ∷ 0 ∷ []) (suc count);
  usleep = λ microseconds count. count;
}

-- Both receivers on antenna 1, on the channels 7 and 9.
abbrev tuned : Tuner ℕ
tuned = record {
  dev = 0;
  cur_gpio = 0x80f0;
  active_ant = ant1;
  ch_state = λ ch. record { i = vhf1; tvch = if ch == 0 then 7 else 9 };
}

abbrev state_after : Run (Tuner ℕ) (Unit {0}) → Tuner ℕ
state_after (ok a t) = t
state_after (fail t) = t
state_after stuck = tuned

abbrev silence : ℕ → ℕ
silence i = 0

gpio_word_amps_example :
    (gpio_word 0x80f0 uhf2 external < 65536)
    × (field 4 4 (gpio_word 0x80f0 uhf2 external) ≡ field 4 4 0x80f0)
    × (field 15 1 (gpio_word 0x80f0 uhf2 external) ≡ field 15 1 0x80f0)
    × ((field 0 4 (gpio_word 0x80f0 uhf2 external) ≡ bit_or (amp_gpio uhf2) (amp_gpio external))
        ↔ (right_amps uhf2 external ≡ true))
gpio_word_amps_example = gpio_word_amps 0x80f0 uhf2 external

disconnects :
    set_antenna device silence nc tuned ≡ ok tt (state_after (set_antenna device silence nc tuned))
unfolding set_antenna antenna_round move_antenna set_amp set_input with_gpio new_input gpio_word
    set_gpio command exchange
disconnects = refl

set_antenna_nc_example :
    let t = state_after (set_antenna device silence nc tuned) in
    (t.active_ant ≡ nc) × (get_freq 0 t ≡ no_tvch) × (get_freq 1 t ≡ no_tvch)
set_antenna_nc_example =
    set_antenna_nc device silence tuned (state_after (set_antenna device silence nc tuned))
      disconnects

tunes :
    set_freq device silence 1 30 20 tuned
    ≡ ok tt (state_after (set_freq device silence 1 30 20 tuned))
unfolding set_freq tune freq_of band set_amp set_input with_gpio new_input gpio_word set_gpio
    command exchange program settle reset_if set_tvch reset_demod get_demod8 set_demod8 check_demod
tunes = refl

get_freq-set_freq_example : get_freq 1 (state_after (set_freq device silence 1 30 20 tuned)) ≡ 30
get_freq-set_freq_example =
    get_freq-set_freq device silence 1 30 20 tuned
      (state_after (set_freq device silence 1 30 20 tuned)) tunes
