-- ===== src/Tuner.antt =====
-- The tuner (tuner.h, tuner.cpp): antennas, amplifiers and the frequencies of the two receivers, over the
-- connection of `Socket`. An enum is a data type, with its number where the source computes with it.
pub mod Gpio
pub mod Inputs
pub mod Channel
pub mod Reception
pub mod Setup
pub mod Scan
pub mod Persists
use seztuner.Prelude.{
  ℕ, ◌+◌, ◌-◌, ◌*◌, ◌/◌, ◌%◌, ◌^◌, bit_and, bit_or, List, [], ◌∷◌, Option, none, some, Bool, true,
  false, ◌&&◌, ◌||◌, not, ltb, leb, ◌==◌, if◌then◌else◌, get_or, length, update,
}
use seztuner.Run.{Run, ok, fail, stuck, M, pure, error, bind, fail_if, ◌>>=◌, ◌>>◌}
use seztuner.Socket.Bus.{Bus}
use seztuner.Socket.Registers.{request, set_gpio, reset_demod}

pub data Amp : Type 0 where
  off vhf1 vhf2 uhf1 uhf2 external : Amp

pub data Antenna : Type 0 where
  nc ant1 ant2 coax : Antenna

abbrev pub number : Amp → ℕ
number off = 0
number vhf1 = 1
number vhf2 = 2
number uhf1 = 3
number uhf2 = 4
number external = 5

-- `(tuner_amp_input) ((u32) tai + 1)`. After `external` there is no input, and none is asked for.
abbrev pub next_amp : Amp → Amp
next_amp off = vhf1
next_amp vhf1 = vhf2
next_amp vhf2 = uhf1
next_amp uhf1 = uhf2
next_amp uhf2 = external
next_amp external = external

pub record ChannelState : Type 0 where
  pub i : Amp
  pub tvch : ℕ

-- `dev` is the world outside, with the tuner in it.
pub record Tuner (D : Type 0) : Type 0 where
  pub dev : D
  pub cur_gpio : ℕ
  pub active_ant : Antenna
  pub ch_state : ℕ → ChannelState

-- `(unsigned) -1`
abbrev pub no_tvch : ℕ
no_tvch = 2 ^ 32 - 1

-- `tuner(...)`, in this world.
unfoldable pub new_tuner : {D : Type 0} → D → Tuner D
new_tuner dev = record {
  dev = dev;
  cur_gpio = 0;
  active_ant = nc;
  ch_state = λ ch. record { i = off; tvch = no_tvch };
}

abbrev pub filter_ch0 : Amp → ℕ
filter_ch0 off = 4
filter_ch0 vhf1 = 3
filter_ch0 vhf2 = 1
filter_ch0 uhf1 = 5
filter_ch0 uhf2 = 2
filter_ch0 external = 0

abbrev pub filter_ch1 : Amp → ℕ
filter_ch1 off = 0
filter_ch1 vhf1 = 3
filter_ch1 vhf2 = 1
filter_ch1 uhf1 = 4
filter_ch1 uhf2 = 2
filter_ch1 external = 5

-- Which amplifiers an input needs, in the words of `set_amp`.
abbrev pub amp_gpio : Amp → ℕ
amp_gpio off = 0
amp_gpio vhf1 = 1
amp_gpio vhf2 = 4
amp_gpio uhf1 = 2
amp_gpio uhf2 = 8
amp_gpio external = 0

-- `cur_gpio` in `set_amp`: what is kept, the numbers of both inputs, and the two filters. The table
-- `amp_gpio` is not read.
unfoldable pub gpio_word : ℕ → Amp → Amp → ℕ
gpio_word cur_gpio u0 u1 =
    bit_or
      (bit_or (bit_or (bit_or (bit_and cur_gpio 0x80f0) (number u0)) (number u1))
        (filter_ch0 u0 * 2 ^ 8))
      (filter_ch1 u1 * 2 ^ 11)

-- Frequencies in MHz of the channels from 2 on.
abbrev pub ch_freq : List ℕ
ch_freq =
    57 ∷ 63 ∷ 69 ∷ 79 ∷ 85 ∷ 177 ∷ 183 ∷ 189 ∷ 195 ∷ 201 ∷ 207 ∷ 213 ∷ 473 ∷ 479 ∷ 485 ∷ 491 ∷ 497
    ∷ 503 ∷ 509 ∷ 515 ∷ 521 ∷ 527 ∷ 533 ∷ 539 ∷ 545 ∷ 551 ∷ 557 ∷ 563 ∷ 569 ∷ 575 ∷ 581 ∷ 587 ∷ 593
    ∷ 599 ∷ 605 ∷ 611 ∷ 617 ∷ 623 ∷ 629 ∷ 635 ∷ 641 ∷ 647 ∷ 653 ∷ 659 ∷ 665 ∷ 671 ∷ 677 ∷ 683 ∷ 689
    ∷ 695 ∷ []

-- Band switch and input for a frequency.
unfoldable pub band : ℕ → Option (ℕ × Amp)
band freq =
    if ltb freq 158
    then some (1, vhf1)
    else if ltb freq 452
    then some (2, vhf1)
    else if ltb freq 862
    then some (4, uhf1)
    else none

abbrev pub antenna_input : Antenna → Amp → Amp
antenna_input ant2 tai = next_amp tai
antenna_input coax tai = external
antenna_input nc tai = tai
antenna_input ant1 tai = tai

abbrev pub is_nc : Antenna → Bool
is_nc nc = true
is_nc ant1 = false
is_nc ant2 = false
is_nc coax = false

-- A call of the connection.
abbrev pub on_dev : {D A : Type 0} → M D A → M (Tuner D) A
on_dev m s = elim (m s.dev) [
  | ok a d ↦ ok a (record s { dev = d })
  | fail d ↦ fail (record s { dev = d })
  | stuck ↦ stuck
]

-- A call whose result is only reported, in front of `return 1`.
abbrev pub then_fail : {S A B : Type 0} → Run S A → Run S B
then_fail (ok a s) = fail s
then_fail (fail s) = fail s
then_fail stuck = stuck

unfoldable pub set_input : {D : Type 0} → ℕ → Amp → Tuner D → Tuner D
set_input ch state s = record s {
  ch_state = update s.ch_state ch (record { i = state; tvch = (s.ch_state ch).tvch });
}

unfoldable pub set_tvch : {D : Type 0} → ℕ → ℕ → Tuner D → Tuner D
set_tvch ch tvch s = record s {
  ch_state = update s.ch_state ch (record { i = (s.ch_state ch).i; tvch = tvch });
}

-- `update[n]` in `set_amp`.
unfoldable pub new_input : {D : Type 0} → ℕ → Amp → Tuner D → ℕ → Amp
new_input ch state s n = if n == ch then state else (s.ch_state n).i

unfoldable pub with_gpio : {D : Type 0} → ℕ → Amp → Tuner D → Tuner D
with_gpio ch state s = record s {
  cur_gpio = gpio_word s.cur_gpio (new_input ch state s 0) (new_input ch state s 1);
}

-- `ch_freq[tvch]`. For the channels 50 and 51 it is behind the table, where `behind` stands.
unfoldable pub freq_of : (ℕ → ℕ) → ℕ → ℕ
freq_of behind tvch = if ltb tvch 50 then get_or ch_freq tvch 0 else behind (tvch - 50)

-- The input that the receiver had, as that of antenna 1.
abbrev pub first_antenna : Amp → Amp
first_antenna vhf2 = vhf1
first_antenna uhf2 = uhf1
first_antenna vhf1 = vhf1
first_antenna uhf1 = uhf1
first_antenna off = off
first_antenna external = external

module _ {D : Type 0} (bus : Bus D) where
  unfoldable pub set_amp : ℕ → Amp → M (Tuner D) (Unit {0})
  set_amp ch state s =
      if leb 2 ch
      then fail s
      else if number state == number (s.ch_state ch).i
      then ok tt s
      else bind (on_dev (set_gpio bus (with_gpio ch state s).cur_gpio) (with_gpio ch state s))
          λ _ t. ok tt (set_input ch state t)

  unfoldable pub reset_if : ℕ → ℕ → M (Tuner D) (Unit {0})
  reset_if ch reset_ms s = if reset_ms == 0 then ok tt s else on_dev (reset_demod bus ch reset_ms) s

  -- What follows the answer of `rxlen` bytes to the request of `program`.
  unfoldable pub settle : ℕ → ℕ → ℕ → ℕ → M (Tuner D) (Unit {0})
  settle ch tvch reset_ms rxlen s =
      if not (rxlen == 4)
      then then_fail (set_amp ch off s)
      else bind (reset_if ch reset_ms s) λ _ t. ok tt (set_tvch ch tvch t)

  -- The request to the tuner chip: the divider, two control registers and the band switch.
  unfoldable pub program : ℕ → ℕ → ℕ → ℕ → ℕ → M (Tuner D) (Unit {0})
  program ch tvch freq bandswitch reset_ms s =
      let pll = freq * 16 + 704 in
      let body =
        ch ∷ 0xc2 ∷ bit_and (pll / 256) 0x7f ∷ (pll % 256) ∷ 0x86 ∷ bandswitch ∷ 0x50 ∷ [] in
      bind (on_dev (bus.write_then_read (request body) 8) s)
        λ rx t. settle ch tvch reset_ms (length rx) t

  unfoldable pub tune : (ℕ → ℕ) → ℕ → ℕ → ℕ → M (Tuner D) (Unit {0})
  tune behind ch tvch reset_ms s = elim (band (freq_of behind tvch)) [
    | none ↦ fail s
    | some b ↦
        bind (set_amp ch (antenna_input s.active_ant b.1) s)
          λ _ t. program ch tvch (freq_of behind tvch) b.0 reset_ms t
  ]

  unfoldable pub set_freq : (ℕ → ℕ) → ℕ → ℕ → ℕ → M (Tuner D) (Unit {0})
  set_freq behind ch tvch reset_ms s =
      if leb 2 ch || ((ltb tvch 2 || ltb 51 tvch) && not (tvch == no_tvch))
      then fail s
      else if is_nc s.active_ant
      then fail s
      else if tvch == no_tvch
      then set_amp ch off s
      else if get_or ch_freq (tvch - 2) 0 == 0
      then fail s
      else tune behind ch tvch reset_ms s

  unfoldable pub set_amp_if_tuned : ℕ → Amp → M (Tuner D) (Unit {0})
  set_amp_if_tuned ch tai s =
      if ltb (s.ch_state ch).tvch 2 || ltb 51 (s.ch_state ch).tvch
      then ok tt s
      else set_amp ch tai s

  -- A round of `set_antenna` for a receiver that is not off.
  unfoldable pub move_antenna : (ℕ → ℕ) → Antenna → ℕ → Amp → M (Tuner D) (Unit {0})
  move_antenna behind nc ch tai s = set_amp ch off s
  move_antenna behind coax ch tai s = set_amp ch external s
  move_antenna behind ant1 ch tai s =
      if number tai == 5
      then set_freq behind ch (s.ch_state ch).tvch 20 s
      else set_amp_if_tuned ch tai s
  move_antenna behind ant2 ch tai s =
      if number tai == 5
      then set_freq behind ch (s.ch_state ch).tvch 20 s
      else set_amp_if_tuned ch (next_amp tai) s

  unfoldable pub antenna_round : (ℕ → ℕ) → Antenna → ℕ → M (Tuner D) (Unit {0})
  antenna_round behind ant ch s =
      if number (s.ch_state ch).i == 0
      then ok tt s
      else move_antenna behind ant ch (first_antenna (s.ch_state ch).i) s

  unfoldable pub set_antenna : (ℕ → ℕ) → Antenna → M (Tuner D) (Unit {0})
  set_antenna behind ant s =
      bind (antenna_round behind ant 0 (record s { active_ant = ant }))
        λ _ t. antenna_round behind ant 1 t

-- `get_freq`
unfoldable pub get_freq : {D : Type 0} → ℕ → Tuner D → ℕ
get_freq ch s =
    if leb 2 ch then 0 else if number (s.ch_state ch).i == 0 then no_tvch else (s.ch_state ch).tvch
