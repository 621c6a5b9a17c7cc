-- ===== src/Tuner/Scan.antt =====
-- `scan` and `tuner_scan_call_cb` (tuner.cpp): which channels are on the air.
pub mod Tuning
pub mod Rounds
pub mod Order
pub mod Visits
pub mod Result
pub mod Progress
pub mod Ending
pub mod Steady
pub mod Passes
pub mod Termination
use seztuner.Prelude.{
  ℕ, zero, suc, ◌+◌, ◌-◌, ◌*◌, ◌/◌, ◌%◌, ◌^◌, bit_and, List, [], ◌∷◌, ◌++◌, Option, none, some,
  Bool, true, false, ◌&&◌, ◌||◌, not, ltb, leb, ◌==◌, if◌then◌else◌, get_or, length,
}
use seztuner.Run.{Run, ok, fail, stuck, M, bind}
use seztuner.Socket.Bus.{Bus}
use seztuner.Socket.Registers.{get_demod8, set_demod8}
use seztuner.Tuner.{
  Amp, off, number, Antenna, nc, ant1, ant2, coax, ChannelState, Tuner, ch_freq, is_nc, on_dev,
  then_fail, set_amp, set_freq, set_antenna,
}

-- The positions in `ch_freq` are visited as 0, 4, 8, ... and then 1, 5, 9, ...: their place in that order.
unfoldable pub sequence : ℕ → ℕ
sequence i = i / 4 + bit_and i 1 * 13

-- What earlier antennas have taken of the progress.
abbrev pub antenna_share : Antenna → ℕ
antenna_share ant2 = 25
antenna_share coax = 50
antenna_share nc = 0
antenna_share ant1 = 0

-- Once three channels are found no other antenna is tried, and the rest counts more.
unfoldable pub interpolate : ℕ → ℕ → ℕ → ℕ
interpolate i found_i share =
    if ltb found_i 25
    then ((((i + 2 ^ 32 - found_i) % 2 ^ 32) * (75 - (found_i + share) + 1))
          % 2 ^ 32
          / (25 - found_i + 1)
        + found_i)
      % 2 ^ 32
    else i

unfoldable pub count_from : ℕ → ℕ
count_from i = if i == 0 then 0 else sequence (i - 1) + 1

abbrev pub last_found : List ℕ → ℕ
last_found find = get_or find (length find - 1) 0

-- The two numbers that the callback gets.
unfoldable pub progress : ℕ → Antenna → Bool → List ℕ → ℕ × ℕ
progress i ant ant_valid find =
    if ant_valid
    then (count_from i, 25 + 1)
    else if leb 3 (length find)
    then (
      interpolate (count_from i) (sequence (last_found find)) (antenna_share ant)
          + antenna_share ant,
      75 + 1,
    )
    else (count_from i + antenna_share ant, 75 + 1)

-- Where a pass goes on, and `none` at its end.
unfoldable pub scan_at : ℕ → Option ℕ
scan_at i = if leb 50 i then if bit_and i 1 == 0 then some 1 else none else some i

abbrev pub is_coax : Antenna → Bool
is_coax coax = true
is_coax nc = false
is_coax ant1 = false
is_coax ant2 = false

-- `(tuner_antennas) (get_antenna() + 1)`. After `coax` there is none, and none is asked for.
abbrev pub next_antenna : Antenna → Antenna
next_antenna nc = ant1
next_antenna ant1 = ant2
next_antenna ant2 = coax
next_antenna coax = coax

-- A call whose result is thrown away.
abbrev pub always : {S A B : Type 0} → Run S A → M S B → Run S B
always (ok a s) k = k s
always (fail s) k = k s
always stuck k = stuck

-- `goto fail` with what is done there.
abbrev pub on_fail : {S A : Type 0} → Run S A → M S A → Run S A
on_fail (ok a s) k = ok a s
on_fail (fail s) k = k s
on_fail stuck k = stuck

-- `behind` is as in `set_freq`.
module _ {D : Type 0} (bus : Bus D) (behind : ℕ → ℕ) where
  -- Receiver `j` in the round that starts at position `i`.
  unfoldable pub tune_in : ℕ → ℕ → ℕ → M (Tuner D) (Unit {0})
  tune_in cr_ms i j s =
      if leb 50 (i + j * 2)
      then ok tt s
      else if get_or ch_freq (i + j * 2) 0 == 0
      then ok tt s
      else set_freq bus behind j (i + j * 2 + 2) (if leb cr_ms 20 then cr_ms else 0) s

  -- `usleep` for what `reset_demod` has not waited yet.
  unfoldable pub wait_rest : ℕ → Tuner D → Tuner D
  wait_rest cr_ms s =
      if ltb 20 cr_ms then record s { dev = bus.usleep ((cr_ms - 20) * 1000 % 2 ^ 32) s.dev } else s

  -- Carrier recovery lock adds the receiver's channel.
  unfoldable pub heard : ℕ → List ℕ → ℕ → Tuner D → List ℕ
  heard j find b s = if bit_and b 0x80 == 0 then find else find ++ (s.ch_state j).tvch ∷ []

  unfoldable pub listen : ℕ → ℕ → List ℕ → M (Tuner D) (List ℕ)
  listen i j find s =
      if leb 50 (i + j * 2)
      then ok find s
      else bind (on_dev (get_demod8 bus j 0x11d) s) λ b t. ok (heard j find b t) t

  -- Register 0x12a of receiver `j`, with the frequency modulation off from here on.
  unfoldable pub save_12a : ℕ → M (Tuner D) ℕ
  save_12a j s =
      bind (on_dev (get_demod8 bus j 0x12a) s)
        λ old t. bind (on_dev (set_demod8 bus j 0x12a (bit_and old 0xdf)) t) λ _ u. ok old u

  unfoldable pub undo_12a : ℕ → ℕ → M (Tuner D) (List ℕ)
  undo_12a old0 old1 s =
      always (on_dev (set_demod8 bus 0 0x12a old0) s)
        λ t. always (on_dev (set_demod8 bus 1 0x12a old1) t) λ u. fail u

  -- Both receivers off, and on to the next antenna.
  unfoldable pub switch_antenna : M (Tuner D) (Unit {0})
  switch_antenna s =
      bind (set_amp bus 0 off s) λ _ t.
        bind (set_amp bus 1 off t) λ _ u. set_antenna bus behind (next_antenna u.active_ant) u

  -- Whether the antenna was chosen before, and how long to wait.
  unfoldable pub pick_antenna : ℕ → M (Tuner D) (Bool × ℕ)
  pick_antenna cr_ms s =
      if not (is_nc s.active_ant)
      then ok (true, cr_ms) s
      else if not (number (s.ch_state 0).i == 0) || not (number (s.ch_state 1).i == 0)
      then fail s
      else bind (set_antenna bus behind ant1 s)
          λ _ t. ok (false, if ltb cr_ms 20 then 20 else cr_ms) t

-- `cb` is the callback, which acts on the world outside.
module _ {D : Type 0} (bus : Bus D) (behind : ℕ → ℕ) (cb : Option (ℕ → ℕ → D → D)) where
  unfoldable pub report : ℕ → Bool → List ℕ → Tuner D → Tuner D
  report i ant_valid find s = elim cb [
    | none ↦ s
    | some call ↦
        let p = progress i s.active_ant ant_valid find in record s { dev = call p.0 p.1 s.dev }
  ]

  unfoldable pub scan_round : ℕ → Bool → ℕ → List ℕ → M (Tuner D) (List ℕ)
  scan_round cr_ms ant_valid i find s =
      bind (tune_in bus behind cr_ms i 0 (report (i + 1) ant_valid find s)) λ _ t.
        bind (tune_in bus behind cr_ms i 1 t) λ _ u.
          bind (listen bus behind i 0 find (wait_rest bus behind cr_ms u))
            λ found v. listen bus behind i 1 found v

  -- The inner `for`.
  unfoldable pub scan_pass : ℕ → ℕ → Bool → ℕ → List ℕ → M (Tuner D) (List ℕ)
  scan_pass zero cr_ms ant_valid i find s = stuck
  scan_pass (suc n) cr_ms ant_valid i find s = elim (scan_at i) [
    | none ↦ ok find s
    | some k ↦
        bind (scan_round cr_ms ant_valid k find s)
          λ found t. scan_pass n cr_ms ant_valid (k + 4) found t
  ]

  unfoldable pub scan_done : Bool → List ℕ → Tuner D → Bool
  scan_done ant_valid find s = leb 3 (length find) || ant_valid || is_coax s.active_ant

  -- The outer `for`.
  unfoldable pub scan_antennas : ℕ → ℕ → Bool → ℕ → ℕ → List ℕ → M (Tuner D) (List ℕ)
  scan_antennas zero cr_ms ant_valid old0 old1 find s = stuck
  scan_antennas (suc n) cr_ms ant_valid old0 old1 find s =
      bind (on_fail (scan_pass 27 cr_ms ant_valid 0 find s) (undo_12a bus behind old0 old1))
        λ found t. elim (scan_done ant_valid found t) [
          | true ↦ ok found t
          | false ↦
              bind (switch_antenna bus behind t)
                λ _ u. scan_antennas n cr_ms ant_valid old0 old1 found u
        ]

  -- From the first call of the callback on. `find` has room for 50 channels.
  unfoldable pub scan_from : (List ℕ → List ℕ) → Bool × ℕ → M (Tuner D) (List ℕ)
  scan_from qsort (ant_valid, cr_ms) s =
      bind (save_12a bus behind 0 (report 0 ant_valid [] s)) λ old0 t.
        bind (save_12a bus behind 1 t) λ old1 u.
          bind (scan_antennas 3 cr_ms ant_valid old0 old1 [] u) λ find v.
            bind (on_dev (set_demod8 bus 0 0x12a old0) v)
              λ _ w. bind (on_dev (set_demod8 bus 1 0x12a old1) w) λ _ x. ok (qsort find) x

  -- `*chlist`, and its length is `*n_ch`.
  unfoldable pub scan : (List ℕ → List ℕ) → Bool → ℕ → M (Tuner D) (List ℕ)
  scan qsort malloc_ok cr_ms s =
      bind (pick_antenna bus behind cr_ms s)
        λ picked t. if malloc_ok then scan_from qsort picked t else fail t
