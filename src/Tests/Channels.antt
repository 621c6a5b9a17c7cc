-- ===== src/Tests/Channels.antt =====
-- A scan in which every channel is heard, and its progress (tuner.cpp).
use seztuner.Prelude.{
  ℕ, suc, ◌≤◌, ◌≡◌, ◌≢◌, refl, arith, List, [], ◌∷◌, none, true, false, leb, ◌==◌, if◌then◌else◌,
  length, get_or, All, Bool-cases, inl, inr,
}
use seztuner.Run.{Run, ok, fail, stuck}
use seztuner.Socket.Bus.{Bus}
use seztuner.Socket.Registers.{
  exchange, command, check_demod, get_demod8, set_demod8, set_gpio, reset_demod,
}
use seztuner.Tuner.{
  vhf1, ant1, coax, Tuner, band, set_input, set_tvch, new_input, with_gpio, gpio_word, set_amp,
  reset_if, settle, program, freq_of, tune, set_freq,
}
use seztuner.Tuner.Scan.{
  sequence, progress, scan_at, report, tune_in, wait_rest, heard, listen, scan_round, scan_pass,
  scan_done, scan_antennas, save_12a, pick_antenna, scan_from, scan,
}
use seztuner.Tuner.Scan.Rounds.{count, Locks}
use seztuner.Tuner.Scan.Order.{Ascends, Sorted, Sorts, IsChannel}
use seztuner.Tuner.Scan.Result.{scan-Ascends, scan_complete}
use seztuner.Tuner.Scan.Ending.{Answers}
use seztuner.Tuner.Scan.Termination.{scan_ends}
use seztuner.Tuner.Scan.Progress.{FoundBefore, progress_bound}

-- Every read is answered with 0x81, everything else without content.
abbrev pub device : Bus (Unit {0})
device = record {
  write_then_read = λ request room d.
      if get_or request 5 0 == 0xb3
      then ok (0 ∷ 0x0d ∷ 0 ∷ 1 ∷ 0x81 ∷ []) d
      else ok (0 ∷ 0x0d ∷ 0 ∷ 0 ∷ []) d;
  usleep = λ microseconds d. d;
}

abbrev pub tuned : Tuner (Unit {0})
tuned = record {
  dev = tt;
  cur_gpio = 0x80f0;
  active_ant = ant1;
  ch_state = λ ch. record { i = vhf1; tvch = 7 };
}

abbrev pub silence : ℕ → ℕ
silence i = 0

unfoldable insert : ℕ → List ℕ → List ℕ
insert x [] = x ∷ []
insert x (y ∷ l) = if leb x y then x ∷ y ∷ l else y ∷ insert x l

unfoldable sort : List ℕ → List ℕ
sort [] = []
sort (x ∷ l) = insert x (sort l)

insert-count : (x y : ℕ) (l : List ℕ) → count x (insert y l) ≡ count x (y ∷ l)
unfolding insert
insert-count x y [] = refl
insert-count x y (z ∷ l) = ground (arith, insert-count x y l)

insert-length : (y : ℕ) (l : List ℕ) → length (insert y l) ≡ suc (length l)
unfolding insert
insert-length y [] = refl
insert-length y (z ∷ l) = ground (arith, insert-length y l)

below_trans : (x y : ℕ) (l : List ℕ) → x ≤ y → All (λ z. y ≤ z) l → All (λ z. x ≤ z) l
below_trans x y [] h k = tt
below_trans x y (z ∷ l) h (k, ks) = (omega (arith, h, k), below_trans x y l h ks)

insert-below : (x y : ℕ) (l : List ℕ) → x ≤ y → All (λ z. x ≤ z) l → All (λ z. x ≤ z) (insert y l)
unfolding insert
insert-below x y [] h k = (h, tt)
insert-below x y (z ∷ l) h (k, ks) = elim (Bool-cases (leb y z)) [
  | inl c ↦ rw c (h, (k, ks))
  | inr c ↦ rw c (k, insert-below x y l h ks)
]

insert-Sorted : (y : ℕ) (l : List ℕ) → Sorted l → Sorted (insert y l)
unfolding insert
insert-Sorted y [] h = (tt, tt)
insert-Sorted y (z ∷ l) (h, hs) = elim (Bool-cases (leb y z)) [
  | inl c ↦ let le : y ≤ z = ground (arith, c) in rw c ((le, below_trans y z l le h), (h, hs))
  | inr c ↦
      let le : z ≤ y = ground (arith, c) in rw c (insert-below z y l le h, insert-Sorted y l hs)
]

sort-Sorted : (l : List ℕ) → Sorted (sort l)
unfolding sort
sort-Sorted [] = tt
sort-Sorted (x ∷ l) = insert-Sorted x (sort l) (sort-Sorted l)

sort-count : (l : List ℕ) (x : ℕ) → count x (sort l) ≡ count x l
unfolding sort
sort-count [] x = refl
sort-count (y ∷ l) x = let rest = sort-count l x in omega (arith, insert-count x y (sort l), rest)

length-sort : (l : List ℕ) → length (sort l) ≡ length l
unfolding sort
length-sort [] = refl
length-sort (y ∷ l) = let rest = length-sort l in omega (arith, insert-length y (sort l), rest)

sort-Sorts : Sorts sort
sort-Sorts = record { sorted = sort-Sorted; same = sort-count; size = length-sort }

device-Locks : Locks device
unfolding get_demod8 exchange check_demod
device-Locks j b d e h k = ground (arith, h, k)

pub device-Answers : Answers device
device-Answers = record { back = λ request room d e. absurd (ground (arith, e)) }

abbrev list_of : Run (Tuner (Unit {0})) (List ℕ) → List ℕ
list_of (ok a t) = a
list_of (fail t) = []
list_of stuck = []

abbrev state_of : Run (Tuner (Unit {0})) (List ℕ) → Tuner (Unit {0})
state_of (ok a t) = t
state_of (fail t) = t
state_of stuck = tuned

abbrev scanned : Run (Tuner (Unit {0})) (List ℕ)
scanned = scan device silence none sort true 20 tuned

scans : scanned ≡ ok (list_of scanned) (state_of scanned)
unfolding scan pick_antenna scan_from save_12a scan_antennas scan_pass scan_at scan_round tune_in
    listen wait_rest heard report scan_done set_freq tune freq_of band set_amp set_input with_gpio
    new_input gpio_word set_gpio command exchange program settle reset_if set_tvch reset_demod
    get_demod8 set_demod8 check_demod
scans = refl

scan-Ascends_example :
    Ascends (list_of scanned) × All IsChannel (list_of scanned) × (length (list_of scanned) ≤ 50)
scan-Ascends_example =
    scan-Ascends device silence none sort sort-Sorts true 20 (list_of scanned) tuned
      (state_of scanned) refl scans

scan_complete_example : count 51 (list_of scanned) ≡ 1
scan_complete_example =
    scan_complete device silence none sort sort-Sorts true 20 (list_of scanned) tuned
      (state_of scanned) refl device-Locks scans 51 (omega arith, omega arith)

scan_ends_example : scan device silence none sort true 20 tuned ≢ stuck
scan_ends_example = scan_ends device device-Answers silence none sort true 20 tuned

-- 4, 8 and 5 were found before the round at position 5, which starts with channel 7.
abbrev three : List ℕ
three = 4 ∷ 8 ∷ 5 ∷ []

three-FoundBefore : FoundBefore 6 three
unfolding sequence
three-FoundBefore = record {
  position = 1;
  receiver = 1;
  exists = omega arith;
  earlier = omega arith;
  channel = refl;
}

progress_bound_example : (progress 6 coax false three).0 ≤ (progress 6 coax false three).1
progress_bound_example = progress_bound 6 coax false three (omega arith) (λ h. three-FoundBefore)
