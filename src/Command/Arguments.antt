-- ===== src/Command/Arguments.antt =====
-- The arguments of `main` (main.cpp). A string is the list of its characters, without the NUL.
pub mod Shown
use seztuner.Prelude.{
  ℕ, ◌≤◌, ◌≡◌, refl, arith, List, [], ◌∷◌, Option, none, some, Bool, true, false, ◌&&◌, ltb, leb,
  ◌==◌, if◌then◌else◌, get_or, length, drop, Option-cases, Bool-cases, inl, inr,
}
use seztuner.Tuner.{Antenna, nc, ant1, ant2, coax}

pub record Options : Type 0 where
  pub selected_antenna : Antenna
  pub record_ch : ℕ

-- `!strncmp(arg, "-x", 2)` for this letter.
abbrev pub has_letter : ℕ → List ℕ → Bool
has_letter letter arg = get_or arg 0 0 == 45 && get_or arg 1 0 == letter

unfoldable pub antenna_arg : List ℕ → Option Antenna
antenna_arg arg =
    if has_letter 97 arg && length arg == 3 && leb 49 (get_or arg 2 0) && leb (get_or arg 2 0) 51
    then some (if get_or arg 2 0 == 49 then ant1 else if get_or arg 2 0 == 50 then ant2 else coax)
    else none

-- The number of a channel that the tuner has.
abbrev pub in_range : Option ℕ → Option ℕ
in_range none = none
in_range (some v) = if leb 2 v && leb v 51 then some v else none

-- `sscanf` is `sscanf(..., "%u", &v)`, `none` when it does not give 1.
unfoldable pub channel_arg : (List ℕ → Option ℕ) → List ℕ → Option ℕ
channel_arg sscanf arg = if has_letter 99 arg then in_range (sscanf (drop 2 arg)) else none

unfoldable pub parse_arg : (List ℕ → Option ℕ) → List ℕ → Options → Option Options
parse_arg sscanf arg options = elim (antenna_arg arg) [
  | some ant ↦ some (record options { selected_antenna = ant })
  | none ↦ elim (channel_arg sscanf arg) [
    | some v ↦ some (record options { record_ch = v })
    | none ↦ none
  ]
]

-- The loop. `none` is the message about the usage and `return 1`.
unfoldable pub parse_args : (List ℕ → Option ℕ) → List (List ℕ) → Options → Option Options
parse_args sscanf [] options = some options
parse_args sscanf (arg ∷ rest) options = elim (parse_arg sscanf arg options) [
  | none ↦ none
  | some next ↦ parse_args sscanf rest next
]

-- Before the loop.
abbrev pub no_options : Options
no_options = record { selected_antenna = nc; record_ch = 0 }
