-- ===== src/Command/Arguments/Shown.antt =====
-- Arguments as they are written, and what `main` (main.cpp) makes of them.
use seztuner.Prelude.{
  ℕ, ◌≤◌, ◌≡◌, refl, subst, arith, List, [], ◌∷◌, map, Option, some, false, drop, ◌⊎◌, inl, inr,
  Option-cases,
}
use seztuner.Tuner.{Antenna, nc, ant1, ant2, coax, is_nc}
use seztuner.Command.Arguments.{Options, antenna_arg, channel_arg, parse_arg, parse_args}

-- An argument: an antenna by its number, or a channel.
pub data Argument : Type 0 where
  antenna : Antenna → Argument
  channel : ℕ → Argument

-- The tuner has it.
abbrev pub Possible : Argument → Type 0
Possible (antenna ant) = is_nc ant ≡ false
Possible (channel v) = (2 ≤ v) × (v ≤ 51)

abbrev digit_of : Antenna → ℕ
digit_of nc = 48
digit_of ant1 = 49
digit_of ant2 = 50
digit_of coax = 51

-- `digits` writes a number in decimal.
abbrev pub show : (ℕ → List ℕ) → Argument → List ℕ
show digits (antenna ant) = 45 ∷ 97 ∷ digit_of ant ∷ []
show digits (channel v) = 45 ∷ 99 ∷ digits v

-- Later arguments prevail.
abbrev pub choose : Options → Argument → Options
choose options (antenna ant) = record options { selected_antenna = ant }
choose options (channel v) = record options { record_ch = v }

abbrev pub choose_all : Options → List Argument → Options
choose_all options [] = options
choose_all options (argument ∷ rest) = choose_all (choose options argument) rest

-- Each argument is possible.
abbrev pub AllPossible : List Argument → Type 0
AllPossible [] = Unit {0}
AllPossible (argument ∷ rest) = Possible argument × AllPossible rest

module _ (sscanf : List ℕ → Option ℕ) where
  parse_arg-show :
      (digits : ℕ → List ℕ) (argument : Argument) (options : Options)
      → ((v : ℕ) → v ≤ 51 → sscanf (digits v) ≡ some v)
      → Possible argument
      → parse_arg sscanf (show digits argument) options ≡ some (choose options argument)
  unfolding parse_arg antenna_arg channel_arg
  parse_arg-show digits (antenna nc) options reads h = absurd (ground (arith, h))
  parse_arg-show digits (antenna ant1) options reads h = refl
  parse_arg-show digits (antenna ant2) options reads h = refl
  parse_arg-show digits (antenna coax) options reads h = refl
  parse_arg-show digits (channel v) options reads h =
      let read = reads v h.1 in let (low, high) = h in ground (arith, read, low, high)

  -- Arguments that are written as -a with a digit from 1 to 3, or as -c with a channel from 2 to 51,
  -- with a sscanf that reads the numbers up to 51 as they are written, are accepted, and of each kind
  -- the last one prevails.
  pub parse_args-show :
      (digits : ℕ → List ℕ) (arguments : List Argument) (options : Options)
      → ((v : ℕ) → v ≤ 51 → sscanf (digits v) ≡ some v)
      → AllPossible arguments
      → parse_args sscanf (map (show digits) arguments) options
        ≡ some (choose_all options arguments)
  unfolding parse_args
  parse_args-show digits [] options reads h = refl
  parse_args-show digits (argument ∷ rest) options reads h =
      let first = parse_arg-show digits argument options reads h.0 in
      let others = parse_args-show digits rest (choose options argument) reads h.1 in
      ground (arith, first, others)

  -- No channel, or one of the tuner's.
  abbrev pub HasRange : Options → Type 0
  HasRange options = (options.record_ch ≡ 0) ⊎ ((2 ≤ options.record_ch) × (options.record_ch ≤ 51))

  channel_arg-range : (arg : List ℕ) (v : ℕ) → channel_arg sscanf arg ≡ some v → (2 ≤ v) × (v ≤ 51)
  unfolding channel_arg
  channel_arg-range arg v e = elim (Option-cases (sscanf (drop 2 arg))) [
    | inl c ↦ absurd (ground (arith, e, c))
    | inr (w, c) ↦ ground (arith, e, c)
  ]

  parse_arg-HasRange :
      (arg : List ℕ) (options next : Options)
      → HasRange options
      → parse_arg sscanf arg options ≡ some next
      → HasRange next
  unfolding parse_arg
  parse_arg-HasRange arg options next h e = elim (Option-cases (antenna_arg arg)) [
    | inr (ant, c) ↦
        let same : options.record_ch ≡ next.record_ch = ground (arith, e, c) in
        subst (λ n. (n ≡ 0) ⊎ ((2 ≤ n) × (n ≤ 51))) same h
    | inl c ↦ elim (Option-cases (channel_arg sscanf arg)) [
      | inl d ↦ absurd (ground (arith, e, c, d))
      | inr (v, d) ↦
          let same : v ≡ next.record_ch = ground (arith, e, c, d) in
          subst (λ n. (n ≡ 0) ⊎ ((2 ≤ n) × (n ≤ 51))) same (inr (channel_arg-range arg v d))
    ]
  ]

  -- Whatever the arguments and sscanf are, when they are accepted the channel to record is 0, which
  -- stands for none, or between 2 and 51, if it was so before.
  pub parse_args-HasRange :
      (args : List (List ℕ)) (options last : Options)
      → HasRange options
      → parse_args sscanf args options ≡ some last
      → HasRange last
  unfolding parse_args
  parse_args-HasRange [] options last h e =
      let same : options ≡ last = ground (arith, e) in subst HasRange same h
  parse_args-HasRange (arg ∷ rest) options last h e =
      elim (Option-cases (parse_arg sscanf arg options)) [
        | inl c ↦ absurd (ground (arith, e, c))
        | inr (next, c) ↦
            parse_args-HasRange rest next last (parse_arg-HasRange arg options next h c)
              (ground (arith, e, c))
      ]
