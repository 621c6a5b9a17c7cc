-- ===== src/Tuner/Scan/Steady.antt =====
-- Calls of tuner.cpp that come back, and the antenna that they leave active.
use seztuner.Prelude.{
  ◌-◌, ◌&&◌, ℕ, ◌+◌, ◌*◌, ◌/◌, ◌%◌, ◌||◌, not, leb, ltb, ◌==◌, length, get_or, bit_and,
  if◌then◌else◌, ◌≡◌, refl, arith, List, [], ◌∷◌, Option, none, some, Bool, true, false,
}
use seztuner.Run.{Run, ok, fail, stuck, M, bind}
use seztuner.Socket.Bus.{Bus}
use seztuner.Socket.Registers.{request, set_gpio, reset_demod}
use seztuner.Tuner.{
  Amp, off, external, number, next_amp, Antenna, nc, ant1, ant2, coax, is_nc, antenna_input,
  no_tvch, band, ch_freq, freq_of, first_antenna, Tuner, on_dev, then_fail, with_gpio, set_input,
  set_tvch, set_amp, reset_if, settle, program, tune, set_freq, set_amp_if_tuned, move_antenna,
  antenna_round, set_antenna,
}
use seztuner.Tuner.Scan.Ending.{
  Ends, Answers, on_dev-Ends, ok-Ends, fail-Ends, set_gpio-Ends, reset_demod-Ends,
}

-- The call comes back, and when it succeeds this antenna is active.
pub record Steady {D A : Type 0} (ant : Antenna) (r : Run (Tuner D) A) : Type 0 where
  pub ends : Ends r
  pub keeps : (a : A) (t : Tuner D) → r ≡ ok a t → t.active_ant ≡ ant

-- The antenna may change in the second call.
pub relay :
    {D A B : Type 0} {ant to : Antenna} (r : Run (Tuner D) A) (f : A → M (Tuner D) B)
    → Steady ant r
    → ((a : A) (t : Tuner D) → t.active_ant ≡ ant → Steady to (f a t))
    → Steady to (bind r f)
relay (ok a t) f h k = k a t (h.keeps a t refl)
relay (fail t) f h k = record {
  ends = λ e. absurd (ground (arith, e));
  keeps = λ b u e. absurd (ground (arith, e));
}
relay stuck f h k = absurd (h.ends refl)

pub bind-Steady :
    {D A B : Type 0} {ant : Antenna} (r : Run (Tuner D) A) (f : A → M (Tuner D) B)
    → Steady ant r
    → ((a : A) (t : Tuner D) → t.active_ant ≡ ant → Steady ant (f a t))
    → Steady ant (bind r f)
bind-Steady r f h k = relay r f h k

pub if-Steady :
    {D A : Type 0} {ant : Antenna} (b : Bool) (x y : Run (Tuner D) A)
    → Steady ant x
    → Steady ant y
    → Steady ant (if b then x else y)
if-Steady true x y h k = h
if-Steady false x y h k = k

pub Option-Steady :
    {D A B : Type 0} {ant : Antenna} (o : Option A) (x : Run (Tuner D) B) (f : A → Run (Tuner D) B)
    → Steady ant x
    → ((a : A) → Steady ant (f a))
    → Steady ant (elim o [ none ↦ x | some a ↦ f a ])
Option-Steady none x f h k = h
Option-Steady (some a) x f h k = k a

pub ok-Steady :
    {D A : Type 0} {ant : Antenna} (a : A) (s : Tuner D)
    → s.active_ant ≡ ant
    → Steady {A = A} ant (ok a s)
ok-Steady a s h = record { ends = ok-Ends a s; keeps = λ b t e. ground (arith, e, h) }

pub fail-Steady : {D A : Type 0} {ant : Antenna} (s : Tuner D) → Steady {A = A} ant (fail s)
fail-Steady {A = A} s = record { ends = fail-Ends A s; keeps = λ b t e. absurd (ground (arith, e)) }

pub then_fail-Steady :
    {D A B : Type 0} {ant : Antenna} (r : Run (Tuner D) A)
    → Steady ant r
    → Steady {A = B} ant (then_fail r)
then_fail-Steady (ok a s) h = fail-Steady s
then_fail-Steady (fail s) h = fail-Steady s
then_fail-Steady stuck h = absurd (h.ends refl)

pub on_dev-Steady :
    {D A : Type 0} {ant : Antenna} (m : M D A) (s : Tuner D)
    → Ends (m s.dev)
    → s.active_ant ≡ ant
    → Steady ant (on_dev m s)
on_dev-Steady m s h k = record { ends = on_dev-Ends m s h; keeps = λ a t e. ground (arith, e, k) }

module _ {D : Type 0} (bus : Bus D) (live : Answers bus) where
  pub set_amp-Steady :
      {ant : Antenna} (ch : ℕ) (state : Amp) (s : Tuner D)
      → s.active_ant ≡ ant
      → Steady ant (set_amp bus ch state s)
  unfolding set_amp with_gpio set_input
  set_amp-Steady ch state s h =
      let u = with_gpio ch state s in
      if-Steady (leb 2 ch) _ _ (fail-Steady s) (
        if-Steady (number state == number (s.ch_state ch).i) _ _ (ok-Steady tt s h) (
          bind-Steady (on_dev (set_gpio bus u.cur_gpio) u) _
            (on_dev-Steady (set_gpio bus u.cur_gpio) u (set_gpio-Ends bus live u.cur_gpio u.dev) h)
            (λ _ t k. ok-Steady tt (set_input ch state t) k)))

  reset_if-Steady :
      {ant : Antenna} (ch reset_ms : ℕ) (s : Tuner D)
      → s.active_ant ≡ ant
      → Steady ant (reset_if bus ch reset_ms s)
  unfolding reset_if
  reset_if-Steady ch reset_ms s h = if-Steady (reset_ms == 0) _ _ (ok-Steady tt s h) (
      on_dev-Steady (reset_demod bus ch reset_ms) s (reset_demod-Ends bus live ch reset_ms s.dev) h)

  settle-Steady :
      {ant : Antenna} (ch tvch reset_ms rxlen : ℕ) (s : Tuner D)
      → s.active_ant ≡ ant
      → Steady ant (settle bus ch tvch reset_ms rxlen s)
  unfolding settle set_tvch
  settle-Steady ch tvch reset_ms rxlen s h =
      if-Steady (not (rxlen == 4)) _ _
        (then_fail-Steady (set_amp bus ch off s) (set_amp-Steady ch off s h))
        (bind-Steady (reset_if bus ch reset_ms s) _ (reset_if-Steady ch reset_ms s h)
          (λ _ t k. ok-Steady tt (set_tvch ch tvch t) k))

  program-Steady :
      {ant : Antenna} (ch tvch freq bandswitch reset_ms : ℕ) (s : Tuner D)
      → s.active_ant ≡ ant
      → Steady ant (program bus ch tvch freq bandswitch reset_ms s)
  unfolding program
  program-Steady ch tvch freq bandswitch reset_ms s h =
      let pll = freq * 16 + 704 in
      let body : List ℕ =
        ch ∷ 0xc2 ∷ bit_and (pll / 256) 0x7f ∷ (pll % 256) ∷ 0x86 ∷ bandswitch ∷ 0x50 ∷ [] in
      bind-Steady (on_dev (bus.write_then_read (request body) 8) s) _
        (on_dev-Steady (bus.write_then_read (request body) 8) s (live.back (request body) 8 s.dev)
          h)
        (λ rx t k. settle-Steady ch tvch reset_ms (length rx) t k)

  module _ (behind : ℕ → ℕ) where
    tune-Steady :
        {ant : Antenna} (ch tvch reset_ms : ℕ) (s : Tuner D)
        → s.active_ant ≡ ant
        → Steady ant (tune bus behind ch tvch reset_ms s)
    unfolding tune
    tune-Steady ch tvch reset_ms s h =
        Option-Steady (band (freq_of behind tvch)) _ _ (fail-Steady s) (λ b.
          bind-Steady (set_amp bus ch (antenna_input s.active_ant b.1) s) _
            (set_amp-Steady ch (antenna_input s.active_ant b.1) s h)
            (λ _ t k. program-Steady ch tvch (freq_of behind tvch) b.0 reset_ms t k))

    pub set_freq-Steady :
        {ant : Antenna} (ch tvch reset_ms : ℕ) (s : Tuner D)
        → s.active_ant ≡ ant
        → Steady ant (set_freq bus behind ch tvch reset_ms s)
    unfolding set_freq
    set_freq-Steady ch tvch reset_ms s h =
        if-Steady (leb 2 ch || ((ltb tvch 2 || ltb 51 tvch) && not (tvch == no_tvch))) _ _
          (fail-Steady s)
          (if-Steady (is_nc s.active_ant) _ _ (fail-Steady s) (
            if-Steady (tvch == no_tvch) _ _ (set_amp-Steady ch off s h) (
              if-Steady (get_or ch_freq (tvch - 2) 0 == 0) _ _ (fail-Steady s)
                (tune-Steady ch tvch reset_ms s h))))

    set_amp_if_tuned-Steady :
        {ant : Antenna} (ch : ℕ) (tai : Amp) (s : Tuner D)
        → s.active_ant ≡ ant
        → Steady ant (set_amp_if_tuned bus ch tai s)
    unfolding set_amp_if_tuned
    set_amp_if_tuned-Steady ch tai s h =
        if-Steady (ltb (s.ch_state ch).tvch 2 || ltb 51 (s.ch_state ch).tvch) _ _ (ok-Steady tt s h)
          (set_amp-Steady ch tai s h)

    move_antenna-Steady :
        {ant : Antenna} (to : Antenna) (ch : ℕ) (tai : Amp) (s : Tuner D)
        → s.active_ant ≡ ant
        → Steady ant (move_antenna bus behind to ch tai s)
    unfolding move_antenna
    move_antenna-Steady nc ch tai s h = set_amp-Steady ch off s h
    move_antenna-Steady coax ch tai s h = set_amp-Steady ch external s h
    move_antenna-Steady ant1 ch tai s h =
        if-Steady (number tai == 5) _ _ (set_freq-Steady ch (s.ch_state ch).tvch 20 s h)
          (set_amp_if_tuned-Steady ch tai s h)
    move_antenna-Steady ant2 ch tai s h =
        if-Steady (number tai == 5) _ _ (set_freq-Steady ch (s.ch_state ch).tvch 20 s h)
          (set_amp_if_tuned-Steady ch (next_amp tai) s h)

    antenna_round-Steady :
        {ant : Antenna} (to : Antenna) (ch : ℕ) (s : Tuner D)
        → s.active_ant ≡ ant
        → Steady ant (antenna_round bus behind to ch s)
    unfolding antenna_round
    antenna_round-Steady to ch s h =
        if-Steady (number (s.ch_state ch).i == 0) _ _ (ok-Steady tt s h)
          (move_antenna-Steady to ch (first_antenna (s.ch_state ch).i) s h)

    pub set_antenna-Steady :
        (ant : Antenna) (s : Tuner D) → Steady ant (set_antenna bus behind ant s)
    unfolding set_antenna
    set_antenna-Steady ant s =
        bind-Steady (antenna_round bus behind ant 0 (record s { active_ant = ant })) _
          (antenna_round-Steady ant 0 (record s { active_ant = ant }) refl)
          (λ _ t k. antenna_round-Steady ant 1 t k)
