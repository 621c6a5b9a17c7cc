-- ===== src/Tuner/Persists.antt =====
-- What requests to the tuner keep, the calls of tuner.cpp keep: each of them is a chain of requests.
use seztuner.Prelude.{
  ◌-◌, ◌&&◌, ℕ, ◌+◌, ◌*◌, ◌/◌, ◌%◌, ◌||◌, not, leb, ltb, ◌==◌, length, get_or, bit_and, bit_or,
  if◌then◌else◌, List, [], ◌∷◌, Option, none, some, Bool, true, false,
}
use seztuner.Run.{Run, ok, fail, stuck, M, fail_if, Leaves, bind-Leaves, if-Leaves, fail_if-Leaves}
use seztuner.Socket.Bus.{Bus}
use seztuner.Socket.Registers.{
  request, byte_of, exchange, command, check_demod, get_demod8, set_demod8, get_demod_n, set_gpio,
  reset_demod,
}
use seztuner.Tuner.{
  Amp, off, number, is_nc, antenna_input, no_tvch, band, ch_freq, freq_of, Tuner, on_dev, then_fail,
  with_gpio, set_input, set_tvch, set_amp, reset_if, settle, program, tune, set_freq,
}
use seztuner.Tuner.Reception.{get_mse, get_locked_mse}

-- Requests come back and keep this, and so does waiting.
pub record Kept {D : Type 0} (bus : Bus D) (P : D → Type 0) : Type 0 where
  pub asked :
      (request : List ℕ) (room : ℕ) (d : D) → P d → Leaves P (bus.write_then_read request room d)
  pub slept : (microseconds : ℕ) (d : D) → P d → P (bus.usleep microseconds d)

if_call-Leaves :
    {S A : Type 0} (P : S → Type 0) (b : Bool) (m n : M S A) (s : S)
    → Leaves P (m s)
    → Leaves P (n s)
    → Leaves P ((if b then m else n) s)
if_call-Leaves P true m n s h k = h
if_call-Leaves P false m n s h k = k

then_fail-Leaves :
    {S A : Type 0} (B : Type 0) (P : S → Type 0) (r : Run S A)
    → Leaves P r
    → Leaves {A = B} P (then_fail r)
then_fail-Leaves B P (ok a s) h = h
then_fail-Leaves B P (fail s) h = h
then_fail-Leaves B P stuck h = h

Option-Leaves :
    {S A B : Type 0} (P : S → Type 0) (o : Option A) (x : Run S B) (f : A → Run S B)
    → Leaves P x
    → ((a : A) → Leaves P (f a))
    → Leaves P (elim o [ none ↦ x | some a ↦ f a ])
Option-Leaves P none x f h k = h
Option-Leaves P (some a) x f h k = k a

module _ {D : Type 0} (bus : Bus D) (P : D → Type 0) (kept : Kept bus P) where
  exchange-Leaves :
      (body : List ℕ) (room size : ℕ) (d : D) → P d → Leaves P (exchange bus body room size d)
  unfolding exchange
  exchange-Leaves body room size d h =
      bind-Leaves P (bus.write_then_read (request body) room d) _
        (kept.asked (request body) room d h)
        (λ rx e k.
          bind-Leaves P (fail_if (not (length rx == size)) e) _
            (fail_if-Leaves P (not (length rx == size)) e k) (λ _ f l. l))

  command-Leaves : (body : List ℕ) (d : D) → P d → Leaves P (command bus body d)
  unfolding command
  command-Leaves body d h =
      bind-Leaves P (exchange bus body 8 4 d) _ (exchange-Leaves body 8 4 d h) (λ _ e k. k)

  check_demod-Leaves : (ch addr : ℕ) (d : D) → P d → Leaves P (check_demod bus ch addr d)
  unfolding check_demod
  check_demod-Leaves ch addr d h = fail_if-Leaves P (leb 65536 addr || ltb 2 ch) d h

  get_demod8-Leaves : (ch addr : ℕ) (d : D) → P d → Leaves P (get_demod8 bus ch addr d)
  unfolding get_demod8
  get_demod8-Leaves ch addr d h =
      bind-Leaves P (check_demod bus ch addr d) _ (check_demod-Leaves ch addr d h) (λ _ e k.
        bind-Leaves P (exchange bus (ch ∷ 0xb3 ∷ 1 ∷ byte_of 1 addr ∷ byte_of 0 addr ∷ []) 1 5 e) _
          (exchange-Leaves (ch ∷ 0xb3 ∷ 1 ∷ byte_of 1 addr ∷ byte_of 0 addr ∷ []) 1 5 e k)
          (λ rx f l. l))

  get_demod_n-Leaves : (ch addr len : ℕ) (d : D) → P d → Leaves P (get_demod_n bus ch addr len d)
  unfolding get_demod_n
  get_demod_n-Leaves ch addr len d h =
      bind-Leaves P (check_demod bus ch addr d) _ (check_demod-Leaves ch addr d h) (λ _ e k.
        bind-Leaves P (fail_if (len == 0) e) _ (fail_if-Leaves P (len == 0) e k) (λ _ f l.
          bind-Leaves P
            (exchange bus (ch ∷ 0xb3 ∷ len ∷ byte_of 1 addr ∷ byte_of 0 addr ∷ []) 4 (4 + len) f) _
            (exchange-Leaves (ch ∷ 0xb3 ∷ len ∷ byte_of 1 addr ∷ byte_of 0 addr ∷ []) 4 (4 + len) f
              l)
            (λ rx g m. m)))

  set_demod8-Leaves : (ch addr val : ℕ) (d : D) → P d → Leaves P (set_demod8 bus ch addr val d)
  unfolding set_demod8
  set_demod8-Leaves ch addr val d h =
      bind-Leaves P (check_demod bus ch addr d) _ (check_demod-Leaves ch addr d h)
        (λ _ e k. command-Leaves (ch ∷ 0xb2 ∷ byte_of 1 addr ∷ byte_of 0 addr ∷ val ∷ []) e k)

  set_gpio-Leaves : (val : ℕ) (d : D) → P d → Leaves P (set_gpio bus val d)
  unfolding set_gpio
  set_gpio-Leaves val d h =
      bind-Leaves P (fail_if (leb 65536 val) d) _ (fail_if-Leaves P (leb 65536 val) d h)
        (λ _ e k. command-Leaves (0x0f ∷ 0xf2 ∷ 4 ∷ byte_of 1 val ∷ byte_of 0 val ∷ []) e k)

  reset_demod-Leaves : (ch reset_ms : ℕ) (d : D) → P d → Leaves P (reset_demod bus ch reset_ms d)
  unfolding reset_demod
  reset_demod-Leaves ch reset_ms d h =
      bind-Leaves P (fail_if (ltb 2 ch) d) _ (fail_if-Leaves P (ltb 2 ch) d h) (λ _ e k.
        bind-Leaves P (get_demod8 bus ch 2 e) _ (get_demod8-Leaves ch 2 e k) (λ b f l.
          bind-Leaves P (set_demod8 bus ch 2 (bit_and b 0xfe) f) _
            (set_demod8-Leaves ch 2 (bit_and b 0xfe) f l)
            (λ _ g m.
              set_demod8-Leaves ch 2 (bit_or (bit_and b 0xfe) 1) (bus.usleep (reset_ms * 1000) g)
                (kept.slept (reset_ms * 1000) g m))))

  get_locked_mse-Leaves : (ch : ℕ) (d : D) → P d → Leaves P (get_locked_mse bus ch d)
  unfolding get_locked_mse
  get_locked_mse-Leaves ch d h =
      bind-Leaves P (get_demod8 bus ch 3 d) _ (get_demod8-Leaves ch 3 d h) (λ lock e k.
        bind-Leaves P (get_demod_n bus ch 0x413 8 e) _ (get_demod_n-Leaves ch 0x413 8 e k)
          (λ msebuf f l. l))

  pub get_mse-Leaves : (ch : ℕ) (d : D) → P d → Leaves P (get_mse bus ch d)
  unfolding get_mse
  get_mse-Leaves ch d h =
      bind-Leaves P (get_demod8 bus ch 0x11d d) _ (get_demod8-Leaves ch 0x11d d h) (λ lock e k.
        if_call-Leaves P (bit_and lock 0x80 == 0) _ _ e k (get_locked_mse-Leaves ch e k))

  -- The same of a tuner's state.
  abbrev Of : Tuner D → Type 0
  Of s = P s.dev

  through :
      {A : Type 0} (r : Run D A) (s : Tuner D)
      → Leaves P r
      → Leaves Of (elim r [
        | ok a d ↦ ok a (record s { dev = d })
        | fail d ↦ fail (record s { dev = d })
        | stuck ↦ stuck
      ])
  through (ok a d) s h = h
  through (fail d) s h = h
  through stuck s h = h

  pub on_dev-Leaves :
      {A : Type 0} (m : M D A) (s : Tuner D) → Leaves P (m s.dev) → Leaves Of (on_dev m s)
  on_dev-Leaves m s h = through (m s.dev) s h

  set_amp-Leaves : (ch : ℕ) (state : Amp) (s : Tuner D) → Of s → Leaves Of (set_amp bus ch state s)
  unfolding set_amp with_gpio set_input
  set_amp-Leaves ch state s h =
      let u = with_gpio ch state s in
      if-Leaves Of (leb 2 ch) _ _ h (
        if-Leaves Of (number state == number (s.ch_state ch).i) _ _ h (
          bind-Leaves Of (on_dev (set_gpio bus u.cur_gpio) u) _
            (on_dev-Leaves (set_gpio bus u.cur_gpio) u (set_gpio-Leaves u.cur_gpio u.dev h))
            (λ _ t k. k)))

  reset_if-Leaves : (ch reset_ms : ℕ) (s : Tuner D) → Of s → Leaves Of (reset_if bus ch reset_ms s)
  unfolding reset_if
  reset_if-Leaves ch reset_ms s h =
      if-Leaves Of (reset_ms == 0) _ _ h
        (on_dev-Leaves (reset_demod bus ch reset_ms) s (reset_demod-Leaves ch reset_ms s.dev h))

  settle-Leaves :
      (ch tvch reset_ms rxlen : ℕ) (s : Tuner D)
      → Of s
      → Leaves Of (settle bus ch tvch reset_ms rxlen s)
  unfolding settle set_tvch
  settle-Leaves ch tvch reset_ms rxlen s h =
      if-Leaves Of (not (rxlen == 4)) _ _
        (then_fail-Leaves (Unit {0}) Of (set_amp bus ch off s) (set_amp-Leaves ch off s h))
        (bind-Leaves Of (reset_if bus ch reset_ms s) _ (reset_if-Leaves ch reset_ms s h)
          (λ _ t k. k))

  program-Leaves :
      (ch tvch freq bandswitch reset_ms : ℕ) (s : Tuner D)
      → Of s
      → Leaves Of (program bus ch tvch freq bandswitch reset_ms s)
  unfolding program
  program-Leaves ch tvch freq bandswitch reset_ms s h =
      let pll = freq * 16 + 704 in
      let body : List ℕ =
        ch ∷ 0xc2 ∷ bit_and (pll / 256) 0x7f ∷ (pll % 256) ∷ 0x86 ∷ bandswitch ∷ 0x50 ∷ [] in
      bind-Leaves Of (on_dev (bus.write_then_read (request body) 8) s) _
        (on_dev-Leaves (bus.write_then_read (request body) 8) s
          (kept.asked (request body) 8 s.dev h))
        (λ rx t k. settle-Leaves ch tvch reset_ms (length rx) t k)

  module _ (behind : ℕ → ℕ) where
    tune-Leaves :
        (ch tvch reset_ms : ℕ) (s : Tuner D) → Of s → Leaves Of (tune bus behind ch tvch reset_ms s)
    unfolding tune
    tune-Leaves ch tvch reset_ms s h = Option-Leaves Of (band (freq_of behind tvch)) _ _ h (λ b.
        bind-Leaves Of (set_amp bus ch (antenna_input s.active_ant b.1) s) _
          (set_amp-Leaves ch (antenna_input s.active_ant b.1) s h)
          (λ _ t k. program-Leaves ch tvch (freq_of behind tvch) b.0 reset_ms t k))

    pub set_freq-Leaves :
        (ch tvch reset_ms : ℕ) (s : Tuner D)
        → Of s
        → Leaves Of (set_freq bus behind ch tvch reset_ms s)
    unfolding set_freq
    set_freq-Leaves ch tvch reset_ms s h =
        if-Leaves Of (leb 2 ch || ((ltb tvch 2 || ltb 51 tvch) && not (tvch == no_tvch))) _ _ h (
          if-Leaves Of (is_nc s.active_ant) _ _ h (
            if-Leaves Of (tvch == no_tvch) _ _ (set_amp-Leaves ch off s h) (
              if-Leaves Of (get_or ch_freq (tvch - 2) 0 == 0) _ _ h
                (tune-Leaves ch tvch reset_ms s h))))
