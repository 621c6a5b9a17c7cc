-- ===== src/Tuner/Scan/Ending.antt =====
-- Calls that come back: the register accesses (socket.cpp).
use seztuner.Prelude.{
  ℕ, ◌*◌, ◌||◌, not, leb, ltb, ◌==◌, length, get_or, bit_and, bit_or, ◌≢◌, refl, arith, List, [],
  ◌∷◌, Bool, true, false,
}
use seztuner.Run.{Run, ok, fail, stuck, M, bind, fail_if}
use seztuner.Socket.Bus.{Bus}
use seztuner.Socket.Registers.{
  request, byte_of, exchange, command, check_demod, get_demod8, set_demod8, set_gpio, reset_demod,
}
use seztuner.Tuner.{Tuner, on_dev}

-- The calls of the connection come back.
pub record Answers {D : Type 0} (bus : Bus D) : Type 0 where
  pub back : (request : List ℕ) (room : ℕ) (d : D) → bus.write_then_read request room d ≢ stuck

abbrev pub Ends : {S A : Type 0} → Run S A → Type 0
Ends r = r ≢ stuck

pub bind-Ends :
    {S A B : Type 0} (r : Run S A) (f : A → M S B)
    → Ends r
    → ((a : A) (s : S) → Ends (f a s))
    → Ends (bind r f)
bind-Ends (ok a s) f h k = k a s
bind-Ends (fail s) f h k = λ e. absurd (ground (arith, e))
bind-Ends stuck f h k = λ e. absurd (h refl)

pub on_dev-Ends : {D A : Type 0} (m : M D A) (s : Tuner D) → Ends (m s.dev) → Ends (on_dev m s)
on_dev-Ends m s h e = ground (arith, e, h)

pub ok-Ends : {S A : Type 0} (a : A) (s : S) → Ends (ok a s)
ok-Ends a s e = ground (arith, e)

pub fail-Ends : {S : Type 0} (A : Type 0) (s : S) → Ends {S = S} {A = A} (fail s)
fail-Ends A s e = ground (arith, e)

fail_if-Ends : {S : Type 0} (b : Bool) (s : S) → Ends (fail_if b s)
fail_if-Ends true s e = ground (arith, e)
fail_if-Ends false s e = ground (arith, e)

module _ {D : Type 0} (bus : Bus D) (live : Answers bus) where
  exchange-Ends : (body : List ℕ) (room size : ℕ) (d : D) → Ends (exchange bus body room size d)
  unfolding exchange
  exchange-Ends body room size d =
      bind-Ends (bus.write_then_read (request body) room d) _ (live.back (request body) room d)
        (λ rx e.
          bind-Ends (fail_if (not (length rx == size)) e) _
            (fail_if-Ends (not (length rx == size)) e) (λ _ f. ok-Ends rx f))

  command-Ends : (body : List ℕ) (d : D) → Ends (command bus body d)
  unfolding command
  command-Ends body d =
      bind-Ends (exchange bus body 8 4 d) _ (exchange-Ends body 8 4 d) (λ _ e. ok-Ends tt e)

  check_demod-Ends : (ch addr : ℕ) (d : D) → Ends (check_demod bus ch addr d)
  unfolding check_demod
  check_demod-Ends ch addr d = fail_if-Ends (leb 65536 addr || ltb 2 ch) d

  pub get_demod8-Ends : (ch addr : ℕ) (d : D) → Ends (get_demod8 bus ch addr d)
  unfolding get_demod8
  get_demod8-Ends ch addr d =
      bind-Ends (check_demod bus ch addr d) _ (check_demod-Ends ch addr d) (λ _ e.
        bind-Ends (exchange bus (ch ∷ 0xb3 ∷ 1 ∷ byte_of 1 addr ∷ byte_of 0 addr ∷ []) 1 5 e) _
          (exchange-Ends (ch ∷ 0xb3 ∷ 1 ∷ byte_of 1 addr ∷ byte_of 0 addr ∷ []) 1 5 e)
          (λ rx f. ok-Ends (get_or rx 4 0) f))

  pub set_demod8-Ends : (ch addr val : ℕ) (d : D) → Ends (set_demod8 bus ch addr val d)
  unfolding set_demod8
  set_demod8-Ends ch addr val d =
      bind-Ends (check_demod bus ch addr d) _ (check_demod-Ends ch addr d)
        (λ _ e. command-Ends (ch ∷ 0xb2 ∷ byte_of 1 addr ∷ byte_of 0 addr ∷ val ∷ []) e)

  pub set_gpio-Ends : (val : ℕ) (d : D) → Ends (set_gpio bus val d)
  unfolding set_gpio
  set_gpio-Ends val d =
      bind-Ends (fail_if (leb 65536 val) d) _ (fail_if-Ends (leb 65536 val) d)
        (λ _ e. command-Ends (0x0f ∷ 0xf2 ∷ 4 ∷ byte_of 1 val ∷ byte_of 0 val ∷ []) e)

  pub reset_demod-Ends : (ch reset_ms : ℕ) (d : D) → Ends (reset_demod bus ch reset_ms d)
  unfolding reset_demod
  reset_demod-Ends ch reset_ms d =
      bind-Ends (fail_if (ltb 2 ch) d) _ (fail_if-Ends (ltb 2 ch) d) (λ _ e.
        bind-Ends (get_demod8 bus ch 2 e) _ (get_demod8-Ends ch 2 e) (λ b f.
          bind-Ends (set_demod8 bus ch 2 (bit_and b 0xfe) f) _
            (set_demod8-Ends ch 2 (bit_and b 0xfe) f)
            (λ _ g.
              set_demod8-Ends ch 2 (bit_or (bit_and b 0xfe) 1) (bus.usleep (reset_ms * 1000) g))))
