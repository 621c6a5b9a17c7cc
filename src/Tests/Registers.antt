-- ===== src/Tests/Registers.antt =====
-- A register that keeps its bytes (socket.cpp, `set_demod32` and `get_demod32`).
use seztuner.Prelude.{
  ℕ, ◌-◌, ◌≡◌, refl, arith, List, [], ◌∷◌, ◌==◌, if◌then◌else◌, get_or, take, drop, length,
}
use seztuner.Run.{ok, fail, bind}
use seztuner.Socket.Bus.{Bus}
use seztuner.Socket.Registers.{
  byte_of, exchange, command, check_demod, get_gpio, get_demod8, set_demod8, get_demod32,
  set_demod32, reset_demod,
}
use seztuner.Socket.Registers.Values.{Keeps, get_demod32-set_demod32}

-- One register. A write is told by its second byte, and answered with a bare header.
abbrev register : Bus (List ℕ)
register = record {
  write_then_read = λ request room kept.
      if get_or request 5 0 == 0xb2
      then ok (0 ∷ 0x0d ∷ 0 ∷ 0 ∷ []) (take (length request - 12) (drop 8 request))
      else ok (0 ∷ 0x0d ∷ 0 ∷ 0 ∷ kept) kept;
  usleep = λ microseconds kept. kept;
}

abbrev value : List ℕ
value =
    byte_of 3 0x12345678 ∷ byte_of 2 0x12345678 ∷ byte_of 1 0x12345678 ∷ byte_of 0 0x12345678 ∷ []

keeps : Keeps register 1 0x106 value [] value value
keeps = record { a0 = 0; a1 = 0x0d; a2 = 0; a3 = 0; acknowledged = refl; answered = refl }

get_demod32-set_demod32_example :
    bind (set_demod32 register 1 0x106 0x12345678 []) (λ _. get_demod32 register 1 0x106)
    ≡ ok 0x12345678 value
get_demod32-set_demod32_example =
    get_demod32-set_demod32 register 1 0x106 0x12345678 [] value value (omega arith) (omega arith)
      (omega arith) keeps

-- A read-modify-write of the same register, and a gpio word of two bytes.
reset_demod_run : reset_demod register 1 20 (0x0f ∷ []) ≡ ok tt (0x0f ∷ [])
unfolding reset_demod get_demod8 set_demod8 check_demod command exchange
reset_demod_run = refl

get_gpio_refused : get_gpio register (1 ∷ 2 ∷ 3 ∷ []) ≡ fail (1 ∷ 2 ∷ 3 ∷ [])
unfolding get_gpio exchange
get_gpio_refused = refl
