-- ===== src/Tuner/Reception.antt =====
-- Signal strength and the stream's destination (tuner.cpp: `get_mse`, `start_ts`, `stop_ts`). None of them
-- changes the state of the tuner object.
pub mod Status
use seztuner.Prelude.{
  ℕ, ◌+◌, ◌-◌, ◌*◌, ◌/◌, ◌%◌, ◌^◌, bit_and, bit_or, bit_xor, List, [], ◌∷◌, Bool, not, ◌==◌,
  if◌then◌else◌, get_or, length,
}
use seztuner.Run.{Run, M, pure, bind, fail_if, ◌>>=◌, ◌>>◌}
use seztuner.Socket.Bus.{Bus}
use seztuner.Socket.Registers.{request, byte_of, command, get_demod8, get_demod_n}

-- `*status`, `*ptmse` and `*eqmse`.
pub record Strength : Type 0 where
  pub status : ℕ
  pub ptmse : ℕ
  pub eqmse : ℕ

-- `*status` from the general status register.
unfoldable pub status_of : ℕ → ℕ
status_of lock =
    bit_or
      (bit_or (bit_or (bit_or 1 (bit_xor (bit_and lock 8 / 4) 2)) (bit_and lock 4))
        (bit_and lock 1 * 8))
      (bit_and lock 2 * 8)

-- `buf[at] << 16 | buf[at + 1] << 8 | buf[at + 2]`, for bytes.
unfoldable pub be24 : List ℕ → ℕ → ℕ
be24 buf at = get_or buf at 0 * 2 ^ 16 + get_or buf (at + 1) 0 * 256 + get_or buf (at + 2) 0

module _ {D : Type 0} (bus : Bus D) where
  -- With the carrier recovery locked.
  unfoldable pub get_locked_mse : ℕ → M D Strength
  get_locked_mse ch = do
    lock ← get_demod8 bus ch 3
    msebuf ← get_demod_n bus ch 0x413 8
    pure (record { status = status_of lock; ptmse = be24 msebuf 4; eqmse = be24 msebuf 0 })

  unfoldable pub get_mse : ℕ → M D Strength
  get_mse ch = do
    lock ← get_demod8 bus ch 0x11d
    if bit_and lock 0x80 == 0
        then pure (record { status = 0; ptmse = 0xfffff; eqmse = 0xfffff })
        else get_locked_mse ch

  -- Receiver 1 is given its own output first.
  unfoldable pub set_output : ℕ → M D (Unit {0})
  set_output ch = if ch == 0 then pure tt else command bus (0x0f ∷ 0xf2 ∷ 6 ∷ ch ∷ ch ∷ [])

  -- `ip` is `ntohl(sock.get_myip())`.
  unfoldable pub start_ts : ℕ → ℕ → ℕ → M D (Unit {0})
  start_ts ip ch udp_port = do
    set_output ch
    command bus (
        0x0f
        ∷ 0xf2
        ∷ 3
        ∷ ch
        ∷ byte_of 3 ip
        ∷ byte_of 2 ip
        ∷ byte_of 1 ip
        ∷ byte_of 0 ip
        ∷ byte_of 1 udp_port
        ∷ byte_of 0 udp_port
        ∷ [])

  unfoldable pub stop_ts : ℕ → M D (Unit {0})
  stop_ts ch = command bus (0x0f ∷ 0xf2 ∷ 3 ∷ ch ∷ 0 ∷ 0 ∷ 0 ∷ 0 ∷ 0 ∷ 0 ∷ [])
