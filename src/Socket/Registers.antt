-- ===== src/Socket/Registers.antt =====
-- GPIO and demodulator registers (socket.cpp): each access is one request to the tuner and a check of the
-- answer's length. `addr & ~0xffff` is `65536 ≤ addr` for a `u32`; an answer counts its four bytes of
-- header.
pub mod Values
use seztuner.Prelude.{
  ℕ, ◌+◌, ◌-◌, ◌*◌, ◌/◌, ◌%◌, ◌^◌, List, [], ◌∷◌, ◌++◌, Bool, ◌||◌, not, ltb, leb, ◌==◌,
  if◌then◌else◌, get_or, take, drop, length, bit_and, bit_or,
}
use seztuner.Run.{Run, ok, fail, stuck, M, pure, error, bind, fail_if, ◌>>=◌, ◌>>◌}
use seztuner.Socket.Bus.{Bus}

-- A request with room for the header and the checksum.
abbrev pub request : List ℕ → List ℕ
request body = 0 ∷ 0 ∷ 0 ∷ 0 ∷ (body ++ 0 ∷ 0 ∷ 0 ∷ 0 ∷ [])

-- `(u8) (v >> 8 * i)`
abbrev pub byte_of : ℕ → ℕ → ℕ
byte_of i v = v / 256 ^ i % 256

module _ {D : Type 0} (bus : Bus D) where
  open bus use {write_then_read, usleep}

  -- Send a request, and insist on an answer of `size` bytes.
  unfoldable pub exchange : List ℕ → ℕ → ℕ → M D (List ℕ)
  exchange body room size = do
    rx ← write_then_read (request body) room
    fail_if (not (length rx == size))
    pure rx

  -- A request whose answer carries nothing.
  unfoldable pub command : List ℕ → M D (Unit {0})
  command body = do rx ← exchange body 8 4; pure tt

  -- The test that opens each access to a demodulator.
  unfoldable pub check_demod : ℕ → ℕ → M D (Unit {0})
  check_demod ch addr = fail_if (leb 65536 addr || ltb 2 ch)

  unfoldable pub get_gpio : M D ℕ
  get_gpio = do
    rx ← exchange (0x0f ∷ 0xf3 ∷ 2 ∷ 4 ∷ []) 2 (2 + 4)
    pure (get_or rx 4 0 * 256 + get_or rx 5 0)

  unfoldable pub set_gpio : ℕ → M D (Unit {0})
  set_gpio val = do
    fail_if (leb 65536 val)
    command (0x0f ∷ 0xf2 ∷ 4 ∷ byte_of 1 val ∷ byte_of 0 val ∷ [])

  unfoldable pub get_demod8 : ℕ → ℕ → M D ℕ
  get_demod8 ch addr = do
    check_demod ch addr
    rx ← exchange (ch ∷ 0xb3 ∷ 1 ∷ byte_of 1 addr ∷ byte_of 0 addr ∷ []) 1 (1 + 4)
    pure (get_or rx 4 0)

  unfoldable pub set_demod8 : ℕ → ℕ → ℕ → M D (Unit {0})
  set_demod8 ch addr val = do
    check_demod ch addr
    command (ch ∷ 0xb2 ∷ byte_of 1 addr ∷ byte_of 0 addr ∷ val ∷ [])

  unfoldable pub get_demod16 : ℕ → ℕ → M D ℕ
  get_demod16 ch addr = do
    check_demod ch addr
    rx ← exchange (ch ∷ 0xb3 ∷ 2 ∷ byte_of 1 addr ∷ byte_of 0 addr ∷ []) 2 (2 + 4)
    pure (get_or rx 4 0 * 256 + get_or rx 5 0)

  unfoldable pub set_demod16 : ℕ → ℕ → ℕ → M D (Unit {0})
  set_demod16 ch addr val = do
    check_demod ch addr
    fail_if (leb 65536 val)
    command (ch ∷ 0xb2 ∷ byte_of 1 addr ∷ byte_of 0 addr ∷ byte_of 1 val ∷ byte_of 0 val ∷ [])

  unfoldable pub get_demod24 : ℕ → ℕ → M D ℕ
  get_demod24 ch addr = do
    check_demod ch addr
    rx ← exchange (ch ∷ 0xb3 ∷ 3 ∷ byte_of 1 addr ∷ byte_of 0 addr ∷ []) 3 (3 + 4)
    pure (get_or rx 4 0 * 2 ^ 16 + get_or rx 5 0 * 256 + get_or rx 6 0)

  unfoldable pub set_demod24 : ℕ → ℕ → ℕ → M D (Unit {0})
  set_demod24 ch addr val = do
    check_demod ch addr
    fail_if (leb (2 ^ 24) val)
    command (
        ch
        ∷ 0xb2
        ∷ byte_of 1 addr
        ∷ byte_of 0 addr
        ∷ byte_of 2 val
        ∷ byte_of 1 val
        ∷ byte_of 0 val
        ∷ [])

  unfoldable pub get_demod32 : ℕ → ℕ → M D ℕ
  get_demod32 ch addr = do
    check_demod ch addr
    rx ← exchange (ch ∷ 0xb3 ∷ 4 ∷ byte_of 1 addr ∷ byte_of 0 addr ∷ []) 4 (4 + 4)
    pure (get_or rx 4 0 * 2 ^ 24 + get_or rx 5 0 * 2 ^ 16 + get_or rx 6 0 * 256 + get_or rx 7 0)

  unfoldable pub set_demod32 : ℕ → ℕ → ℕ → M D (Unit {0})
  set_demod32 ch addr val = do
    check_demod ch addr
    command (
        ch
        ∷ 0xb2
        ∷ byte_of 1 addr
        ∷ byte_of 0 addr
        ∷ byte_of 3 val
        ∷ byte_of 2 val
        ∷ byte_of 1 val
        ∷ byte_of 0 val
        ∷ [])

  -- The room it asks for is 4, whatever `len` is.
  unfoldable pub get_demod_n : ℕ → ℕ → ℕ → M D (List ℕ)
  get_demod_n ch addr len = do
    check_demod ch addr
    fail_if (len == 0)
    rx ← exchange (ch ∷ 0xb3 ∷ len ∷ byte_of 1 addr ∷ byte_of 0 addr ∷ []) 4 (4 + len)
    pure (take len (drop 4 rx))

  unfoldable pub set_demod_n : ℕ → ℕ → List ℕ → M D (Unit {0})
  set_demod_n ch addr arr = do
    check_demod ch addr
    fail_if (length arr == 0)
    command (ch ∷ 0xb2 ∷ byte_of 1 addr ∷ byte_of 0 addr ∷ arr)

  -- Bit 0 of register 2 off, a pause, and on again.
  unfoldable pub reset_demod : ℕ → ℕ → M D (Unit {0})
  reset_demod ch reset_ms = do
    fail_if (ltb 2 ch)
    b ← get_demod8 ch 2
    set_demod8 ch 2 (bit_and b 0xfe)
    (λ d. ok tt (usleep (reset_ms * 1000) d))
    set_demod8 ch 2 (bit_or (bit_and b 0xfe) 1)
