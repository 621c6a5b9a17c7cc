-- ===== src/Socket/Link.antt =====
-- `socket::open` and `socket::close` (socket.cpp).
use seztuner.Prelude.{ℕ, Option, none, some, Bool, if◌then◌else◌}
use seztuner.Run.{ok, fail, M}

-- The system's calls: a new TCP socket unless that fails, whether it connects to the tuner, and its end.
pub record Dial (W : Type 0) : Type 0 where
  pub socket : W → Option ℕ × W
  pub connect : ℕ → W → Bool × W
  pub close_fd : ℕ → W → W

-- `sock` is `none` for -1.
pub record Line (W : Type 0) : Type 0 where
  pub world : W
  pub sock : Option ℕ

module _ {W : Type 0} (dial : Dial W) where
  open dial use {connect, close_fd}

  unfoldable pub connect_to : ℕ → M (Line W) (Unit {0})
  connect_to fd s =
      if (connect fd s.world).0
      then ok tt (record { world = (connect fd s.world).1; sock = some fd })
      else fail (record { world = close_fd fd (connect fd s.world).1; sock = none })

  unfoldable pub open_socket : M (Line W) (Unit {0})
  open_socket s = elim (dial.socket s.world).0 [
    | none ↦ fail (record { world = (dial.socket s.world).1; sock = none })
    | some fd ↦ connect_to fd (record s { world = (dial.socket s.world).1 })
  ]

  unfoldable pub close_socket : Line W → Line W
  close_socket s = elim s.sock [
    | none ↦ s
    | some fd ↦ record { world = close_fd fd s.world; sock = none }
  ]
