-- ===== src/Socket/Bus.antt =====
-- What the register accesses and the tuner need of the connection: `socket::write_then_read`, which sends
-- a request and returns the `*rxlen` bytes of the answer, and `usleep`. `D` is the world outside.
use seztuner.Prelude.{ℕ, List}
use seztuner.Run.{M}

pub record Bus (D : Type 0) : Type 0 where
  pub write_then_read : List ℕ → ℕ → M D (List ℕ)
  pub usleep : ℕ → D → D
