-- ===== src/Socket/Registers/Values.antt =====
-- Values on their way through a register of several bytes (socket.cpp, `set_demod*` and `get_demod*`).
use seztuner.Prelude.{
  ℕ, ◌+◌, ◌*◌, ◌/◌, ◌%◌, ◌^◌, ◌≤◌, ◌<◌, ◌≡◌, arith, List, [], ◌∷◌, ◌||◌, ltb, leb, length, false,
  ap,
}
use seztuner.Run.{ok, bind}
use seztuner.Socket.Bus.{Bus}
use seztuner.Socket.Registers.{
  request, byte_of, exchange, command, check_demod, set_demod32, get_demod32,
}

-- The device keeps what is written: the write of `v` to this address is acknowledged with a bare header, and a
-- read of as many bytes is answered with a header and `v`.
pub record Keeps {D : Type 0} (bus : Bus D) (ch addr : ℕ) (v : List ℕ) (d0 d1 d2 : D) : Type 0 where
  pub a0 : ℕ
  pub a1 : ℕ
  pub a2 : ℕ
  pub a3 : ℕ
  pub acknowledged :
      bus.write_then_read (request (ch ∷ 0xb2 ∷ byte_of 1 addr ∷ byte_of 0 addr ∷ v)) 8 d0
      ≡ ok (a0 ∷ a1 ∷ a2 ∷ a3 ∷ []) d1
  pub answered :
      bus.write_then_read
        (request (ch ∷ 0xb3 ∷ length v ∷ byte_of 1 addr ∷ byte_of 0 addr ∷ []))
        (length v)
        d1
      ≡ ok (a0 ∷ a1 ∷ a2 ∷ a3 ∷ v) d2

module _ {D : Type 0} (bus : Bus D) where
  pub get_demod32-set_demod32 :
      (ch addr val : ℕ) (d0 d1 d2 : D)
      → ch ≤ 2
      → addr < 65536
      → val < 2 ^ 32
      → Keeps bus ch addr
          (byte_of 3 val ∷ byte_of 2 val ∷ byte_of 1 val ∷ byte_of 0 val ∷ [])
          d0
          d1
          d2
      → bind (set_demod32 bus ch addr val d0) (λ _. get_demod32 bus ch addr) ≡ ok val d2
  unfolding set_demod32 get_demod32 check_demod command exchange
  get_demod32-set_demod32 ch addr val d0 d1 d2 hc ha hv k =
      let guard : (leb 65536 addr || ltb 2 ch) ≡ false = ground arith in
      let whole : val / 256 ^ 3 % 256 * 2 ^ 24
            + val / 256 ^ 2 % 256 * 2 ^ 16
            + val / 256 ^ 1 % 256 * 256
            + val / 256 ^ 0 % 256
          ≡ val =
        omega arith in
      rw (guard, k.acknowledged, k.answered) (ap (λ v. ok v d2) whole)
