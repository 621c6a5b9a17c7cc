-- ===== src/Socket/Stream.antt =====
-- `socket::write`, `socket::read` and `socket::write_then_read` (socket.cpp) over the system calls of an
-- open connection. Loops take fuel. A block of memory is its size; a store beyond it is undefined, and the
-- run is `stuck` there.
pub mod Progress
pub mod Exchange
pub mod Overrun
use seztuner.Prelude.{
  ℕ, zero, suc, ◌+◌, ◌-◌, ◌*◌, ◌%◌, ◌^◌, List, [], ◌∷◌, ◌++◌, Option, none, some, Bool, true, false,
  ◌||◌, not, ltb, ◌==◌, if◌then◌else◌, get_or, take, drop, length, min,
}
use seztuner.Run.{Run, ok, fail, stuck, M, pure, error, bind, fail_if, ◌>>=◌, ◌>>◌}
use seztuner.Crc.{tuner_calc_crc}
use seztuner.Frame.{pkt_add_crc, crc_matches}
use seztuner.Socket.Bus.{Bus}

-- The calls of the system, in a world `W`. `none` is a negative result; `sys_read n` may return fewer
-- bytes, and none of them at the end of the stream. Times are in microseconds.
pub record Kernel (W : Type 0) : Type 0 where
  pub sys_write : List ℕ → W → Option ℕ × W
  pub sys_read : ℕ → W → Option (List ℕ) × W
  pub fionread : W → Option ℕ × W
  pub pselect : ℕ → W → Option Bool × W
  pub gettimeofday : W → ℕ × W
  pub malloc : ℕ → W → Bool × W
  pub usleep : ℕ → W → W

-- A packet in the buffer: `*pktlen`, and every byte that was stored.
pub record Packet : Type 0 where
  pub len : ℕ
  pub buf : List ℕ

-- A system call whose negative result is `return 1`.
abbrev pub call : {W A : Type 0} → (W → Option A × W) → M W A
call f w = elim (f w).0 [ none ↦ fail (f w).1 | some a ↦ ok a (f w).1 ]

abbrev pub ask : {W A : Type 0} → (W → A × W) → M W A
ask f w = ok (f w).0 (f w).1

module _ {W : Type 0} (k : Kernel W) where
  open k use {sys_write, sys_read, fionread, pselect, gettimeofday, malloc}

  -- `while (pktlen) { r = ::write(...); pkt += r; pktlen -= r; }`
  unfoldable pub write_loop : ℕ → List ℕ → M W (Unit {0})
  write_loop fuel [] w = ok tt w
  write_loop zero (b ∷ bs) w = stuck
  write_loop (suc fuel) (b ∷ bs) w =
      bind (call (sys_write (b ∷ bs)) w) (λ r. write_loop fuel (drop r (b ∷ bs)))

  unfoldable pub write : List ℕ → ℕ → M W (Unit {0})
  write pkt pkt_type = write_loop (length pkt) (pkt_add_crc pkt (length pkt) pkt_type)

  -- `while (n) { r = ::read(sock, buf, n); buf += r; n -= r; }`, with what `buf` has passed so far. From `buf`
  -- on the caller's block has `room` bytes, and the system stores there what was read.
  unfoldable pub read_loop : ℕ → ℕ → List ℕ → ℕ → M W (List ℕ)
  read_loop fuel zero got room w = ok got w
  read_loop zero (suc n) got room w = stuck
  read_loop (suc fuel) (suc n) got room w = bind (call (sys_read (suc n)) w) λ chunk v.
      elim (ltb room (length chunk)) [
        | true ↦ stuck
        | false ↦ read_loop fuel (suc n - length chunk) (got ++ chunk) (room - length chunk) v
      ]

  -- The second half of `socket::read`, with the four bytes of the header in hand, and `room` bytes behind
  -- them. `n` counts the header and the payload; the checksum is read too.
  unfoldable pub read_body : ℕ → List ℕ → M W Packet
  read_body room head =
      let n = get_or head 2 0 * 256 + get_or head 3 0 + 4 in
      do
        body ← read_loop n n [] room
        let buf = head ++ body
        fail_if (not (crc_matches buf n (tuner_calc_crc (take n buf))))
        pure (record { len = n; buf = buf })

  -- The caller's block has `pktlen` bytes.
  unfoldable pub read : ℕ → M W Packet
  read pktlen = do
    nread ← call fionread
    if ltb (min nread pktlen) 4
        then pure (record { len = 0; buf = [] })
        else (do head ← read_loop 4 4 [] pktlen; read_body (pktlen - 4) head)

  -- The waiting loop of `write_then_read`: 400 ms in all, in unsigned 64-bit arithmetic.
  unfoldable pub await : ℕ → ℕ → M W (Unit {0})
  await zero start w = stuck
  await (suc fuel) start w = bind (ask gettimeofday w) λ now w1.
      let elapsed = (now + 2 ^ 64 - start) % 2 ^ 64 in
      let again =
        bind (call (pselect (400000 - elapsed)) w1)
          (λ ready w2. elim ready [ true ↦ ok tt w2 | false ↦ await fuel start w2 ]) in
      if ltb 400000 elapsed then fail w1 else again

  -- The answer must be of type 0x000d; its checksum is cut off.
  unfoldable pub check_response : Packet → M W (List ℕ)
  check_response p = do
    fail_if (ltb p.len 4)
    fail_if (not (get_or p.buf 0 0 == 0) || not (get_or p.buf 1 0 == 0x0d))
    pure (take p.len p.buf)

  unfoldable pub write_then_read : ℕ → List ℕ → ℕ → M W (List ℕ)
  write_then_read fuel pkt rxlen = do
    write pkt 0x0c
    start ← ask gettimeofday
    await fuel start
    granted ← ask (malloc (rxlen + 4))
    fail_if (not granted)
    p ← read (rxlen + 4)
    check_response p

  -- The connection as the other components see it.
  unfoldable pub bus : ℕ → Bus W
  bus fuel = record { write_then_read = write_then_read fuel; usleep = k.usleep }
