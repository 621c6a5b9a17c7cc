-- ===== src/Socket/Stream/Exchange.antt =====
-- A whole exchange with the tuner: `socket::write_then_read` (socket.cpp).
use seztuner.Prelude.{
  ℕ, suc, ◌+◌, ◌-◌, ◌%◌, ◌^◌, ◌≤◌, ◌<◌, ◌≡◌, refl, sym, ◌∙◌, arith, List, [], ◌∷◌, ◌++◌, some, true,
  false, ltb, take, length,
}
use mathlib.Core.List.{append-nil}
use seztuner.Run.{ok}
use seztuner.Crc.{tuner_calc_crc}
use seztuner.Frame.Layout.{le32, header, frame, take-append}
use seztuner.Socket.Stream.{Kernel, Packet, write, read, await, check_response, write_then_read}
use seztuner.Socket.Stream.Progress.{Reliable, write-frame, read-frame}

-- When `pkt` was written in state `w` and the request `body` has gone out, the tuner answers with `reply`, within the time that is allowed:
-- pselect reports it, and neither it nor the clock nor malloc takes anything out of the connection.
pub record Answers {W : Type 0} (k : Kernel W) (sent inbox : W → List ℕ) (w : W)
    (pkt body reply : List ℕ) : Type 0 where
  pub peer :
      (v : W)
      → write k pkt 0x0c w ≡ ok tt v
      → sent v ≡ sent w ++ frame 0x0c body
      → inbox v ≡ frame 0x0d reply
  pub clock : (v : W) → inbox (k.gettimeofday v).1 ≡ inbox v
  pub in_time :
      (v : W)
      → ((k.gettimeofday (k.gettimeofday v).1).0 + 2 ^ 64 - (k.gettimeofday v).0) % 2 ^ 64 ≤ 400000
  pub wakes :
      (t : ℕ) (v : W) → ((k.pselect t v).0 ≡ some true) × (inbox (k.pselect t v).1 ≡ inbox v)
  pub memory : (n : ℕ) (v : W) → ((k.malloc n v).0 ≡ true) × (inbox (k.malloc n v).1 ≡ inbox v)

module _ {W : Type 0} (k : Kernel W) (sent inbox : W → List ℕ) where
  await_round :
      (fuel start : ℕ) (w : W)
      → (k.pselect
          (400000 - ((k.gettimeofday w).0 + 2 ^ 64 - start) % 2 ^ 64)
          (k.gettimeofday w).1).0
        ≡ some true
      → ltb 400000 (((k.gettimeofday w).0 + 2 ^ 64 - start) % 2 ^ 64) ≡ false
      → await k (suc fuel) start w
        ≡ ok tt
            (k.pselect
              (400000 - ((k.gettimeofday w).0 + 2 ^ 64 - start) % 2 ^ 64)
              (k.gettimeofday w).1).1
  unfolding await
  await_round fuel start w woken early = ground (arith, woken, early)

  pub await-ready :
      (fuel start : ℕ) (w : W)
      → ((k.gettimeofday w).0 + 2 ^ 64 - start) % 2 ^ 64 ≤ 400000
      → ((t : ℕ) (v : W) → ((k.pselect t v).0 ≡ some true) × (inbox (k.pselect t v).1 ≡ inbox v))
      → (v : W) × (await k (suc fuel) start w ≡ ok tt v) × (inbox v ≡ inbox (k.gettimeofday w).1)
  await-ready fuel start w h wakes =
      let now = (k.gettimeofday w).0 in
      let elapsed = (now + 2 ^ 64 - start) % 2 ^ 64 in
      let w1 = (k.gettimeofday w).1 in
      let (woken, kept) = wakes (400000 - elapsed) w1 in
      let early : ltb 400000 elapsed ≡ false = ground (arith, h) in
      ((k.pselect (400000 - elapsed) w1).1, await_round fuel start w woken early, kept)

  check_response-frame :
      (reply : List ℕ) (w : W)
      → check_response k (record { len = length reply + 4; buf = frame 0x0d reply }) w
        ≡ ok (header 0x0d reply) w
  unfolding check_response
  check_response-frame reply w =
      let room : ltb (length reply + 4) 4 ≡ false = ground arith in
      let front : take (length reply + 4) (frame 0x0d reply) ≡ header 0x0d reply =
        take-append (header 0x0d reply) (le32 (tuner_calc_crc (header 0x0d reply)))
          (length reply + 4) (omega arith) in
      rw (room, front) refl

  after_write :
      (fuel rxlen : ℕ) (pkt : List ℕ) (w v1 v2 v3 v4 v5 : W) (p : Packet) (rx : List ℕ)
      → write k pkt 0x0c w ≡ ok tt v1
      → v2 ≡ (k.gettimeofday v1).1
      → await k fuel (k.gettimeofday v1).0 v2 ≡ ok tt v3
      → (k.malloc (rxlen + 4) v3).0 ≡ true
      → v4 ≡ (k.malloc (rxlen + 4) v3).1
      → read k (rxlen + 4) v4 ≡ ok p v5
      → check_response k p v5 ≡ ok rx v5
      → write_then_read k fuel pkt rxlen w ≡ ok rx v5
  unfolding write_then_read
  after_write fuel rxlen pkt w v1 v2 v3 v4 v5 p rx a b c d e f g =
      ground (arith, a, b, c, d, e, f, g)

  -- On a working connection, when the tuner answers the request that went out with a packet of type
  -- 0x0d, in time, malloc succeeds, and *rxlen counts the answer's payload and the four bytes of its
  -- header at least, socket::write_then_read ends with success after one round of waiting and gives the
  -- answer with its header and without its checksum, and nothing of it is left to be read; request and
  -- answer have less than 65536 bytes of payload.
  pub write_then_read_answered :
      (fuel rxlen : ℕ) (body reply : List ℕ) (h0 h1 h2 h3 c0 c1 c2 c3 : ℕ) (w : W)
      → length body < 65536
      → length reply < 65536
      → length reply + 4 ≤ rxlen
      → Reliable k sent inbox
      → Answers k sent inbox w (h0 ∷ h1 ∷ h2 ∷ h3 ∷ (body ++ c0 ∷ c1 ∷ c2 ∷ c3 ∷ [])) body reply
      → (v : W) × (write_then_read k
            (suc fuel)
            (h0 ∷ h1 ∷ h2 ∷ h3 ∷ (body ++ c0 ∷ c1 ∷ c2 ∷ c3 ∷ []))
            rxlen
            w
          ≡ ok (header 0x0d reply) v)
        × (inbox v ≡ [])
  write_then_read_answered fuel rxlen body reply h0 h1 h2 h3 c0 c1 c2 c3 w short short' fits up
        ans =
      let pkt : List ℕ = h0 ∷ h1 ∷ h2 ∷ h3 ∷ (body ++ c0 ∷ c1 ∷ c2 ∷ c3 ∷ []) in
      let (v1, wrote, out) =
        write-frame k sent inbox up 0x0c body h0 h1 h2 h3 c0 c1 c2 c3 w short in
      let v2 = (k.gettimeofday v1).1 in
      let (v3, woke, kept) = await-ready fuel (k.gettimeofday v1).0 v2 (ans.in_time v1) ans.wakes in
      let (granted, kept') = ans.memory (rxlen + 4) v3 in
      let v4 = (k.malloc (rxlen + 4) v3).1 in
      let there : inbox v4 ≡ frame 0x0d reply ++ [] =
        kept'
        ∙ kept
        ∙ ans.clock v2
        ∙ ans.clock v1
        ∙ ans.peer v1 wrote out
        ∙ sym (append-nil (frame 0x0d reply)) in
      let (v5, got, left) =
        read-frame k sent inbox up 0x0d (rxlen + 4) reply [] v4 short' (omega (arith, fits))
          there in
      (
        v5,
        after_write (suc fuel) rxlen pkt w v1 v2 v3 v4 v5
            (record { len = length reply + 4; buf = frame 0x0d reply }) (header 0x0d reply) wrote
            refl woke granted refl got (check_response-frame reply v5),
        left,
      )
