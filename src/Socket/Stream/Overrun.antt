-- ===== src/Socket/Stream/Overrun.antt =====
-- Answers for which the block of `socket::write_then_read` (socket.cpp) is too small.
use seztuner.Prelude.{
  ℕ, zero, suc, ◌+◌, ◌-◌, ◌*◌, ◌/◌, ◌%◌, ◌≤◌, ◌<◌, ◌≡◌, refl, sym, ap, ◌∙◌, arith, List, [], ◌∷◌,
  ◌++◌, true, ltb, Bool-cases, inl, inr, drop, length, length-append, some,
}
use mathlib.Core.List.{append-nil}
use seztuner.Run.{ok, stuck, bind}
use seztuner.Crc.{tuner_calc_crc}
use seztuner.Frame.Layout.{le32, header, frame}
use seztuner.Socket.Stream.{Kernel, write, read_loop, read_body, read, await, write_then_read}
use seztuner.Socket.Stream.Progress.{
  Reliable, cut_again, read_round, read_loop_reads, read_whole, write-frame,
}
use seztuner.Socket.Stream.Exchange.{Answers, await-ready}

module _ {W : Type 0} (k : Kernel W) (sent inbox : W → List ℕ) (up : Reliable k sent inbox) where
  -- More bytes came than the block can take.
  read_round_overruns :
      (fuel n room : ℕ) (got chunk : List ℕ) (w : W)
      → (k.sys_read (suc n) w).0 ≡ some chunk
      → room < length chunk
      → read_loop k (suc fuel) (suc n) got room w ≡ stuck
  unfolding read_loop
  read_round_overruns fuel n room got chunk w e over =
      let beyond : ltb room (length chunk) ≡ true = ground (arith, over) in
      ground (arith, e, beyond)

  -- However the bytes are cut into pieces.
  read_loop_overruns :
      (fuel n room : ℕ) (got wanted rest : List ℕ) (w : W)
      → length wanted ≡ n
      → n ≤ fuel
      → room < n
      → inbox w ≡ wanted ++ rest
      → read_loop k fuel n got room w ≡ stuck
  unfolding read_loop
  read_loop_overruns fuel zero room got wanted rest w size h over e = absurd (omega (arith, over))
  read_loop_overruns zero (suc n) room got wanted rest w size h over e = absurd (omega (arith, h))
  read_loop_overruns (suc fuel) (suc n) room got wanted rest w size h over e =
      let there : n < length (inbox w) =
        omega (arith, size, ap length e, length-append wanted rest) in
      let (b, chunk, l, r, moved) = up.reads n w there in
      let left = drop (suc (length chunk)) wanted in
      let (whole, behind) =
        cut_again (b ∷ chunk) (inbox (k.sys_read (suc n) w).1) wanted rest (sym moved ∙ e)
          (omega (arith, l, size)) in
      elim (Bool-cases (ltb room (suc (length chunk)))) [
        | inr c ↦
            let fits : suc (length chunk) ≤ room = ground (arith, c) in
            read_round k sent inbox up fuel n room got (b ∷ chunk) w r fits
            ∙ read_loop_overruns fuel (suc n - suc (length chunk)) (room - suc (length chunk))
                (got ++ b ∷ chunk) left rest (k.sys_read (suc n) w).1
                (omega (arith, size, ap length whole, length-append (b ∷ chunk) left))
                (omega (arith, h)) (omega (arith, over, fits)) behind
        | inl c ↦
            let beyond : room < suc (length chunk) = ground (arith, c) in
            read_round_overruns fuel n room got (b ∷ chunk) w r beyond
      ]

  read_body_overruns :
      (pkt_type room : ℕ) (payload rest : List ℕ) (w : W)
      → length payload < 65536
      → room < length payload + 4
      → inbox w ≡ payload ++ le32 (tuner_calc_crc (header pkt_type payload)) ++ rest
      → read_body k room
          (0 ∷ pkt_type ∷ (length payload / 256 % 256) ∷ (length payload % 256) ∷ [])
          w
        ≡ stuck
  unfolding read_body
  read_body_overruns pkt_type room payload rest w h over e =
      let tail = le32 (tuner_calc_crc (header pkt_type payload)) in
      let n = length payload / 256 % 256 * 256 + length payload % 256 + 4 in
      let size : n ≡ length payload + 4 = omega (arith, h) in
      let out =
        read_loop_overruns n n room [] (payload ++ tail) rest w
          (omega (arith, size, length-append payload tail)) (omega arith)
          (omega (arith, size, over)) e in
      rw out refl

  -- A whole packet is there, and the caller's block has room for a header only, or more, but not for all of
  -- it.
  read_overruns :
      (pkt_type pktlen : ℕ) (payload rest : List ℕ) (w : W)
      → length payload < 65536
      → 4 ≤ pktlen
      → pktlen < length payload + 8
      → inbox w ≡ frame pkt_type payload ++ rest
      → read k pktlen w ≡ stuck
  read_overruns pkt_type pktlen payload rest w h room over e =
      let tail = le32 (tuner_calc_crc (header pkt_type payload)) in
      let first : List ℕ =
        0 ∷ pkt_type ∷ (length payload / 256 % 256) ∷ (length payload % 256) ∷ [] in
      let (count, same) = up.counts w in
      let (v1, run1, t1) =
        read_loop_reads k sent inbox up 4 4 pktlen [] first (payload ++ tail ++ rest)
          (k.fionread w).1 refl (omega arith) room (same ∙ e) in
      read_whole k sent inbox up pktlen (length (inbox w)) w count (omega (arith, ap length e)) room
      ∙ ap (λ r. bind r (λ head. read_body k (pktlen - 4) head)) run1
      ∙ read_body_overruns pkt_type (pktlen - 4) payload rest v1 h (omega (arith, room, over)) t1

module _ {W : Type 0} (k : Kernel W) (sent inbox : W → List ℕ) where
  after_write :
      (fuel rxlen : ℕ) (pkt : List ℕ) (w v1 v2 v3 v4 : W)
      → write k pkt 0x0c w ≡ ok tt v1
      → v2 ≡ (k.gettimeofday v1).1
      → await k fuel (k.gettimeofday v1).0 v2 ≡ ok tt v3
      → (k.malloc (rxlen + 4) v3).0 ≡ true
      → v4 ≡ (k.malloc (rxlen + 4) v3).1
      → read k (rxlen + 4) v4 ≡ stuck
      → write_then_read k fuel pkt rxlen w ≡ stuck
  unfolding write_then_read
  after_write fuel rxlen pkt w v1 v2 v3 v4 a b c d e f = ground (arith, a, b, c, d, e, f)

  -- On a working connection, when the tuner answers the request that went out in time and malloc
  -- succeeds, but *rxlen is less than the answer's payload and the four bytes of its header, as get_gpio
  -- has it, socket::write_then_read is undefined: bytes of the answer are stored behind the end of its
  -- block, however the connection cuts the answer into pieces; request and answer have less than 65536
  -- bytes of payload.
  pub write_then_read_overruns :
      (fuel rxlen : ℕ) (body reply : List ℕ) (h0 h1 h2 h3 c0 c1 c2 c3 : ℕ) (w : W)
      → length body < 65536
      → length reply < 65536
      → rxlen < length reply + 4
      → Reliable k sent inbox
      → Answers k sent inbox w (h0 ∷ h1 ∷ h2 ∷ h3 ∷ (body ++ c0 ∷ c1 ∷ c2 ∷ c3 ∷ [])) body reply
      → write_then_read k (suc fuel) (h0 ∷ h1 ∷ h2 ∷ h3 ∷ (body ++ c0 ∷ c1 ∷ c2 ∷ c3 ∷ [])) rxlen w
        ≡ stuck
  write_then_read_overruns fuel rxlen body reply h0 h1 h2 h3 c0 c1 c2 c3 w short short' over up
        ans =
      let pkt : List ℕ = h0 ∷ h1 ∷ h2 ∷ h3 ∷ (body ++ c0 ∷ c1 ∷ c2 ∷ c3 ∷ []) in
      let (v1, wrote, out) =
        write-frame k sent inbox up 0x0c body h0 h1 h2 h3 c0 c1 c2 c3 w short in
      let v2 = (k.gettimeofday v1).1 in
      let (v3, woke, kept) =
        await-ready k sent inbox fuel (k.gettimeofday v1).0 v2 (ans.in_time v1) ans.wakes in
      let (granted, kept') = ans.memory (rxlen + 4) v3 in
      let v4 = (k.malloc (rxlen + 4) v3).1 in
      let there : inbox v4 ≡ frame 0x0d reply ++ [] =
        kept'
        ∙ kept
        ∙ ans.clock v2
        ∙ ans.clock v1
        ∙ ans.peer v1 wrote out
        ∙ sym (append-nil (frame 0x0d reply)) in
      after_write (suc fuel) rxlen pkt w v1 v2 v3 v4 wrote refl woke granted refl (
        read_overruns k sent inbox up 0x0d (rxlen + 4) reply [] v4 short' (omega arith)
          (omega (arith, over)) there)
