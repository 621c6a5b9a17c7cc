-- ===== src/Socket/Stream/Progress.antt =====
-- The loops of `socket::write` and `socket::read` (socket.cpp) on a working connection, which moves the
-- bytes in pieces of its own choice.
use mathlib.Core.List.{append-nil, append_assoc}
use seztuner.Prelude.{
  ℕ, zero, suc, ◌+◌, ◌-◌, ◌*◌, ◌/◌, ◌%◌, ◌≤◌, ◌<◌, ◌≡◌, refl, sym, ap, ap₂, ◌∙◌, arith, List, [],
  ◌∷◌, ◌++◌, some, true, false, ltb, take, drop, length, min, length-append,
}
use seztuner.Run.{ok, bind}
use seztuner.Crc.{tuner_calc_crc}
use seztuner.Frame.{pkt_add_crc, crc_matches}
use seztuner.Frame.Layout.{le32, header, frame, pkt_add_crc-frame, take-append, crc_matches-le32}
use seztuner.Socket.Stream.{Kernel, write_loop, write, read_loop, read_body, read}

-- write(2) and read(2) on a connection that stays up: what was sent so far, and what the peer has sent that
-- was not read yet. Each call moves at least one byte, and fewer than asked for if it likes.
pub record Reliable {W : Type 0} (k : Kernel W) (sent inbox : W → List ℕ) : Type 0 where
  pub writes :
      (b : ℕ) (bs : List ℕ) (w : W)
      → (r : ℕ) × (r < length (b ∷ bs))
        × ((k.sys_write (b ∷ bs) w).0 ≡ some (suc r))
        × (sent (k.sys_write (b ∷ bs) w).1 ≡ sent w ++ take (suc r) (b ∷ bs))
  pub reads :
      (n : ℕ) (w : W)
      → n < length (inbox w)
      → (c : ℕ) × (chunk : List ℕ) × (length chunk ≤ n)
        × ((k.sys_read (suc n) w).0 ≡ some (c ∷ chunk))
        × (inbox w ≡ (c ∷ chunk) ++ inbox (k.sys_read (suc n) w).1)
  pub counts :
      (w : W) → ((k.fionread w).0 ≡ some (length (inbox w))) × (inbox (k.fionread w).1 ≡ inbox w)

take-drop : (n : ℕ) (xs : List ℕ) → take n xs ++ drop n xs ≡ xs
take-drop zero xs = refl
take-drop (suc n) [] = refl
take-drop (suc n) (x ∷ xs) = ap (λ l. x ∷ l) (take-drop n xs)

length-drop-suc : (r b : ℕ) (bs : List ℕ) → length (drop (suc r) (b ∷ bs)) ≤ length bs
length-drop-suc zero b bs = omega arith
length-drop-suc (suc r) b [] = omega arith
length-drop-suc (suc r) b (c ∷ bs) = omega (arith, length-drop-suc r c bs)

-- Two ways to cut one list.
pub cut_again :
    (xs ys zs ws : List ℕ)
    → xs ++ ys ≡ zs ++ ws
    → length xs ≤ length zs
    → (zs ≡ xs ++ drop (length xs) zs) × (ys ≡ drop (length xs) zs ++ ws)
cut_again [] ys zs ws e h = (refl, e)
cut_again (x ∷ xs) ys [] ws e h = absurd (omega (arith, h))
cut_again (x ∷ xs) ys (a ∷ zs) ws e h =
    let same : x ≡ a = cc e in
    let tails : xs ++ ys ≡ zs ++ ws = cc e in
    let (p, q) = cut_again xs ys zs ws tails (omega (arith, h)) in
    (ap₂ (λ c l. c ∷ l) (sym same) p, q)

nothing_left : (xs : List ℕ) → length xs ≡ 0 → xs ≡ []
nothing_left [] h = refl
nothing_left (x ∷ xs) h = absurd (omega (arith, h))

module _ {W : Type 0} (k : Kernel W) (sent inbox : W → List ℕ) (up : Reliable k sent inbox) where
  write_round :
      (fuel b r : ℕ) (bs : List ℕ) (w : W)
      → (k.sys_write (b ∷ bs) w).0 ≡ some r
      → write_loop k (suc fuel) (b ∷ bs) w
        ≡ write_loop k fuel (drop r (b ∷ bs)) (k.sys_write (b ∷ bs) w).1
  unfolding write_loop
  write_round fuel b r bs w e = ground (arith, e)

  pub read_round :
      (fuel n room : ℕ) (got chunk : List ℕ) (w : W)
      → (k.sys_read (suc n) w).0 ≡ some chunk
      → length chunk ≤ room
      → read_loop k (suc fuel) (suc n) got room w
        ≡ read_loop k fuel
            (suc n - length chunk)
            (got ++ chunk)
            (room - length chunk)
            (k.sys_read (suc n) w).1
  unfolding read_loop
  read_round fuel n room got chunk w e fits =
      let within : ltb room (length chunk) ≡ false = ground (arith, fits) in
      ground (arith, e, within)

  write_loop_sends :
      (fuel : ℕ) (bs : List ℕ) (w : W)
      → length bs ≤ fuel
      → (v : W) × (write_loop k fuel bs w ≡ ok tt v) × (sent v ≡ sent w ++ bs)
  unfolding write_loop
  write_loop_sends fuel [] w h = (w, refl, sym (append-nil (sent w)))
  write_loop_sends zero (b ∷ bs) w h = absurd (omega (arith, h))
  write_loop_sends (suc fuel) (b ∷ bs) w h =
      let (r, l, e, s) = up.writes b bs w in
      let rest = drop (suc r) (b ∷ bs) in
      let (v, run, t) =
        write_loop_sends fuel rest (k.sys_write (b ∷ bs) w).1
          (omega (arith, h, length-drop-suc r b bs)) in
      (
        v,
        write_round fuel b (suc r) bs w e ∙ run,
        t
            ∙ ap (λ l. l ++ rest) s
            ∙ append_assoc (sent w) (take (suc r) (b ∷ bs)) rest
            ∙ ap (λ l. sent w ++ l) (take-drop (suc r) (b ∷ bs)),
      )

  pub read_loop_reads :
      (fuel n room : ℕ) (got wanted rest : List ℕ) (w : W)
      → length wanted ≡ n
      → n ≤ fuel
      → n ≤ room
      → inbox w ≡ wanted ++ rest
      → (v : W) × (read_loop k fuel n got room w ≡ ok (got ++ wanted) v) × (inbox v ≡ rest)
  unfolding read_loop
  read_loop_reads fuel zero room got wanted rest w size h fits e =
      let none_wanted = nothing_left wanted size in
      (
        w,
        ap (λ l. ok l w) (sym (append-nil got) ∙ ap (λ l. got ++ l) (sym none_wanted)),
        e ∙ ap (λ l. l ++ rest) none_wanted,
      )
  read_loop_reads zero (suc n) room got wanted rest w size h fits e = absurd (omega (arith, h))
  read_loop_reads (suc fuel) (suc n) room got wanted rest w size h fits e =
      let there : n < length (inbox w) =
        omega (arith, size, ap length e, length-append wanted rest) in
      let (c, chunk, l, r, moved) = up.reads n w there in
      let left = drop (suc (length chunk)) wanted in
      let (whole, behind) =
        cut_again (c ∷ chunk) (inbox (k.sys_read (suc n) w).1) wanted rest (sym moved ∙ e)
          (omega (arith, l, size)) in
      let (v, run, t) =
        read_loop_reads fuel (suc n - suc (length chunk)) (room - suc (length chunk))
          (got ++ c ∷ chunk) left rest (k.sys_read (suc n) w).1
          (omega (arith, size, ap length whole, length-append (c ∷ chunk) left)) (omega (arith, h))
          (omega (arith, fits)) behind in
      (
        v,
        read_round fuel n room got (c ∷ chunk) w r (omega (arith, l, fits))
            ∙ run
            ∙ ap (λ l. ok l v) (append_assoc got (c ∷ chunk) left ∙ ap (λ l. got ++ l) (sym whole)),
        t,
      )

  -- On a working connection socket::write ends with success, and has sent the packet with this type and
  -- payload of less than 65536 bytes, whatever the bytes around the payload were.
  pub write-frame :
      (pkt_type : ℕ) (payload : List ℕ) (h0 h1 h2 h3 c0 c1 c2 c3 : ℕ) (w : W)
      → length payload < 65536
      → (v : W) × (write k (h0 ∷ h1 ∷ h2 ∷ h3 ∷ (payload ++ c0 ∷ c1 ∷ c2 ∷ c3 ∷ [])) pkt_type w
          ≡ ok tt v)
        × (sent v ≡ sent w ++ frame pkt_type payload)
  unfolding write
  write-frame pkt_type payload h0 h1 h2 h3 c0 c1 c2 c3 w h =
      let pkt : List ℕ = h0 ∷ h1 ∷ h2 ∷ h3 ∷ (payload ++ c0 ∷ c1 ∷ c2 ∷ c3 ∷ []) in
      let size : length pkt ≡ length payload + 8 =
        omega (arith, length-append payload (c0 ∷ c1 ∷ c2 ∷ c3 ∷ [])) in
      let framed : pkt_add_crc pkt (length pkt) pkt_type ≡ frame pkt_type payload =
        ap (λ n. pkt_add_crc pkt n pkt_type) size
        ∙ pkt_add_crc-frame pkt_type payload h0 h1 h2 h3 c0 c1 c2 c3 h in
      let (v, run, t) = write_loop_sends (length pkt) (frame pkt_type payload) w (
        omega
          (arith, size, length-append payload (le32 (tuner_calc_crc (header pkt_type payload))))) in
      (v, ap (λ bs. write_loop k (length pkt) bs w) framed ∙ run, t)

  read_body_reads :
      (pkt_type room : ℕ) (payload rest : List ℕ) (w : W)
      → length payload < 65536
      → length payload + 4 ≤ room
      → inbox w ≡ payload ++ le32 (tuner_calc_crc (header pkt_type payload)) ++ rest
      → (v : W) × (read_body k room
            (0 ∷ pkt_type ∷ (length payload / 256 % 256) ∷ (length payload % 256) ∷ [])
            w
          ≡ ok (record { len = length payload + 4; buf = frame pkt_type payload }) v)
        × (inbox v ≡ rest)
  unfolding read_body
  read_body_reads pkt_type room payload rest w h fits e =
      let head = header pkt_type payload in
      let tail = le32 (tuner_calc_crc head) in
      let n = length payload / 256 % 256 * 256 + length payload % 256 + 4 in
      let size : n ≡ length payload + 4 = omega (arith, h) in
      let (v, run, t) =
        read_loop_reads n n room [] (payload ++ tail) rest w
          (omega (arith, size, length-append payload tail)) (omega arith)
          (omega (arith, size, fits)) e in
      let front : take n (head ++ tail) ≡ head = take-append head tail n (omega (arith, size)) in
      let sums : crc_matches (head ++ tail) n (tuner_calc_crc (take n (head ++ tail))) ≡ true =
        ap (λ l. crc_matches (head ++ tail) n (tuner_calc_crc l)) front
        ∙ crc_matches-le32 head n (tuner_calc_crc head) (omega (arith, size)) in
      (v, rw (run, sums) (ap (λ m. ok (record { len = m; buf = head ++ tail }) v) size), t)

  pub read_whole :
      (pktlen n : ℕ) (w : W)
      → (k.fionread w).0 ≡ some n
      → 4 ≤ n
      → 4 ≤ pktlen
      → read k pktlen w
        ≡ bind (read_loop k 4 4 [] pktlen (k.fionread w).1) (λ head. read_body k (pktlen - 4) head)
  unfolding read
  read_whole pktlen n w e h room =
      let guard : ltb (min n pktlen) 4 ≡ false = ground arith in ground (arith, e, guard)

  -- On a working connection, when a whole packet with less than 65536 bytes of payload is there and the
  -- caller's block has room for it with header and checksum, socket::read ends with success and hands out exactly that packet, with
  -- the checksum not counted; what follows it is left for the next call.
  pub read-frame :
      (pkt_type pktlen : ℕ) (payload rest : List ℕ) (w : W)
      → length payload < 65536
      → length payload + 8 ≤ pktlen
      → inbox w ≡ frame pkt_type payload ++ rest
      → (v : W) × (read k pktlen w
          ≡ ok (record { len = length payload + 4; buf = frame pkt_type payload }) v)
        × (inbox v ≡ rest)
  read-frame pkt_type pktlen payload rest w h room e =
      let tail = le32 (tuner_calc_crc (header pkt_type payload)) in
      let first : List ℕ =
        0 ∷ pkt_type ∷ (length payload / 256 % 256) ∷ (length payload % 256) ∷ [] in
      let (count, same) = up.counts w in
      let (v1, run1, t1) =
        read_loop_reads 4 4 pktlen [] first (payload ++ tail ++ rest) (k.fionread w).1 refl
          (omega arith) (omega (arith, room)) (same ∙ e) in
      let (v, run, t) =
        read_body_reads pkt_type (pktlen - 4) payload rest v1 h (omega (arith, room)) t1 in
      (
        v,
        read_whole pktlen (length (inbox w)) w count (omega (arith, ap length e))
              (omega (arith, room))
            ∙ ap (λ r. bind r (λ head. read_body k (pktlen - 4) head)) run1
            ∙ run,
        t,
      )
