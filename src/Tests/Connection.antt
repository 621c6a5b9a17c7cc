-- ===== src/Tests/Connection.antt =====
-- One exchange with the tuner, from `socket::write_then_read` down to the system calls (socket.cpp).
use seztuner.Prelude.{
  ℕ, suc, ◌≡◌, sym, ap, ◌∙◌, ◌==◌, if◌then◌else◌, ◌≤◌, ◌<◌, refl, arith, List, [], ◌∷◌, ◌++◌, some,
  true, take, drop, length,
}
use seztuner.Crc.{xor_selected, tuner_crc_byte, tuner_crc_loop, tuner_calc_crc}
use seztuner.Frame.{put_crc, fill_packet, pkt_add_crc, crc_matches}
use seztuner.Frame.Layout.{frame, header}
use seztuner.Run.{Run, ok, fail, stuck}
use seztuner.Socket.Stream.Exchange.{Answers, write_then_read_answered}
use seztuner.Socket.Stream.Overrun.{write_then_read_overruns}
use seztuner.Socket.Stream.Progress.{Reliable, write-frame, read-frame}
use seztuner.Socket.Stream.{
  Kernel, write_loop, write, read_loop, read_body, read, await, check_response, write_then_read,
}

-- What was sent, and what is still to be read.
abbrev World : Type 0
World = List ℕ × List ℕ

-- Every call moves one byte.
abbrev kernel : Kernel World
kernel = record {
  sys_write = λ pkt (sent, inbox). (some 1, (sent ++ take 1 pkt, inbox));
  sys_read = λ n (sent, inbox). (some (take 1 inbox), (sent, drop 1 inbox));
  fionread = λ (sent, inbox). (some (length inbox), (sent, inbox));
  pselect = λ t (sent, inbox). (some true, (sent, inbox));
  gettimeofday = λ (sent, inbox). (7, (sent, inbox));
  malloc = λ n (sent, inbox). (true, (sent, inbox));
  usleep = λ t (sent, inbox). (sent, inbox);
}

abbrev request_buffer : List ℕ
request_buffer = 0 ∷ 0 ∷ 0 ∷ 0 ∷ 0x0f ∷ 0xf3 ∷ 2 ∷ 4 ∷ 0 ∷ 0 ∷ 0 ∷ 0 ∷ []

write_then_read_run :
    write_then_read kernel 1 request_buffer 6 ([], frame 0x0d (0x80 ∷ 0x70 ∷ []))
    ≡ ok (0 ∷ 0x0d ∷ 0 ∷ 2 ∷ 0x80 ∷ 0x70 ∷ []) (frame 0x0c (0x0f ∷ 0xf3 ∷ 2 ∷ 4 ∷ []), [])
unfolding write_then_read write write_loop await read read_body read_loop check_response pkt_add_crc
    fill_packet put_crc crc_matches tuner_calc_crc tuner_crc_loop tuner_crc_byte xor_selected
write_then_read_run = refl

some_byte :
    (n : ℕ) (w : World)
    → n < length w.1
    → (c : ℕ) × (chunk : List ℕ) × (length chunk ≤ n)
      × ((kernel.sys_read (suc n) w).0 ≡ some (c ∷ chunk))
      × (w.1 ≡ (c ∷ chunk) ++ (kernel.sys_read (suc n) w).1.1)
some_byte n (sent, []) h = absurd (omega (arith, h))
some_byte n (sent, b ∷ bs) h = (b, [], omega arith, refl, refl)

up : Reliable kernel (λ (w : World). w.0) (λ (w : World). w.1)
up = record {
  writes = λ b bs w. (0, omega arith, refl, refl);
  reads = some_byte;
  counts = λ w. (refl, refl);
}

write-frame_example :
    (v : World) × (write kernel
        (1 ∷ 2 ∷ 3 ∷ 4 ∷ ((0x0f ∷ 0xf3 ∷ []) ++ 5 ∷ 6 ∷ 7 ∷ 8 ∷ []))
        0x0c
        ([], [])
      ≡ ok tt v)
    × (v.0 ≡ [] ++ frame 0x0c (0x0f ∷ 0xf3 ∷ []))
write-frame_example =
    write-frame kernel (λ (w : World). w.0) (λ (w : World). w.1) up 0x0c (0x0f ∷ 0xf3 ∷ []) 1 2 3 4
      5 6 7 8 ([], []) (omega arith)

read-frame_example :
    (v : World) × (read kernel 12 ([], frame 0x0d (0x80 ∷ []) ++ 9 ∷ [])
      ≡ ok (record { len = 5; buf = frame 0x0d (0x80 ∷ []) }) v)
    × (v.1 ≡ 9 ∷ [])
read-frame_example =
    read-frame kernel (λ (w : World). w.0) (λ (w : World). w.1) up 0x0d 12 (0x80 ∷ []) (9 ∷ [])
      ([], frame 0x0d (0x80 ∷ []) ++ 9 ∷ []) (omega arith) (omega arith) refl

-- A tuner that answers once the twelve bytes of the request are there.
abbrev reply : List ℕ
reply = 0x80 ∷ 0x70 ∷ []

abbrev answering : Kernel World
answering = record kernel {
  sys_write = λ pkt (sent, inbox). (
    some 1,
    (sent ++ take 1 pkt, if length (sent ++ take 1 pkt) == 12 then frame 0x0d reply else inbox),
  );
}

answering_up : Reliable answering (λ (w : World). w.0) (λ (w : World). w.1)
answering_up = record {
  writes = λ b bs w. (0, omega arith, refl, refl);
  reads = some_byte;
  counts = λ w. (refl, refl);
}

abbrev inbox_after : Run World (Unit {0}) → List ℕ
inbox_after (ok a w) = w.1
inbox_after (fail w) = w.1
inbox_after stuck = []

answer_comes : inbox_after (write answering request_buffer 0x0c ([], [])) ≡ frame 0x0d reply
unfolding write write_loop pkt_add_crc fill_packet put_crc tuner_calc_crc tuner_crc_loop
    tuner_crc_byte xor_selected
answer_comes = refl

answers :
    Answers answering
      (λ (w : World). w.0)
      (λ (w : World). w.1)
      ([], [])
      request_buffer
      (0x0f ∷ 0xf3 ∷ 2 ∷ 4 ∷ [])
      reply
answers = record {
  peer = λ v e out. sym (ap inbox_after e) ∙ answer_comes;
  clock = λ v. refl;
  in_time = λ v. omega arith;
  wakes = λ t v. (refl, refl);
  memory = λ n v. (refl, refl);
}

write_then_read_answered_example :
    (v : World) × (write_then_read answering 1 request_buffer 6 ([], []) ≡ ok (header 0x0d reply) v)
    × (v.1 ≡ [])
write_then_read_answered_example =
    write_then_read_answered answering (λ (w : World). w.0) (λ (w : World). w.1) 0 6
      (0x0f ∷ 0xf3 ∷ 2 ∷ 4 ∷ []) reply 0 0 0 0 0 0 0 0 ([], []) (omega arith) (omega arith)
      (omega arith) answering_up answers

-- As `get_gpio` asks: *rxlen is 2, and the ten bytes of the answer do not fit into six.
write_then_read_overruns_example : write_then_read answering 1 request_buffer 2 ([], []) ≡ stuck
write_then_read_overruns_example =
    write_then_read_overruns answering (λ (w : World). w.0) (λ (w : World). w.1) 0 2
      (0x0f ∷ 0xf3 ∷ 2 ∷ 4 ∷ []) reply 0 0 0 0 0 0 0 0 ([], []) (omega arith) (omega arith)
      (omega arith) answering_up answers
