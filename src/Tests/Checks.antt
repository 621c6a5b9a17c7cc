-- ===== src/Tests/Checks.antt =====
-- The checksums and the packet layout at concrete inputs.
use seztuner.Prelude.{
  ℕ, ◌+◌, ◌-◌, ◌^◌, ◌≡◌, ◌≢◌, refl, arith, List, [], ◌∷◌, ◌++◌, some, All, IsByte, length,
}
use seztuner.Crc.{tuner_calc_crc, mpeg2_crc}
use seztuner.Crc.Serial.{crc32_serial, crc32_mpeg2_serial}
use seztuner.Crc.Reflected.{tuner_calc_crc-serial}
use seztuner.Crc.Forward.{mpeg2_crc-serial}
use seztuner.Crc.Burst.{tuner_calc_crc_detects_burst}
use seztuner.Tests.Inputs.{all_bytes, all_bytes-All}
use seztuner.Frame.{pkt_add_crc, udp_pkt_check}
use seztuner.Frame.Layout.{frame, pkt_add_crc-frame, udp_pkt_check-frame}

abbrev request_bytes : List ℕ
request_bytes = 0x0f ∷ 0xf3 ∷ 0x02 ∷ 0xff ∷ []

are_bytes : All IsByte request_bytes
unfolding all_bytes
are_bytes = all_bytes-All request_bytes refl

tuner_calc_crc-serial_example :
    tuner_calc_crc request_bytes ≡ 2 ^ 32 - 1 - crc32_serial (2 ^ 32 - 1) request_bytes
tuner_calc_crc-serial_example = tuner_calc_crc-serial request_bytes are_bytes

mpeg2_crc-serial_example : mpeg2_crc request_bytes ≡ crc32_mpeg2_serial (2 ^ 32 - 1) request_bytes
mpeg2_crc-serial_example = mpeg2_crc-serial request_bytes are_bytes

abbrev sent : List ℕ
sent = 4 ∷ 5 ∷ []

abbrev received : List ℕ
received = 4 ∷ 6 ∷ []

sent_bytes : All IsByte sent
unfolding all_bytes
sent_bytes = all_bytes-All sent refl

received_bytes : All IsByte received
unfolding all_bytes
received_bytes = all_bytes-All received refl

sent_differs : sent ≢ received
sent_differs e = ground arith

tuner_calc_crc_detects_burst_example :
    tuner_calc_crc (request_bytes ++ sent ++ request_bytes)
    ≢ tuner_calc_crc (request_bytes ++ received ++ request_bytes)
tuner_calc_crc_detects_burst_example =
    tuner_calc_crc_detects_burst request_bytes sent received request_bytes are_bytes sent_bytes
      received_bytes are_bytes refl (omega arith) sent_differs

pkt_add_crc-frame_example :
    pkt_add_crc
      (1 ∷ 2 ∷ 3 ∷ 4 ∷ (request_bytes ++ 5 ∷ 6 ∷ 7 ∷ 8 ∷ []))
      (length request_bytes + 8)
      0x0c
    ≡ frame 0x0c request_bytes
pkt_add_crc-frame_example = pkt_add_crc-frame 0x0c request_bytes 1 2 3 4 5 6 7 8 (omega arith)

udp_pkt_check-frame_example :
    udp_pkt_check (frame 0x0c request_bytes) ≡ some (0 ∷ 0x0c ∷ request_bytes)
udp_pkt_check-frame_example = udp_pkt_check-frame 0x0c request_bytes (omega arith)
