-- ===== src/Frame/Layout.antt =====
-- The packet layout that `pkt_add_crc` produces, and the receiver's checks on it.
use seztuner.Prelude.{
  ℕ, zero, suc, ◌+◌, ◌-◌, ◌*◌, ◌/◌, ◌%◌, ◌^◌, ◌<◌, List, [], ◌∷◌, ◌++◌, some, true, ◌≡◌, ap, ◌∙◌,
  arith, get_or, set, take, length, length-append, take-append_length, ◌==◌, ==_refl,
}
use seztuner.Crc.{tuner_calc_crc}
use seztuner.Frame.{put_crc, fill_packet, pkt_add_crc, crc_matches, udp_pkt_accept, udp_pkt_check}

-- A number as four bytes, lowest first.
abbrev pub le32 : ℕ → List ℕ
le32 c = (c % 256) ∷ (c / 256 % 256) ∷ (c / 2 ^ 16 % 256) ∷ (c / 2 ^ 24 % 256) ∷ []

-- Type and length of a packet with this payload.
abbrev pub header : ℕ → List ℕ → List ℕ
header pkt_type payload =
    0 ∷ pkt_type ∷ (length payload / 256 % 256) ∷ (length payload % 256) ∷ payload

-- A packet on the wire.
abbrev pub frame : ℕ → List ℕ → List ℕ
frame pkt_type payload = header pkt_type payload ++ le32 (tuner_calc_crc (header pkt_type payload))

-- Writes and reads behind a list of known length.
set-append :
    (xs ys : List ℕ) (n i v : ℕ) → n ≡ length xs + i → set (xs ++ ys) n v ≡ xs ++ set ys i v
set-append [] ys n i v h = ap (λ k. set ys k v) (omega arith)
set-append (x ∷ xs) ys zero i v h = absurd (omega arith)
set-append (x ∷ xs) ys (suc n) i v h = ap (λ l. x ∷ l) (set-append xs ys n i v (omega arith))

pub get_or-append :
    (xs ys : List ℕ) (n i : ℕ) → n ≡ length xs + i → get_or (xs ++ ys) n 0 ≡ get_or ys i 0
get_or-append [] ys n i h = ap (λ k. get_or ys k 0) (omega arith)
get_or-append (x ∷ xs) ys zero i h = absurd (omega arith)
get_or-append (x ∷ xs) ys (suc n) i h = get_or-append xs ys n i (omega arith)

pub take-append : (xs ys : List ℕ) (n : ℕ) → n ≡ length xs → take n (xs ++ ys) ≡ xs
take-append xs ys n h = rw h (take-append_length xs ys)

put_crc-append :
    (xs : List ℕ) (n crc a b c d : ℕ)
    → n ≡ length xs
    → put_crc (xs ++ a ∷ b ∷ c ∷ d ∷ []) n crc ≡ xs ++ le32 crc
unfolding put_crc
put_crc-append xs n crc a b c d h =
    let p = crc % 256 in
    let q = crc / 256 % 256 in
    let r = crc / 2 ^ 16 % 256 in
    rw (
      set-append xs (a ∷ b ∷ c ∷ d ∷ []) n 0 p (omega arith),
      set-append xs (p ∷ b ∷ c ∷ d ∷ []) (n + 1) 1 q (omega arith),
      set-append xs (p ∷ q ∷ c ∷ d ∷ []) (n + 2) 2 r (omega arith),
      set-append xs (p ∷ q ∷ r ∷ d ∷ []) (n + 3) 3 (crc / 2 ^ 24 % 256) (omega arith),
    )

-- pkt_add_crc turns a buffer with room for header and checksum, and a payload of less than 65536 bytes,
-- into the packet, whatever the eight bytes around the payload held.
pub pkt_add_crc-frame :
    (pkt_type : ℕ) (payload : List ℕ) (h0 h1 h2 h3 c0 c1 c2 c3 : ℕ)
    → length payload < 65536
    → pkt_add_crc
        (h0 ∷ h1 ∷ h2 ∷ h3 ∷ (payload ++ c0 ∷ c1 ∷ c2 ∷ c3 ∷ []))
        (length payload + 8)
        pkt_type
      ≡ frame pkt_type payload
unfolding pkt_add_crc fill_packet
pkt_add_crc-frame pkt_type payload h0 h1 h2 h3 c0 c1 c2 c3 h =
    let head = header pkt_type payload in
    let tail : List ℕ = c0 ∷ c1 ∷ c2 ∷ c3 ∷ [] in
    let n = length payload in
    ap (λ k. fill_packet (h0 ∷ h1 ∷ h2 ∷ h3 ∷ (payload ++ tail)) k pkt_type)
      {x = (n + 8 + 2 ^ 64 - 8) % 2 ^ 64} {y = n} (omega arith)
    ∙ ap (λ l. put_crc (head ++ tail) (n + 4) (tuner_calc_crc l))
        (take-append head tail (n + 4) (omega arith))
    ∙ put_crc-append head (n + 4) (tuner_calc_crc head) c0 c1 c2 c3 (omega arith)

-- The comparison succeeds on the checksum's own bytes.
pub crc_matches-le32 :
    (xs : List ℕ) (n crc : ℕ) → n ≡ length xs → crc_matches (xs ++ le32 crc) n crc ≡ true
unfolding crc_matches
crc_matches-le32 xs n crc h = rw (
  get_or-append xs (le32 crc) n 0 (omega arith),
  get_or-append xs (le32 crc) (n + 1) 1 (omega arith),
  get_or-append xs (le32 crc) (n + 2) 2 (omega arith),
  get_or-append xs (le32 crc) (n + 3) 3 (omega arith),
  ==_refl (crc % 256),
  ==_refl (crc / 256 % 256),
  ==_refl (crc / 2 ^ 16 % 256),
  ==_refl (crc / 2 ^ 24 % 256),
)

-- The datagram check of udp_pkt_recv accepts every packet with less than 65536 bytes of payload, and
-- gives back its type and payload without the length field.
pub udp_pkt_check-frame :
    (pkt_type : ℕ) (payload : List ℕ)
    → length payload < 65536
    → udp_pkt_check (frame pkt_type payload) ≡ some (0 ∷ pkt_type ∷ payload)
unfolding udp_pkt_check
udp_pkt_check-frame pkt_type payload h =
    let head = header pkt_type payload in
    let pkt = frame pkt_type payload in
    let n = length payload in
    let size : length pkt ≡ n + 8 =
      omega (arith, length-append {0} payload (le32 (tuner_calc_crc head))) in
    let sums : crc_matches pkt (n + 8 - 4) (tuner_calc_crc (take (n + 8 - 4) pkt)) ≡ true =
      ap (λ l. crc_matches pkt (n + 8 - 4) (tuner_calc_crc l))
        (take-append head (le32 (tuner_calc_crc head)) (n + 8 - 4) (omega arith))
      ∙ crc_matches-le32 head (n + 8 - 4) (tuner_calc_crc head) (omega arith) in
    let sized : (n / 256 % 256 * 256 + n % 256 + 8 == n + 8) ≡ true = ground arith in
    let body : take (n + 8 - 6) (0 ∷ pkt_type ∷ (payload ++ le32 (tuner_calc_crc head)))
        ≡ 0 ∷ pkt_type ∷ payload =
      take-append (0 ∷ pkt_type ∷ payload) (le32 (tuner_calc_crc head)) (n + 8 - 6) (omega arith) in
    ap (udp_pkt_accept pkt) size ∙ rw (sums, sized) (ap some body)
