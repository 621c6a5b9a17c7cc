-- ===== src/Frame.antt =====
-- Packets on the wire (socket.cpp): `pkt_add_crc` fills the header and the checksum of a request in
-- place, and `udp_pkt_recv` and `socket::read` compare the last four bytes with a checksum of their
-- own (`crc_matches`) and read the length field. A buffer is a list of bytes; `set` past its end
-- writes nothing, and no caller does that.
pub mod Layout
use seztuner.Prelude.{
  ℕ, ◌+◌, ◌-◌, ◌*◌, ◌/◌, ◌%◌, ◌^◌, List, [], ◌∷◌, ◌++◌, Option, none, some, Bool, ◌&&◌, ◌==◌, ltb,
  if◌then◌else◌, get_or, set, take, drop, length,
}
use seztuner.Crc.{tuner_calc_crc}

-- `pkt[at] .. pkt[at + 3]` become the bytes of `crc`, lowest first.
unfoldable pub put_crc : List ℕ → ℕ → ℕ → List ℕ
put_crc pkt at crc =
    set
      (set (set (set pkt at (crc % 256)) (at + 1) (crc / 256 % 256)) (at + 2) (crc / 2 ^ 16 % 256))
      (at + 3) (crc / 2 ^ 24 % 256)

-- The stores of `pkt_add_crc`, for `n` bytes between header and checksum.
unfoldable pub fill_packet : List ℕ → ℕ → ℕ → List ℕ
fill_packet pkt n pkt_type =
    let pkt' = set (set (set (set pkt 0 0) 1 pkt_type) 2 (n / 256 % 256)) 3 (n % 256) in
    put_crc pkt' (n + 4) (tuner_calc_crc (take (n + 4) pkt'))

-- `len` is a `size_t`; `len -= 8` wraps below 8.
unfoldable pub pkt_add_crc : List ℕ → ℕ → ℕ → List ℕ
unfolding fill_packet put_crc
pkt_add_crc pkt len pkt_type = fill_packet pkt ((len + 2 ^ 64 - 8) % 2 ^ 64) pkt_type

-- The four comparisons of `pkt[n .. n + 3]` with the bytes of `crc`, lowest first.
unfoldable pub crc_matches : List ℕ → ℕ → ℕ → Bool
crc_matches pkt n crc =
    get_or pkt n 0 == crc % 256
    && get_or pkt (n + 1) 0 == crc / 256 % 256
    && get_or pkt (n + 2) 0 == crc / 2 ^ 16 % 256
    && get_or pkt (n + 3) 0 == crc / 2 ^ 24 % 256

-- The checks of `udp_pkt_recv` on the `r` bytes that `recvfrom` gave it.
udp_pkt_accept : List ℕ → ℕ → Option (List ℕ)
udp_pkt_accept rx r =
    if crc_matches rx (r - 4) (tuner_calc_crc (take (r - 4) rx))
    then (if get_or rx 2 0 * 256 + get_or rx 3 0 + 8 == r
        then some (take (r - 6) (take 2 rx ++ drop 4 rx))
        else none)
    else none

-- What `udp_pkt_recv` makes of a datagram of at least four bytes: the packet with its length field
-- removed, or `none` for `return 1`. Below four bytes the source reads in front of its buffer.
unfoldable pub udp_pkt_check : List ℕ → Option (List ℕ)
unfolding udp_pkt_accept
udp_pkt_check rx = udp_pkt_accept rx (length rx)
