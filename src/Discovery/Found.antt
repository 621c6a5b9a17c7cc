-- ===== src/Discovery/Found.antt =====
-- A search over one interface (socket.cpp, `tunerfind2`).
use seztuner.Prelude.{
  ℕ, ◌+◌, ◌-◌, ◌^◌, ◌≤◌, ◌<◌, ◌≡◌, ap, ◌∙◌, arith, bit_or, List, [], ◌∷◌, ◌++◌, true, ◌==◌,
  if◌then◌else◌, length,
}
use seztuner.Run.{ok, fail, bind}
use seztuner.Frame.{pkt_add_crc}
use seztuner.Frame.Layout.{frame, pkt_add_crc-frame}
use seztuner.Discovery.{
  Interface, Net, Context, in_net, discover, or_close, udp_bind, udp_pkt_sendto, collect,
  link_local, ask_tuners, tunerfind2,
}
use seztuner.Discovery.Answers.{devices, Delivers, in_net-ok, collect-Extends}

module _ {W : Type 0} (net : Net W) where
  -- A working interface with a link-local address: the search can be sent as the packet it is meant to be, and is
  -- answered by these packets.
  pub record Works (ip netmask : ℕ) (ifa : Interface) (answers : List (ℕ × List ℕ)) (w : W)
      : Type 0 where
    pub local : link_local net ip netmask ≡ true
    pub mac : List ℕ
    pub known : W
    pub has_mac : net.hw_addr ifa w ≡ ok mac known
    pub fd : ℕ
    pub opened : W
    pub opens : net.open_udp known ≡ ok fd opened
    pub broadcasting : W
    pub broadcasts : net.set_broadcast fd opened ≡ ok tt broadcasting
    pub bound : W
    pub binds : net.bind_to fd ip broadcasting ≡ ok tt bound
    pub sent : W
    pub sends :
        net.sendto fd
          (bit_or ip (2 ^ 32 - 1 - netmask))
          65001
          (frame 2 (2 ∷ 4 ∷ 0xff ∷ 0xff ∷ 0xff ∷ 0xff ∷ 1 ∷ 4 ∷ 0 ∷ 0 ∷ 0 ∷ 2 ∷ []))
          bound
        ≡ ok 20 sent
    pub delivers : Delivers net fd answers sent

  request-frame :
      pkt_add_crc discover (length discover) 2
      ≡ frame 2 (2 ∷ 4 ∷ 0xff ∷ 0xff ∷ 0xff ∷ 0xff ∷ 1 ∷ 4 ∷ 0 ∷ 0 ∷ 0 ∷ 2 ∷ [])
  request-frame =
      pkt_add_crc-frame 2 (2 ∷ 4 ∷ 0xff ∷ 0xff ∷ 0xff ∷ 0xff ∷ 1 ∷ 4 ∷ 0 ∷ 0 ∷ 0 ∷ 2 ∷ []) 0 0 0 0 0
        0 0 0 (omega arith)

  udp_bind-ok :
      (fd ip : ℕ) (u v w : W)
      → net.set_broadcast fd u ≡ ok tt v
      → net.bind_to fd ip v ≡ ok tt w
      → udp_bind net fd ip u ≡ ok tt w
  unfolding udp_bind
  udp_bind-ok fd ip u v w e f = ap (λ r. bind r (λ _ v. net.bind_to fd ip v)) e ∙ f

  udp_pkt_sendto-ok :
      (fd dest : ℕ) (u v : W)
      → net.sendto fd dest 65001
          (frame 2 (2 ∷ 4 ∷ 0xff ∷ 0xff ∷ 0xff ∷ 0xff ∷ 1 ∷ 4 ∷ 0 ∷ 0 ∷ 0 ∷ 2 ∷ []))
          u
        ≡ ok 20 v
      → udp_pkt_sendto net fd dest 65001 (pkt_add_crc discover (length discover) 2) u ≡ ok tt v
  unfolding udp_pkt_sendto
  udp_pkt_sendto-ok fd dest u v e =
      rw request-frame (ap (λ r. bind r (λ r v. if r == 20 then ok tt v else fail v)) e)

  ask_tuners-collect :
      (fuel fd ip netmask : ℕ) (s : Context W) (v w : W)
      → udp_bind net fd ip s.world ≡ ok tt v
      → udp_pkt_sendto net fd
          (bit_or ip (2 ^ 32 - 1 - netmask))
          65001
          (pkt_add_crc discover (length discover) 2)
          v
        ≡ ok tt w
      → ask_tuners net fuel fd ip netmask s ≡ collect net fd ip fuel (record s { world = w })
  unfolding ask_tuners
  ask_tuners-collect fuel fd ip netmask s v w e f =
      let bound = in_net-ok net (udp_bind net fd ip) tt v s e in
      let pkt = pkt_add_crc discover (length discover) 2 in
      let dest = bit_or ip (2 ^ 32 - 1 - netmask) in
      let sent =
        in_net-ok net (udp_pkt_sendto net fd dest 65001 pkt) tt w (record s { world = v }) f in
      ap
        (λ r. or_close net fd r (λ _ t.
          or_close net fd (in_net (udp_pkt_sendto net fd dest 65001 pkt) t)
            (λ _ u. collect net fd ip fuel u)))
        bound
      ∙ ap (λ r. or_close net fd r (λ _ u. collect net fd ip fuel u)) sent

  -- On a working interface with a link-local address, when the search goes out as a well-formed packet,
  -- any number of tuners answer with packets of 20 bytes of payload, then nothing comes, and realloc
  -- succeeds, tunerfind2 succeeds: it has counted the interface and appended each sender with its
  -- hardware address, in the order of the answers, and the list is not longer than its allocation.
  pub tunerfind2_finds :
      (fuel ip netmask : ℕ) (ifa : Interface) (answers : List (ℕ × List ℕ)) (s : Context W)
      → length answers < fuel
      → ((n : ℕ) → net.realloc_ok n ≡ true)
      → length s.list ≤ s.list_max
      → Works ip netmask ifa answers s.world
      → (t : Context W) × (tunerfind2 net fuel ip netmask ifa s ≡ ok tt t)
        × (t.list ≡ s.list ++ devices ip answers)
        × (length t.list ≤ t.list_max)
        × (t.iface_found ≡ s.iface_found + 1)
  unfolding tunerfind2
  tunerfind2_finds fuel ip netmask ifa answers s few granted h works =
      let counted : Context W = record s { iface_found = s.iface_found + 1 } in
      let begun : Context W = record counted { world = works.sent } in
      let (t, ends, more) =
        collect-Extends net works.fd ip fuel answers begun few granted h works.delivers in
      let known = in_net-ok net (net.hw_addr ifa) works.mac works.known counted works.has_mac in
      let opens =
        in_net-ok net net.open_udp works.fd works.opened (record counted { world = works.known })
          works.opens in
      let asked =
        ask_tuners-collect fuel works.fd ip netmask (record counted { world = works.opened })
          works.bound works.sent
          (udp_bind-ok works.fd ip works.opened works.broadcasting works.bound works.broadcasts
            works.binds)
          (udp_pkt_sendto-ok works.fd (bit_or ip (2 ^ 32 - 1 - netmask)) works.bound works.sent
            works.sends) in
      (
        t,
        rw works.local (
            ap
              (λ r.
                bind r (λ _ t.
                  bind (in_net net.open_udp t) (λ fd u. ask_tuners net fuel fd ip netmask u)))
              known
            ∙ ap (λ r. bind r (λ fd u. ask_tuners net fuel fd ip netmask u)) opens
            ∙ asked
            ∙ ends),
        more.tuners,
        more.room,
        more.interfaces,
      )
