-- ===== src/Discovery.antt =====
-- The search for tuners (socket.cpp: `udp_bind`, `udp_pkt_sendto`, `udp_pkt_recv`, `tunerfind2`, `find`; iface.cpp:
-- `foreach_if` by `getifaddrs`).
pub mod Answers
pub mod Found
use seztuner.Prelude.{
  ℕ, zero, suc, ◌+◌, ◌-◌, ◌*◌, ◌/◌, ◌^◌, bit_and, bit_or, List, [], ◌∷◌, ◌++◌, Option, none, some,
  Bool, true, false, ◌&&◌, not, leb, ◌==◌, if◌then◌else◌, take, drop, length,
}
use seztuner.Run.{Run, ok, fail, stuck, M, bind}
use seztuner.Frame.{pkt_add_crc, udp_pkt_check}

-- An entry of `getifaddrs`: its address, when it has one of IPv4, and its netmask, both in network order.
pub record Interface : Type 0 where
  pub address : Option ℕ
  pub netmask : ℕ

-- What the constructor of `mpgts` is given.
pub record Device : Type 0 where
  pub ip : ℕ
  pub mac : List ℕ
  pub myip : ℕ

-- The calls of the system. `select` is `pselect` for 50 ms, and `recvfrom` gives the sender and the datagram.
pub record Net (W : Type 0) : Type 0 where
  pub getifaddrs : M W (List Interface)
  pub open_udp : M W ℕ
  pub hw_addr : Interface → M W (List ℕ)
  pub set_broadcast : ℕ → M W (Unit {0})
  pub bind_to : ℕ → ℕ → M W (Unit {0})
  pub sendto : ℕ → ℕ → ℕ → List ℕ → M W ℕ
  pub select : ℕ → M W Bool
  pub recvfrom : ℕ → ℕ → M W (ℕ × List ℕ)
  pub close_fd : ℕ → W → W
  pub malloc_ok : Bool
  pub realloc_ok : ℕ → Bool
  pub ntohl : ℕ → ℕ

-- `tunerfind2_ctx`. `list_use` is the length of the list.
pub record Context (W : Type 0) : Type 0 where
  pub world : W
  pub iface_found : ℕ
  pub list_max : ℕ
  pub list : List Device

abbrev pub in_net : {W A : Type 0} → M W A → M (Context W) A
in_net m s = elim (m s.world) [
  | ok a w ↦ ok a (record s { world = w })
  | fail w ↦ fail (record s { world = w })
  | stuck ↦ stuck
]

abbrev pub discover : List ℕ
discover =
    0 ∷ 0 ∷ 0 ∷ 0 ∷ 2 ∷ 4 ∷ 0xff ∷ 0xff ∷ 0xff ∷ 0xff ∷ 1 ∷ 4 ∷ 0 ∷ 0 ∷ 0 ∷ 2 ∷ 0 ∷ 0 ∷ 0 ∷ 0 ∷ []

-- The outer loop of `foreach_if_af_inet`, which a callback ends by failing.
unfoldable pub foreach :
    {S : Type 0} → (ℕ → ℕ → Interface → M S (Unit {0})) → List Interface → M S (Unit {0})
foreach cb [] s = ok tt s
foreach cb (ifa ∷ rest) s = elim ifa.address [
  | none ↦ foreach cb rest s
  | some ip ↦
      if ip == 0 then foreach cb rest s else bind (cb ip ifa.netmask ifa s) λ _ t. foreach cb rest t
]

module _ {W : Type 0} (net : Net W) where
  unfoldable pub foreach_if :
      (ℕ → ℕ → Interface → M (Context W) (Unit {0})) → M (Context W) (Unit {0})
  foreach_if cb s = bind (in_net net.getifaddrs s) λ l t. foreach cb l t

  unfoldable pub close_failed : ℕ → Context W → Run (Context W) (Unit {0})
  close_failed fd s = fail (record s { world = net.close_fd fd s.world })

  -- `close` and `return 1` when a call fails.
  abbrev pub or_close :
      {A : Type 0}
      → ℕ
      → Run (Context W) A
      → (A → M (Context W) (Unit {0}))
      → Run (Context W) (Unit {0})
  or_close fd (ok a s) k = k a s
  or_close fd (fail s) k = close_failed fd s
  or_close fd stuck k = stuck

  unfoldable pub udp_bind : ℕ → ℕ → M W (Unit {0})
  udp_bind fd ip w = bind (net.set_broadcast fd w) λ _ v. net.bind_to fd ip v

  unfoldable pub udp_pkt_sendto : ℕ → ℕ → ℕ → List ℕ → M W (Unit {0})
  udp_pkt_sendto fd dest port pkt w =
      bind (net.sendto fd dest port pkt w) λ r v. if r == length pkt then ok tt v else fail v

  -- A datagram of `r` bytes, of which none is the end of the connection.
  unfoldable pub accept : ℕ → List ℕ → M W (Option (ℕ × List ℕ))
  accept from rx w =
      if length rx == 0
      then fail w
      else elim (udp_pkt_check rx) [ none ↦ fail w | some pkt ↦ ok (some (from, pkt)) w ]

  -- `none` is a `*rxlen` of 0: nothing came in time.
  unfoldable pub udp_pkt_recv : ℕ → ℕ → M W (Option (ℕ × List ℕ))
  udp_pkt_recv fd room w = bind (net.select fd w) λ ready v.
      if ready then bind (net.recvfrom fd room v) (λ r u. accept r.0 r.1 u) else ok none v

  abbrev pub device : ℕ → ℕ → List ℕ → Device
  device from myip rx = record { ip = from; mac = take 6 (drop 16 rx); myip = myip }

  -- Room for one more, if that can be had.
  unfoldable pub grow : M (Context W) (Unit {0})
  grow s =
      if leb s.list_max (length s.list)
      then (if net.realloc_ok (s.list_max + 8)
          then ok tt (record s { list_max = s.list_max + 8 })
          else fail (record s { list_max = s.list_max + 8 }))
      else ok tt s

  -- An answer of another length ends the search, and leaves the socket open.
  unfoldable pub remember : ℕ → ℕ → List ℕ → M (Context W) (Unit {0})
  remember myip from rx s =
      if not (length rx == 22)
      then fail s
      else bind (grow s) λ _ t. ok tt (record t { list = t.list ++ device from myip rx ∷ [] })

  -- The answers, for as long as they come.
  unfoldable pub collect : ℕ → ℕ → ℕ → M (Context W) (Unit {0})
  collect fd myip zero s = stuck
  collect fd myip (suc n) s = or_close fd (in_net (udp_pkt_recv fd 4096) s) λ got t. elim got [
    | none ↦ ok tt t
    | some r ↦ bind (remember myip r.0 r.1 t) λ _ u. collect fd myip n u
  ]

  unfoldable pub link_local : ℕ → ℕ → Bool
  link_local ip netmask =
      bit_and (net.ntohl ip) 0xffff0000 == 0xa9fe0000 && net.ntohl netmask == 0xffff0000

  -- With the socket open.
  unfoldable pub ask_tuners : ℕ → ℕ → ℕ → ℕ → M (Context W) (Unit {0})
  ask_tuners fuel fd ip netmask s = or_close fd (in_net (udp_bind fd ip) s) λ _ t.
      or_close fd
        (in_net
          (udp_pkt_sendto fd (bit_or ip (2 ^ 32 - 1 - netmask)) 65001
            (pkt_add_crc discover (length discover) 2))
          t)
        λ _ u. collect fd ip fuel u

  unfoldable pub tunerfind2 : ℕ → ℕ → ℕ → Interface → M (Context W) (Unit {0})
  tunerfind2 fuel ip netmask ifa s =
      if not (link_local ip netmask)
      then ok tt s
      else bind (in_net (net.hw_addr ifa) (record s { iface_found = s.iface_found + 1 }))
          λ _ t. bind (in_net net.open_udp t) λ fd u. ask_tuners fuel fd ip netmask u

  -- The list that `find` returns, with `*num_tuners` as its length, or `none` for a null pointer.
  abbrev pub found : ℕ → Run (Context W) (Unit {0}) → Option (Option (List Device) × W)
  found kernel (ok _ s) =
      if s.iface_found == 0
      then some (none, net.close_fd kernel s.world)
      else some (some s.list, net.close_fd kernel s.world)
  found kernel (fail s) = some (none, net.close_fd kernel s.world)
  found kernel stuck = none

  unfoldable pub find : ℕ → W → Option (Option (List Device) × W)
  find fuel w = if not net.malloc_ok then some (none, w) else elim (net.open_udp w) [
    | fail v ↦ some (none, v)
    | stuck ↦ none
    | ok kernel v ↦ found kernel (
        foreach_if (tunerfind2 fuel)
          (record { world = v; iface_found = 0; list_max = 8; list = [] }))
  ]
