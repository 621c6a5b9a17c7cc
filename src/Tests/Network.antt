-- ===== src/Tests/Network.antt =====
-- A search that two tuners answer (socket.cpp).
use seztuner.Prelude.{
  ℕ, ◌+◌, ◌≤◌, ◌≡◌, refl, arith, List, [], ◌∷◌, ◌++◌, some, Bool, true, false, length,
}
use seztuner.Run.{ok, fail, M}
use seztuner.Frame.Layout.{frame}
use seztuner.Discovery.{Interface, Net, Context, link_local, tunerfind2}
use seztuner.Discovery.Answers.{devices}
use seztuner.Discovery.Found.{Works, tunerfind2_finds}

-- Senders and payloads of the answers that are still to come.
abbrev Waiting : Type 0
Waiting = List (ℕ × List ℕ)

abbrev is_waiting : Waiting → Bool
is_waiting [] = false
is_waiting (x ∷ l) = true

abbrev deliver : M Waiting (ℕ × List ℕ)
deliver [] = fail []
deliver ((from, payload) ∷ l) = ok (from, frame 3 payload) l

abbrev eth0 : Interface
eth0 = record { address = some 0xa9fe0102; netmask = 0xffff0000 }

-- The byte order is that of the network.
abbrev net : Net Waiting
net = record {
  getifaddrs = λ w. ok (eth0 ∷ []) w;
  open_udp = λ w. ok 5 w;
  hw_addr = λ ifa w. ok (0 ∷ 0x21 ∷ 0x33 ∷ 1 ∷ 2 ∷ 3 ∷ []) w;
  set_broadcast = λ fd w. ok tt w;
  bind_to = λ fd ip w. ok tt w;
  sendto = λ fd dest port pkt w. ok (length pkt) w;
  select = λ fd w. ok (is_waiting w) w;
  recvfrom = λ fd room. deliver;
  close_fd = λ fd w. w;
  malloc_ok = true;
  realloc_ok = λ n. true;
  ntohl = λ n. n;
}

abbrev reply : List ℕ
reply = 1 ∷ 4 ∷ 0 ∷ 0 ∷ 0 ∷ 2 ∷ 2 ∷ 4 ∷ 1 ∷ 2 ∷ 3 ∷ 4 ∷ 9 ∷ 6 ∷ 0 ∷ 0x21 ∷ 0x33 ∷ 7 ∷ 8 ∷ 9 ∷ []

abbrev both : Waiting
both = (0xa9fe0304, reply) ∷ (0xa9fe0506, reply) ∷ []

net-Works : Works net 0xa9fe0102 0xffff0000 eth0 both both
unfolding link_local
net-Works = record {
  local = refl;
  mac = 0 ∷ 0x21 ∷ 0x33 ∷ 1 ∷ 2 ∷ 3 ∷ [];
  known = both;
  has_mac = refl;
  fd = 5;
  opened = both;
  opens = refl;
  broadcasting = both;
  broadcasts = refl;
  bound = both;
  binds = refl;
  sent = both;
  sends = refl;
  delivers = (
    both,
    (0xa9fe0506, reply) ∷ [],
    refl,
    refl,
    refl,
    ((0xa9fe0506, reply) ∷ [], [], refl, refl, refl, ([], refl)),
  );
}

abbrev nobody : Context Waiting
nobody = record { world = both; iface_found = 0; list_max = 8; list = [] }

tunerfind2_finds_example :
    (t : Context Waiting) × (tunerfind2 net 3 0xa9fe0102 0xffff0000 eth0 nobody ≡ ok tt t)
    × (t.list ≡ nobody.list ++ devices 0xa9fe0102 both)
    × (length t.list ≤ t.list_max)
    × (t.iface_found ≡ nobody.iface_found + 1)
tunerfind2_finds_example =
    tunerfind2_finds net 3 0xa9fe0102 0xffff0000 eth0 both nobody (omega arith) (λ n. refl)
      (omega arith) net-Works
