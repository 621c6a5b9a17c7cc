-- ===== src/Discovery/Answers.antt =====
-- Which tuners `tunerfind2` (socket.cpp) remembers.
use seztuner.Prelude.{
  ℕ, zero, suc, ◌+◌, ◌≤◌, ◌<◌, ◌≡◌, refl, sym, ap, subst, ◌∙◌, arith, List, [], ◌∷◌, ◌++◌, none,
  some, true, false, leb, if◌then◌else◌, take, drop, length, length-append, append_assoc,
  append-nil, Bool-cases, inl, inr,
}
use seztuner.Run.{ok, M, bind}
use seztuner.Frame.Layout.{frame, udp_pkt_check-frame}
use seztuner.Discovery.{
  Device, Net, Context, in_net, or_close, accept, udp_pkt_recv, device, grow, remember, collect,
}

-- The tuners that these answers come from: senders and payloads.
abbrev pub devices : ℕ → List (ℕ × List ℕ) → List Device
devices myip [] = []
devices myip ((from, payload) ∷ rest) =
    record { ip = from; mac = take 6 (drop 14 payload); myip = myip } ∷ devices myip rest

-- What was found in addition, and the room for it.
pub record Extends {W : Type 0} (more : List Device) (s t : Context W) : Type 0 where
  pub tuners : t.list ≡ s.list ++ more
  pub room : length t.list ≤ t.list_max
  pub interfaces : t.iface_found ≡ s.iface_found

module _ {W : Type 0} (net : Net W) where
  -- From this state of the world on these answers arrive, each a packet with 20 bytes of payload, and then nothing.
  abbrev pub Delivers : ℕ → List (ℕ × List ℕ) → W → Type 0
  Delivers fd [] w = (v : W) × (net.select fd w ≡ ok false v)
  Delivers fd ((from, payload) ∷ rest) w =
      (u v : W) × (net.select fd w ≡ ok true u)
      × (net.recvfrom fd 4096 u ≡ ok (from, frame 3 payload) v)
      × (length payload ≡ 20)
      × Delivers fd rest v

  accept-frame :
      (from : ℕ) (payload : List ℕ) (w : W)
      → length payload ≡ 20
      → accept net from (frame 3 payload) w ≡ ok (some (from, 0 ∷ 3 ∷ payload)) w
  unfolding accept
  accept-frame from payload w h =
      let same = udp_pkt_check-frame 3 payload (omega (arith, h)) in ground (arith, same)

  recv_silence :
      (fd : ℕ) (w v : W) → net.select fd w ≡ ok false v → udp_pkt_recv net fd 4096 w ≡ ok none v
  unfolding udp_pkt_recv
  recv_silence fd w v e = ground (arith, e)

  recv_answer :
      (fd from : ℕ) (payload : List ℕ) (w u v : W)
      → net.select fd w ≡ ok true u
      → net.recvfrom fd 4096 u ≡ ok (from, frame 3 payload) v
      → length payload ≡ 20
      → udp_pkt_recv net fd 4096 w ≡ ok (some (from, 0 ∷ 3 ∷ payload)) v
  unfolding udp_pkt_recv
  recv_answer fd from payload w u v e f h =
      let taken = accept-frame from payload v h in
      ap
        (λ r. bind r (λ ready v.
          if ready then bind (net.recvfrom fd 4096 v) (λ r u. accept net r.0 r.1 u) else ok none v))
        e
      ∙ ap (λ r. bind r (λ r u. accept net r.0 r.1 u)) f
      ∙ taken

  grow-room :
      (s : Context W)
      → ((n : ℕ) → net.realloc_ok n ≡ true)
      → length s.list ≤ s.list_max
      → (t : Context W) × (grow net s ≡ ok tt t)
        × (t.list ≡ s.list)
        × (t.world ≡ s.world)
        × (t.iface_found ≡ s.iface_found)
        × (length t.list < t.list_max)
  unfolding grow
  grow-room s granted h = elim (Bool-cases (leb s.list_max (length s.list))) [
    | inl c ↦
        let yes = granted (s.list_max + 8) in
        (
          record s { list_max = s.list_max + 8 },
          ground (arith, c, yes),
          refl,
          refl,
          refl,
          omega (arith, h),
        )
    | inr c ↦ (s, ground (arith, c), refl, refl, refl, ground (arith, c))
  ]

  pub in_net-ok :
      {A : Type 0} (m : M W A) (a : A) (w : W) (s : Context W)
      → m s.world ≡ ok a w
      → in_net m s ≡ ok a (record s { world = w })
  in_net-ok m a w s e = ground (arith, e)

  collect-silence :
      (fd myip n : ℕ) (s : Context W) (v : W)
      → udp_pkt_recv net fd 4096 s.world ≡ ok none v
      → collect net fd myip (suc n) s ≡ ok tt (record s { world = v })
  unfolding collect
  collect-silence fd myip n s v e =
      let here = in_net-ok (udp_pkt_recv net fd 4096) none v s e in ground (arith, here)

  collect-answer :
      (fd myip n from : ℕ) (pkt : List ℕ) (s : Context W) (v : W)
      → udp_pkt_recv net fd 4096 s.world ≡ ok (some (from, pkt)) v
      → collect net fd myip (suc n) s
        ≡ bind
            (remember net myip from pkt (record s { world = v }))
            (λ _ u. collect net fd myip n u)
  unfolding collect
  collect-answer fd myip n from pkt s v e =
      let here = in_net-ok (udp_pkt_recv net fd 4096) (some (from, pkt)) v s e in
      ap
        (λ r. or_close net fd r (λ got t. elim got [
          | none ↦ ok tt t
          | some r ↦ bind (remember net myip r.0 r.1 t) λ _ u. collect net fd myip n u
        ]))
        here

  remember-Extends :
      (myip from : ℕ) (payload : List ℕ) (s : Context W)
      → ((n : ℕ) → net.realloc_ok n ≡ true)
      → length s.list ≤ s.list_max
      → length payload ≡ 20
      → (t : Context W) × (remember net myip from (0 ∷ 3 ∷ payload) s ≡ ok tt t)
        × (t.world ≡ s.world)
        × Extends (device net from myip (0 ∷ 3 ∷ payload) ∷ []) s t
  unfolding remember
  remember-Extends myip from payload s granted h size =
      let (t, grows, same, world, interfaces, room) = grow-room s granted h in
      let more = device net from myip (0 ∷ 3 ∷ payload) ∷ [] in
      (
        record t { list = t.list ++ more },
        ground (arith, size, grows),
        world,
        record {
          tuners = ap (λ l. l ++ more) same;
          room = omega (arith, room, length-append t.list more);
          interfaces = interfaces;
        },
      )

  pub collect-Extends :
      (fd myip n : ℕ) (l : List (ℕ × List ℕ)) (s : Context W)
      → length l < n
      → ((n : ℕ) → net.realloc_ok n ≡ true)
      → length s.list ≤ s.list_max
      → Delivers fd l s.world
      → (t : Context W) × (collect net fd myip n s ≡ ok tt t) × Extends (devices myip l) s t
  collect-Extends fd myip zero l s few granted h d = absurd (omega (arith, few))
  collect-Extends fd myip (suc n) [] s few granted h (v, silent) = (
    record s { world = v },
    collect-silence fd myip n s v (recv_silence fd s.world v silent),
    record { tuners = sym (append-nil s.list); room = h; interfaces = refl },
  )
  collect-Extends fd myip (suc n) ((from, payload) ∷ rest) s few granted h
        (u, v, ready, comes, size, later) =
      let got = recv_answer fd from payload s.world u v ready comes size in
      let (t, stored, world, first) =
        remember-Extends myip from payload (record s { world = v }) granted h size in
      let (z, ends, others) =
        collect-Extends fd myip n rest t (omega (arith, few)) granted first.room
          (subst (Delivers fd rest) (sym world) later) in
      let one = device net from myip (0 ∷ 3 ∷ payload) ∷ [] in
      (
        z,
        collect-answer fd myip n from (0 ∷ 3 ∷ payload) s v got
            ∙ ap (λ r. bind r (λ _ u. collect net fd myip n u)) stored
            ∙ ends,
        record {
          tuners =
              others.tuners
              ∙ ap (λ l. l ++ devices myip rest) first.tuners
              ∙ append_assoc s.list one (devices myip rest);
          room = others.room;
          interfaces = others.interfaces ∙ first.interfaces;
        },
      )
