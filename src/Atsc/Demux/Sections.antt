-- ===== src/Atsc/Demux/Sections.antt =====
-- A section that is spread over packets, from its first packet to the call of the parser (mpgatsc.cpp,
-- `thread_demux`; mpgts.cpp, the loop that calls it).
use mathlib.Core.List.{append-nil, append_assoc}
use seztuner.Prelude.{
  ℕ, ◌+◌, ◌-◌, ◌≤◌, ◌<◌, List, [], ◌∷◌, ◌++◌, ◌≡◌, refl, sym, ap, ◌∙◌, arith, length, length-append,
  inl, inr, ◌⊎◌,
}
use seztuner.Atsc.Memory.{Memory, bytes, Atsc, Env, Ret, done}
use seztuner.Atsc.Demux.{
  max_pkt_len, payload_start, fill, room_for, dump, thread_demux, and_then, demux_all,
}
use seztuner.Atsc.Demux.Contents.{length-bytes, bytes-add}
use seztuner.Atsc.Demux.Reassembly.{
  announced, announced_bounds, Parses, Parses-append, unfinished_prefix, stored, fill_waits,
  fill-Parses,
}
use seztuner.Atsc.Demux.Delivery.{
  Starts, Continues, CanStore, Holds, SameTables, payload, unit, unit_start, stored-SameTables,
  stored-Holds, start_unit-fill, continue_unit-fill,
}

-- The payloads of packets that go on with a section.
abbrev pub payloads : List (Env × Memory) → List ℕ
payloads [] = []
payloads ((env, pkt) ∷ rest) = payload pkt ++ payloads rest

abbrev pub AllContinue : ℕ → List (Env × Memory) → Type 0
AllContinue pid [] = Unit {0}
AllContinue pid ((env, pkt) ∷ rest) = Continues pkt pid × AllContinue pid rest

SameTables-refl : (s : Atsc) → SameTables s s
SameTables-refl s = ground arith

SameTables-trans : (s t u : Atsc) → SameTables s t → SameTables t u → SameTables s u
SameTables-trans s t u h k = ground arith

-- A call that only collects.
abbrev pub Collects : ℕ → List ℕ → Atsc → Atsc × Ret → Type 0
Collects pid b s r = (t : Atsc) × (r ≡ (t, done)) × Holds t pid b × SameTables t s

pub start-Collects :
    (env : Env) (pkt : Memory) (s : Atsc) (pid : ℕ)
    → Starts pkt pid
    → CanStore env s pid
    → length (unit pkt) < announced (unit pkt)
    → Collects pid (unit pkt) s (thread_demux env pkt s)
start-Collects env pkt s pid h room short =
    let (buf, e) = start_unit-fill env pkt s pid h room in
    let len = 188 - unit_start pkt in
    (
      stored (dump env pkt s) pkt pid (unit_start pkt) 0 len buf,
      e ∙ fill_waits env pkt pid (unit_start pkt) 0 len buf (dump env pkt s) short,
      stored-Holds (dump env pkt s) pkt pid (unit_start pkt) 0 len buf (unit pkt) refl,
      stored-SameTables env pkt s pkt pid (unit_start pkt) 0 len buf,
    )

pub continue-Collects :
    (env : Env) (pkt : Memory) (s : Atsc) (pid : ℕ) (b : List ℕ)
    → Continues pkt pid
    → Holds s pid b
    → 0 < length b
    → length (b ++ payload pkt) < announced (b ++ payload pkt)
    → Collects pid (b ++ payload pkt) s (thread_demux env pkt s)
continue-Collects env pkt s pid b c h some_bytes short =
    let start = payload_start pkt in
    let len = 188 - start in
    let size : length (b ++ payload pkt) ≡ length b + len =
      omega (arith, length-append b (payload pkt), length-bytes pkt start len) in
    let most = announced_bounds (b ++ payload pkt) in
    let all : room_for (length b) len ≡ len = unfold room_for in ground (arith, size, most) in
    let whole : bytes h.block 0 (length b) ++ bytes pkt start len ≡ b ++ payload pkt =
      ap (λ l. l ++ payload pkt) h.contents in
    let t = stored (dump env pkt s) pkt pid start (length b) len h.block in
    (
      t,
      continue_unit-fill env pkt s pid b c h some_bytes (omega (arith, size, most, short))
          ∙ ap (λ n. fill env pkt pid start (length b) n h.block (dump env pkt s)) all
          ∙ fill_waits env pkt pid start (length b) len h.block (dump env pkt s) (rw whole short),
      stored-Holds (dump env pkt s) pkt pid start (length b) len h.block (b ++ payload pkt) whole,
      stored-SameTables env pkt s pkt pid start (length b) len h.block,
    )

middle-Collects :
    (mid : List (Env × Memory)) (s : Atsc) (pid : ℕ) (b : List ℕ)
    → AllContinue pid mid
    → Holds s pid b
    → 0 < length b
    → length (b ++ payloads mid) < announced (b ++ payloads mid)
    → Collects pid (b ++ payloads mid) s (demux_all mid s)
unfolding demux_all
middle-Collects [] s pid b c h some_bytes short = (s, refl, rw (append-nil b) h, SameTables-refl s)
middle-Collects ((env, pkt) ∷ mid) s pid b (c, cs) h some_bytes short =
    let regroup : b ++ (payload pkt ++ payloads mid) ≡ b ++ payload pkt ++ payloads mid =
      sym (append_assoc b (payload pkt) (payloads mid)) in
    let short' : length (b ++ payload pkt ++ payloads mid)
        < announced (b ++ payload pkt ++ payloads mid) =
      rw regroup at short in
    let (t, e, ht, same) =
      continue-Collects env pkt s pid b c h some_bytes
        (unfinished_prefix (b ++ payload pkt) (payloads mid) short') in
    let (u, d, hu, same') =
      middle-Collects mid t pid (b ++ payload pkt) cs ht
        (omega (arith, length-append b (payload pkt))) short' in
    (
      u,
      ap (λ r. and_then r (λ x. demux_all mid x)) e ∙ d,
      rw regroup hu,
      SameTables-trans u t s same' same,
    )

-- The packet that completes a section has it parsed.
pub last-Parses :
    (env : Env) (pkt : Memory) (s : Atsc) (pid : ℕ) (b : List ℕ)
    → Continues pkt pid
    → Holds s pid b
    → 0 < length b
    → length b < announced b
    → announced (b ++ payload pkt) ≤ length (b ++ payload pkt)
    → (t : Atsc) × Parses env pid (b ++ payload pkt) t (thread_demux env pkt s) × SameTables t s
last-Parses env pkt s pid b c h some_bytes short full =
    let start = payload_start pkt in
    let len = 188 - start in
    let n = room_for (length b) len in
    let size : length (b ++ payload pkt) ≡ length b + len =
      omega (arith, length-append b (payload pkt), length-bytes pkt start len) in
    let most = announced_bounds b in
    let fits : (n ≤ len) × ((n ≡ len) ⊎ (length b + n ≡ max_pkt_len)) =
      unfold room_for in ground (arith, most, short) in
    let taken = bytes h.block 0 (length b) ++ bytes pkt start n in
    let rest = bytes pkt (start + n) (len - n) in
    let split : taken ++ rest ≡ b ++ payload pkt =
      ap (λ l. l ++ bytes pkt start n ++ rest) h.contents
      ∙ append_assoc b (bytes pkt start n) rest
      ∙ ap (λ l. b ++ l) (sym (bytes-add pkt start n (len - n)))
      ∙ ap (λ k. b ++ bytes pkt start k) {x = n + (len - n)} (omega (arith, fits.0)) in
    let got : length taken ≡ length b + n = omega (
      arith,
      length-append (bytes h.block 0 (length b)) (bytes pkt start n),
      length-bytes h.block 0 (length b),
      length-bytes pkt start n,
    ) in
    let enough : announced taken ≤ length taken = elim fits.1 [
      | inl all ↦
          let none_left : rest ≡ [] =
            ap (bytes pkt (start + n)) {x = len - n} {y = 0} (omega (arith, all)) in
          let whole : taken ≡ b ++ payload pkt =
            sym (append-nil taken) ∙ ap (λ l. taken ++ l) (sym none_left) ∙ split in
          rw whole full
      | inr filled ↦ omega (arith, filled, got, announced_bounds taken)
    ] in
    let t = stored (dump env pkt s) pkt pid start (length b) n h.block in
    let p : Parses env pid taken t (thread_demux env pkt s) =
      rw (continue_unit-fill env pkt s pid b c h some_bytes (omega (arith, most, short)))
        (fill-Parses env pkt pid start (length b) n h.block (dump env pkt s) enough) in
    (
      t,
      rw (← split) (Parses-append env pid taken rest t _ enough p),
      stored-SameTables env pkt s pkt pid start (length b) n h.block,
    )

-- A section that starts in one packet, goes on in any number of further packets of its PID and is
-- completed by the last of them is parsed exactly then, when the packets are good and the first finds or
-- gets a buffer: every call before only collects and returns 0, so that all tables are still as they
-- were, and the last call runs the parser once, with the section's announced length and a block that
-- begins with the section's bytes, in order.
pub demux_all_delivers :
    (e1 e2 : Env) (first last : Memory) (mid : List (Env × Memory)) (s : Atsc) (pid : ℕ)
    → Starts first pid
    → CanStore e1 s pid
    → AllContinue pid mid
    → Continues last pid
    → length (unit first ++ payloads mid) < announced (unit first ++ payloads mid)
    → announced (unit first ++ payloads mid ++ payload last)
      ≤ length (unit first ++ payloads mid ++ payload last)
    → (t u : Atsc) × (demux_all ((e1, first) ∷ mid) s ≡ (u, done))
      × SameTables u s
      × SameTables t s
      × Parses e2 pid (unit first ++ payloads mid ++ payload last) t (thread_demux e2 last u)
unfolding demux_all
demux_all_delivers e1 e2 first last mid s pid h room cs c short full =
    let (v, e, hv, same_v) =
      start-Collects e1 first s pid h room (unfinished_prefix (unit first) (payloads mid) short) in
    let nonempty : 0 < length (unit first) =
      omega (arith, length-bytes first (unit_start first) (188 - unit_start first), h.within) in
    let (u, d, hu, same_u) = middle-Collects mid v pid (unit first) cs hv nonempty short in
    let (t, p, same_t) =
      last-Parses e2 last u pid (unit first ++ payloads mid) c hu
        (omega (arith, length-append (unit first) (payloads mid))) short full in
    (
      t,
      u,
      ap (λ r. and_then r (λ x. demux_all mid x)) e ∙ d,
      SameTables-trans u v s same_u same_v,
      SameTables-trans t u s same_t (SameTables-trans u v s same_u same_v),
      p,
    )
