-- ===== src/Atsc/Demux/Assembler/Simulation.antt =====
-- The states of `thread_demux` (mpgatsc.cpp) against the bytes that they stand for.
use seztuner.Prelude.{
  ℕ, ◌-◌, ◌≤◌, ◌<◌, ◌≡◌, ◌≢◌, ◌⊎◌, inl, inr, refl, sym, ap, ◌∙◌, subst, arith, List, [], ◌∷◌, ◌++◌,
  none, some, false, bit_and, leb, length, Bool-cases, Option-cases,
}
use seztuner.Atsc.Memory.{Memory, bytes, Atsc, Env, Ret, done, failed, runaway}
use seztuner.Atsc.Table.{parse_tbl}
use seztuner.Atsc.Demux.{
  packet_pid, payload_start, dump, start_unit, continue_unit, demux_payload, thread_demux,
  after_table,
}
use seztuner.Atsc.Demux.Contents.{length-bytes}
use seztuner.Atsc.Demux.Reassembly.{announced, Parses, fill-Parses, stored}
use seztuner.Atsc.Demux.Independence.{Untouched, thread_demux-Untouched}
use seztuner.Atsc.Demux.Delivery.{
  Carries, Continues, Starts, Holds, CanStore, payload, unit, unit_start, dump-buffers,
  start_unit-fill,
}
use seztuner.Atsc.Demux.Sections.{start-Collects, continue-Collects, last-Parses}
use seztuner.Atsc.Demux.Assembler.{hand_on, collected, Represents}

length_zero : (l : List ℕ) → length l ≡ 0 → l ≡ []
length_zero [] h = refl
length_zero (x ∷ l) h = absurd (omega (arith, h))

collected-some :
    (s : Atsc) (p : ℕ) (buf : Memory)
    → s.pktlist p ≡ some buf
    → collected s p ≡ bytes buf 0 (s.pktlen p)
unfolding collected
collected-some s p buf e = ground (arith, e)

collected-none : (s : Atsc) (p : ℕ) → s.pktlist p ≡ none → collected s p ≡ []
unfolding collected
collected-none s p e = ground (arith, e)

collected-zero : (s : Atsc) (p : ℕ) → s.pktlen p ≡ 0 → collected s p ≡ []
collected-zero s p e = elim (Option-cases (s.pktlist p)) [
  | inl n ↦ collected-none s p n
  | inr (buf, b) ↦ collected-some s p buf b ∙ ap (bytes buf 0) e
]

-- A buffer that is waiting for a section to start.
pub empty-Represents : (s : Atsc) (p : ℕ) → s.pktlen p ≡ 0 → Represents [] s p
empty-Represents s p e = record {
  same = collected-zero s p e;
  allocated = λ _. e;
  unfinished = inl refl;
}

Holds-Represents :
    (s : Atsc) (p : ℕ) (c : List ℕ) → Holds s p c → length c < announced c → Represents c s p
Holds-Represents s p c h short = record {
  same = collected-some s p h.block h.here ∙ ap (bytes h.block 0) h.filled ∙ h.contents;
  allocated = λ e. absurd (two (sym e ∙ h.here));
  unfinished = inr short;
}
  where
    two : none ≢ some h.block
    two e = ground (arith, e)

Represents-empty : (s : Atsc) (p : ℕ) → Represents [] s p → s.pktlen p ≡ 0
Represents-empty s p r = elim (Option-cases (s.pktlist p)) [
  | inl n ↦ r.allocated n
  | inr (buf, b) ↦
      sym (length-bytes buf 0 (s.pktlen p)) ∙ ap length (sym (collected-some s p buf b) ∙ r.same)
]

Represents-Holds :
    (s : Atsc) (p b : ℕ) (c : List ℕ)
    → Represents (b ∷ c) s p
    → Holds s p (b ∷ c) × (length (b ∷ c) < announced (b ∷ c))
Represents-Holds s p b c r = elim (Option-cases (s.pktlist p)) [
  | inl n ↦ absurd (omega (arith, ap length (sym r.same ∙ collected-none s p n)))
  | inr (buf, e) ↦
      let contents : bytes buf 0 (s.pktlen p) ≡ b ∷ c = sym (collected-some s p buf e) ∙ r.same in
      let filled : s.pktlen p ≡ length (b ∷ c) =
        sym (length-bytes buf 0 (s.pktlen p)) ∙ ap length contents in
      (
        record {
          block = buf;
          here = e;
          filled = filled;
          contents = ap (bytes buf 0) (sym filled) ∙ contents;
        },
        short r.unfinished,
      )
]
  where
    short : (b ∷ c ≡ []) ⊎ (length (b ∷ c) < announced (b ∷ c)) → length (b ∷ c) < announced (b ∷ c)
    short (inl e) = absurd (omega (arith, ap length e))
    short (inr l) = l

after_table-zero :
    (pid : ℕ) (r : Atsc × Ret) (t : Atsc) → after_table pid r ≡ (t, done) → t.pktlen pid ≡ 0
after_table-zero pid (s, runaway) t e = ground (arith, e)
after_table-zero pid (s, done) t e = ground (arith, e)
after_table-zero pid (s, failed) t e = ground (arith, e)

Untouched-Represents :
    (p : ℕ) (c : List ℕ) (s t : Atsc) → Untouched p t s → Represents c s p → Represents c t p
unfolding collected
Untouched-Represents p c s t u r = ground arith

hand_on-full : (l : List ℕ) → announced l ≤ length l → hand_on l ≡ []
unfolding hand_on
hand_on-full l h = ground (arith, h)

hand_on-short : (l : List ℕ) → length l < announced l → hand_on l ≡ l
unfolding hand_on
hand_on-short l h = ground (arith, h)

module _ (env : Env) (pkt : Memory) (p : ℕ) (s t : Atsc)
    (returns : thread_demux env pkt s ≡ (t, done)) where
  parsed-Represents :
      (l : List ℕ) (u : Atsc)
      → announced l ≤ length l
      → Parses env p l u (thread_demux env pkt s)
      → Represents (hand_on l) t p
  parsed-Represents l u full h = rw (hand_on-full l full) (
      empty-Represents t p
        (after_table-zero p (parse_tbl env h.block (announced l) p u) t (sym h.called ∙ returns)))

  waited-Represents :
      (l : List ℕ) (u : Atsc)
      → length l < announced l
      → thread_demux env pkt s ≡ (u, done)
      → Holds u p l
      → Represents (hand_on l) t p
  waited-Represents l u short e h =
      let same : u ≡ t = ap (λ r. r.0) (sym e ∙ returns) in
      rw (hand_on-short l short) (Holds-Represents t p l (subst (λ x. Holds x p l) same h) short)

  -- With no block and none granted the call fails.
  no_room : Starts pkt p → s.pktlist p ≡ none → env.malloc_pkt_ok ≡ false → ⊥
  unfolding thread_demux demux_payload start_unit
  no_room h e refused =
      let there : (dump env pkt s).pktlist p ≡ none =
        ap (λ f. f p) (dump-buffers env pkt s).0 ∙ e in
      ground (arith, there)

  must_store : Starts pkt p → CanStore env s p
  must_store h = elim (Bool-cases env.malloc_pkt_ok) [
    | inl granted ↦ inr granted
    | inr refused ↦ inl (λ e. no_room h e refused)
  ]

  pub begin-Represents : Starts pkt p → Represents (hand_on (unit pkt)) t p
  begin-Represents h =
      let room = must_store h in
      elim (Bool-cases (leb (announced (unit pkt)) (length (unit pkt)))) [
        | inl c ↦
            let full : announced (unit pkt) ≤ length (unit pkt) = ground (arith, c) in
            let (buf, e) = start_unit-fill env pkt s p h room in
            let len = 188 - unit_start pkt in
            parsed-Represents (unit pkt) (stored (dump env pkt s) pkt p (unit_start pkt) 0 len buf)
              full (rw e (fill-Parses env pkt p (unit_start pkt) 0 len buf (dump env pkt s) full))
        | inr c ↦
            let short : length (unit pkt) < announced (unit pkt) = ground (arith, c) in
            let (u, e, held, same) = start-Collects env pkt s p h room short in
            waited-Represents (unit pkt) u short e held
      ]

  pub more-Represents :
      (b : ℕ) (c : List ℕ)
      → Continues pkt p
      → Represents (b ∷ c) s p
      → Represents (hand_on ((b ∷ c) ++ payload pkt)) t p
  more-Represents b c h r =
      let (held, short) = Represents-Holds s p b c r in
      let l : List ℕ = (b ∷ c) ++ payload pkt in
      elim (Bool-cases (leb (announced l) (length l))) [
        | inl k ↦
            let full : announced l ≤ length l = ground (arith, k) in
            let (u, parsed, same) =
              last-Parses env pkt s p (b ∷ c) h held (omega arith) short full in
            parsed-Represents l u full parsed
        | inr k ↦
            let waits : length l < announced l = ground (arith, k) in
            let (u, e, held', same) =
              continue-Collects env pkt s p (b ∷ c) h held (omega arith) waits in
            waited-Represents l u waits e held'
      ]

  -- A packet of another PID.
  pub other-Represents : (c : List ℕ) → packet_pid pkt ≢ p → Represents c s p → Represents c t p
  other-Represents c other r =
      Untouched-Represents p c s t
        (subst (λ x. Untouched p x.0 s) returns (thread_demux-Untouched env pkt p s other)) r

  -- A packet that says nothing: damaged, or without a payload.
  pub silent-Represents :
      (c : List ℕ)
      → ((bit_and (pkt 1) 0x80 ≢ 0) ⊎ ((bit_and (pkt 3) 0x20 ≢ 0) × (188 ≤ payload_start pkt)))
      → Represents c s p
      → Represents c t p
  unfolding thread_demux demux_payload
  silent-Represents c why r =
      let (list, len) = dump-buffers env pkt s in
      let same : (t.pktlist ≡ s.pktlist) × (t.pktlen ≡ s.pktlen) = ground (arith, returns) in
      Untouched-Represents p c s t
        (record { same_block = ap (λ f. f p) same.0; same_fill = ap (λ f. f p) same.1 }) r

  -- More of a section that did not start here.
  pub unwanted-Represents : Continues pkt p → Represents [] s p → Represents [] t p
  unfolding thread_demux demux_payload continue_unit
  unwanted-Represents h r =
      let (list, len) = dump-buffers env pkt s in
      let none_yet : (dump env pkt s).pktlen p ≡ 0 = ap (λ f. f p) len ∙ Represents-empty s p r in
      let same : t.pktlen p ≡ 0 = ground (arith, returns, none_yet) in empty-Represents t p same

  -- The pointer field leads out of the packet.
  pub restart-Represents :
      Carries pkt p → bit_and (pkt 1) 0x40 ≢ 0 → 188 ≤ unit_start pkt → Represents [] t p
  unfolding thread_demux demux_payload start_unit
  restart-Represents h start far =
      let same : t.pktlen p ≡ 0 = ground (arith, returns) in empty-Represents t p same
