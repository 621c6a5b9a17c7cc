-- ===== src/Atsc/Demux/Assembler/Refinement.antt =====
-- `thread_demux` (mpgatsc.cpp) over a sequence of packets, against the bytes that its buffers stand for.
use seztuner.Prelude.{
  ℕ, ◌≤◌, ◌<◌, ◌≡◌, ◌≢◌, inl, inr, refl, ap, subst, arith, List, [], ◌∷◌, bit_and, not, leb, ◌==◌,
  ◌&&◌, Bool-cases, ==→eq,
}
use seztuner.Atsc.Memory.{Memory, Atsc, Env, Ret, done, failed, runaway}
use seztuner.Atsc.Demux.{packet_pid, payload_start, thread_demux, and_then, demux_all}
use seztuner.Atsc.Demux.Delivery.{Carries, Continues, Starts, payload, unit, unit_start}
use seztuner.Atsc.Demux.Assembler.{
  nothing, restart, begin, more, event_of, assemble_step, assemble, Represents,
}
use seztuner.Atsc.Demux.Assembler.Simulation.{
  begin-Represents, more-Represents, other-Represents, silent-Represents, unwanted-Represents,
  restart-Represents,
}

event_of-other : (p : ℕ) (pkt : Memory) → packet_pid pkt ≢ p → event_of p pkt ≡ nothing
unfolding event_of
event_of-other p pkt h = ground (arith, h)

event_of-damaged : (p : ℕ) (pkt : Memory) → bit_and (pkt 1) 0x80 ≢ 0 → event_of p pkt ≡ nothing
unfolding event_of
event_of-damaged p pkt h = ground (arith, h)

event_of-bare :
    (p : ℕ) (pkt : Memory)
    → bit_and (pkt 3) 0x20 ≢ 0
    → 188 ≤ payload_start pkt
    → event_of p pkt ≡ nothing
unfolding event_of
event_of-bare p pkt h k = ground (arith, h, k)

event_of-more : (p : ℕ) (pkt : Memory) → Continues pkt p → event_of p pkt ≡ more (payload pkt)
unfolding event_of payload_start
event_of-more p pkt h =
    ground (arith, h, h.carries, h.carries.of_pid, h.carries.has_payload, h.no_start)

event_of-begin : (p : ℕ) (pkt : Memory) → Starts pkt p → event_of p pkt ≡ begin (unit pkt)
unfolding event_of payload_start
event_of-begin p pkt h = ground (arith, h, h.carries, h.start, h.within)

event_of-restart :
    (p : ℕ) (pkt : Memory)
    → Carries pkt p
    → bit_and (pkt 1) 0x40 ≢ 0
    → 188 ≤ unit_start pkt
    → event_of p pkt ≡ restart
unfolding event_of payload_start
event_of-restart p pkt h k l = ground (arith, h, k, l)

payload_start_bare : (pkt : Memory) → bit_and (pkt 3) 0x20 ≡ 0 → payload_start pkt < 188
unfolding payload_start
payload_start_bare pkt h = ground (arith, h)

done-sync :
    (env : Env) (pkt : Memory) (s t : Atsc) → thread_demux env pkt s ≡ (t, done) → pkt 0 ≡ 0x47
unfolding thread_demux
done-sync env pkt s t returns = elim (Bool-cases (pkt 0 == 0x47)) [
  | inl e ↦ ==→eq (pkt 0) 0x47 e
  | inr e ↦ absurd (ground (arith, returns, e))
]

module _ (env : Env) (pkt : Memory) (p : ℕ) (s t : Atsc)
    (returns : thread_demux env pkt s ≡ (t, done)) where
  more-step :
      (c : List ℕ)
      → Continues pkt p
      → Represents c s p
      → Represents (assemble_step (more (payload pkt)) c) t p
  unfolding assemble_step
  more-step [] h r = unwanted-Represents env pkt p s t returns h r
  more-step (b ∷ c) h r = more-Represents env pkt p s t returns b c h r

  start-step :
      (c : List ℕ)
      → Carries pkt p
      → bit_and (pkt 1) 0x40 ≢ 0
      → Represents (assemble_step (event_of p pkt) c) t p
  unfolding assemble_step
  start-step c h start = elim (Bool-cases (leb 188 (unit_start pkt))) [
    | inl k ↦
        let far : 188 ≤ unit_start pkt = ground (arith, k) in
        rw (event_of-restart p pkt h start far)
          (restart-Represents env pkt p s t returns h start far)
    | inr k ↦
        let begins : Starts pkt p = record {
          carries = h;
          start = start;
          within = ground (arith, k);
        } in
        rw (event_of-begin p pkt begins) (begin-Represents env pkt p s t returns begins)
  ]

  good-step :
      (c : List ℕ)
      → Carries pkt p
      → Represents c s p
      → Represents (assemble_step (event_of p pkt) c) t p
  good-step c h r = elim (Bool-cases (bit_and (pkt 1) 0x40 == 0)) [
    | inl e ↦
        let goes_on : Continues pkt p = record {
          carries = h;
          no_start = ==→eq (bit_and (pkt 1) 0x40) 0 e;
        } in
        rw (event_of-more p pkt goes_on) (more-step c goes_on r)
    | inr e ↦ start-step c h (ground (arith, e))
  ]

  silent-step :
      (c : List ℕ)
      → event_of p pkt ≡ nothing
      → Represents c t p
      → Represents (assemble_step (event_of p pkt) c) t p
  unfolding assemble_step
  silent-step c e r = rw e r

  payload-step :
      (c : List ℕ)
      → packet_pid pkt ≡ p
      → bit_and (pkt 1) 0x80 ≡ 0
      → Represents c s p
      → Represents (assemble_step (event_of p pkt) c) t p
  payload-step c same intact r =
      elim (Bool-cases (not (bit_and (pkt 3) 0x20 == 0) && leb 188 (payload_start pkt))) [
        | inl e ↦
            let bare : bit_and (pkt 3) 0x20 ≢ 0 = ground (arith, e) in
            let far : 188 ≤ payload_start pkt = ground (arith, e) in
            silent-step c (event_of-bare p pkt bare far)
              (silent-Represents env pkt p s t returns c (inr (bare, far)) r)
        | inr e ↦
            good-step c
              (record {
                sync = done-sync env pkt s t returns;
                intact = intact;
                of_pid = same;
                has_payload = ground (arith, e, payload_start_bare pkt);
              })
              r
      ]

  thread_demux-Represents :
      (c : List ℕ) → Represents c s p → Represents (assemble_step (event_of p pkt) c) t p
  thread_demux-Represents c r = elim (Bool-cases (packet_pid pkt == p)) [
    | inr e ↦
        let other : packet_pid pkt ≢ p = ground (arith, e) in
        silent-step c (event_of-other p pkt other)
          (other-Represents env pkt p s t returns c other r)
    | inl e ↦ elim (Bool-cases (bit_and (pkt 1) 0x80 == 0)) [
      | inl k ↦ payload-step c (==→eq (packet_pid pkt) p e) (==→eq (bit_and (pkt 1) 0x80) 0 k) r
      | inr k ↦
          let damaged : bit_and (pkt 1) 0x80 ≢ 0 = ground (arith, k) in
          silent-step c (event_of-damaged p pkt damaged)
            (silent-Represents env pkt p s t returns c (inl damaged) r)
    ]
  ]

and_then-done :
    (r : Atsc × Ret) (k : Atsc → Atsc × Ret) (t : Atsc)
    → and_then r k ≡ (t, done)
    → (u : Atsc) × (r ≡ (u, done)) × (k u ≡ (t, done))
and_then-done (s, done) k t e = (s, refl, e)
and_then-done (s, failed) k t e = absurd (ground (arith, e))
and_then-done (s, runaway) k t e = absurd (ground (arith, e))

-- The demultiplexer refines a list of bytes for each PID: when a PID's buffer stands for the bytes that
-- wait for the rest of their section, and a sequence of packets, damaged ones and those of other PIDs
-- included, is taken without an error return, then the buffer stands for what the abstract assembler
-- makes of those bytes and packets, which drops a section that is complete.
pub demux_all-Represents :
    (p : ℕ) (packets : List (Env × Memory)) (s t : Atsc) (c : List ℕ)
    → demux_all packets s ≡ (t, done)
    → Represents c s p
    → Represents (assemble p packets c) t p
unfolding demux_all assemble
demux_all-Represents p [] s t c e r = subst (λ x. Represents c x p) (ap (λ x. x.0) e) r
demux_all-Represents p ((env, pkt) ∷ rest) s t c e r =
    let (u, first, later) = and_then-done (thread_demux env pkt s) (λ x. demux_all rest x) t e in
    demux_all-Represents p rest u t (assemble_step (event_of p pkt) c) later
      (thread_demux-Represents env pkt p s u first c r)
