-- ===== src/Mpgts/Control/Start.antt =====
-- What a turn of the thread means for `start_ts` (mpgts.cpp).
use seztuner.Prelude.{
  ℕ, zero, suc, ◌+◌, ◌≤◌, ◌<◌, ◌≡◌, ◌≢◌, refl, sym, ap, subst, ◌∙◌, arith, Bool, ◌==◌, ==→eq,
  Bool-cases, inl, inr,
}
use seztuner.Run.{ok}
use seztuner.Socket.Bus.{Bus}
use seztuner.Atsc.Memory.{Atsc, Ret, done, failed, runaway}
use seztuner.Atsc.Demux.{init, demux_all}
use seztuner.Mpgts.Thread.{
  Receivers, Select, broken, timeout, readable, Received, lost, datagram, Turn, Status, going,
  returned, hung, next, with_atsc, clear, serve_reset, packets_from, take_datagram, receive,
  serve_resets, after_select, thread_turn,
}
use seztuner.Mpgts.Control.{Mpgts, in_world, ask_reset, await_reset, begin_stream, start_ts}

-- Nothing is left to reset.
pub record Served (s : Receivers) : Type 0 where
  pub first : s.want_reset 0 ≡ 0
  pub second : s.want_reset 1 ≡ 0

with_atsc-want_reset :
    (i : ℕ) (s : Receivers) (r : Atsc × Ret) (t : Receivers)
    → with_atsc i s r ≡ (t, going)
    → t.want_reset ≡ s.want_reset
with_atsc-want_reset i s (a, done) t e = ground (arith, e)
with_atsc-want_reset i s (a, failed) t e = absurd (ground (arith, e))
with_atsc-want_reset i s (a, runaway) t e = absurd (ground (arith, e))

next-going :
    (r : Receivers × Status) (k : Receivers → Receivers × Status) (t : Receivers)
    → next r k ≡ (t, going)
    → (u : Receivers) × (r ≡ (u, going)) × (k u ≡ (t, going))
next-going (s, going) k t e = (s, refl, e)
next-going (s, returned) k t e = absurd (ground (arith, e))
next-going (s, hung) k t e = absurd (ground (arith, e))

serve_reset-want_reset :
    (turn : Turn) (i : ℕ) (s t : Receivers)
    → serve_reset turn i s ≡ (t, going)
    → (t.want_reset i ≡ 0) × ((j : ℕ) → j ≢ i → t.want_reset j ≡ s.want_reset j)
unfolding serve_reset clear
serve_reset-want_reset turn i s t e = elim (Bool-cases (s.want_reset i == 0)) [
  | inl c ↦
      let same : s ≡ t = ground (arith, e, c) in
      (
        ap (λ (r : Receivers). r.want_reset i) (sym same) ∙ ==→eq (s.want_reset i) 0 c,
        λ j h. ap (λ (r : Receivers). r.want_reset j) (sym same),
      )
  | inr c ↦
      let cleared = clear i s in
      let reset : with_atsc i cleared (init (turn.init_env i) (s.atsc i)) ≡ (t, going) =
        ground (arith, e, c) in
      let kept = with_atsc-want_reset i cleared (init (turn.init_env i) (s.atsc i)) t reset in
      (ground (arith, ap (λ f. f i) kept), λ j h. ground (arith, ap (λ f. f j) kept, h))
]

take_datagram-want_reset :
    (turn : Turn) (i : ℕ) (d : Received) (s t : Receivers)
    → take_datagram turn i d s ≡ (t, going)
    → t.want_reset ≡ s.want_reset
unfolding take_datagram
take_datagram-want_reset turn i lost s t e = absurd (ground (arith, e))
take_datagram-want_reset turn i (datagram r rx) s t e =
    let packets = packets_from (turn.packet_env i) rx r 12 r in
    let kept = with_atsc-want_reset i s (demux_all packets (s.atsc i)) t in ground (arith, e, kept)

receive-want_reset :
    (turn : Turn) (set : ℕ → Bool) (i : ℕ) (s t : Receivers)
    → receive turn set i s ≡ (t, going)
    → t.want_reset ≡ s.want_reset
unfolding receive
receive-want_reset turn set i s t e =
    let kept = take_datagram-want_reset turn i (turn.received i) s t in ground (arith, e, kept)

serve_resets-Served : (turn : Turn) (s t : Receivers) → serve_resets turn s ≡ (t, going) → Served t
unfolding serve_resets
serve_resets-Served turn s t e =
    let (u, first, second) = next-going (serve_reset turn 0 s) (serve_reset turn 1) t e in
    let (zeroth, other) = serve_reset-want_reset turn 0 s u first in
    let (one, kept) = serve_reset-want_reset turn 1 u t second in
    record { first = kept 0 (λ z. absurd (omega (arith, z))) ∙ zeroth; second = one }

-- A round of the loop that goes on has served every request.
pub thread_turn-Served :
    (turn : Turn) (s t : Receivers) → thread_turn turn s ≡ (t, going) → Served t
unfolding thread_turn
thread_turn-Served turn s t e = selected turn.select e
  where
    selected : (sel : Select) → after_select turn sel s ≡ (t, going) → Served t
    selected broken e = absurd (ground (arith, e))
    selected timeout e = serve_resets-Served turn s t e
    selected (readable set) e =
        let (v, early, last) =
          next-going (next (serve_resets turn s) (receive turn set 0)) (receive turn set 1) t e in
        let (u, served, mid) = next-going (serve_resets turn s) (receive turn set 0) v early in
        let h = serve_resets-Served turn s u served in
        let same = receive-want_reset turn set 1 v t last ∙ receive-want_reset turn set 0 u v mid in
        record { first = ap (λ f. f 0) same ∙ h.first; second = ap (λ f. f 1) same ∙ h.second }

-- Before the look number `k` the thread completes a round.
pub record Turns {D : Type 0} (meanwhile : ℕ → Mpgts D → Mpgts D) (k : ℕ) : Type 0 where
  pub turn : Mpgts D → Turn
  pub completes : (s : Mpgts D) → thread_turn (turn s) s.shared ≡ ((meanwhile k s).shared, going)

module _ {D : Type 0} (bus : Bus D) (meanwhile : ℕ → Mpgts D → Mpgts D) where
  await_reset-now :
      (ch n i : ℕ) (s : Mpgts D)
      → (meanwhile i s).shared.want_reset ch ≡ 0
      → await_reset bus meanwhile ch (suc n) i s ≡ ok tt (meanwhile i s)
  unfolding await_reset
  await_reset-now ch n i s h = ground (arith, h)

  await_reset-later :
      (ch n i : ℕ) (s : Mpgts D)
      → (meanwhile i s).shared.want_reset ch ≢ 0
      → await_reset bus meanwhile ch (suc n) i s
        ≡ await_reset bus meanwhile ch n (suc i) (in_world (bus.usleep 100000) (meanwhile i s))
  unfolding await_reset
  await_reset-later ch n i s h = ground (arith, h)

  -- When one of the looks finds nothing to reset, the waiting ends with success.
  await_reset-ok :
      (ch k n i : ℕ) (s : Mpgts D)
      → i ≤ k
      → k < i + n
      → ((t : Mpgts D) → (meanwhile k t).shared.want_reset ch ≡ 0)
      → (u : Mpgts D) × (u.shared.want_reset ch ≡ 0)
        × (await_reset bus meanwhile ch n i s ≡ ok tt u)
  await_reset-ok ch k zero i s g h clears = absurd (omega (arith, g, h))
  await_reset-ok ch k (suc n) i s g h clears =
      elim (Bool-cases ((meanwhile i s).shared.want_reset ch == 0)) [
        | inl c ↦
            let now = ==→eq ((meanwhile i s).shared.want_reset ch) 0 c in
            (meanwhile i s, now, await_reset-now ch n i s now)
        | inr c ↦
            let later : (meanwhile i s).shared.want_reset ch ≢ 0 = ground (arith, c) in
            let other : i ≢ k = λ e.
              later (subst (λ x. (meanwhile x s).shared.want_reset ch ≡ 0) (sym e) (clears s)) in
            let (u, zeroth, ends) =
              await_reset-ok ch k n (suc i) (in_world (bus.usleep 100000) (meanwhile i s))
                (omega (arith, g, other)) (omega (arith, h)) clears in
            (u, zeroth, await_reset-later ch n i s later ∙ ends)
      ]

  start_ts-waits :
      (ip ch : ℕ) (s u : Mpgts D)
      → ch < 2
      → await_reset bus meanwhile ch 3 0 (ask_reset ch s) ≡ ok tt u
      → start_ts bus meanwhile ip ch s ≡ begin_stream bus meanwhile ip ch u
  unfolding start_ts
  start_ts-waits ip ch s u h e = ground (arith, h, e)

  Turns-clears :
      (k ch : ℕ)
      → ch < 2
      → Turns meanwhile k
      → (t : Mpgts D) → (meanwhile k t).shared.want_reset ch ≡ 0
  Turns-clears k zero h turns t =
      (thread_turn-Served (turns.turn t) t.shared (meanwhile k t).shared (turns.completes t)).first
  Turns-clears k (suc zero) h turns t =
      (thread_turn-Served (turns.turn t) t.shared (meanwhile k t).shared (turns.completes t)).second
  Turns-clears k (suc (suc n)) h turns t = absurd (omega (arith, h))

  -- When the thread completes a round before one of the three looks of start_ts, in whatever state it
  -- finds the receivers, then start_ts for either receiver does not give up: it starts the stream from a
  -- state in which the thread has taken the request.
  pub start_ts-begin_stream :
      (ip ch k : ℕ) (s : Mpgts D)
      → ch < 2
      → k < 3
      → Turns meanwhile k
      → (u : Mpgts D) × (u.shared.want_reset ch ≡ 0)
        × (start_ts bus meanwhile ip ch s ≡ begin_stream bus meanwhile ip ch u)
  start_ts-begin_stream ip ch k s h few turns =
      let (u, zeroth, ends) =
        await_reset-ok ch k 3 0 (ask_reset ch s) (omega arith) (omega (arith, few))
          (Turns-clears k ch h turns) in
      (u, zeroth, start_ts-waits ip ch s u h ends)
