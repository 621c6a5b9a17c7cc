-- ===== src/Mpgts/Invariant.antt =====
-- What the receiving thread keeps of both receivers (mpgts.cpp, `thread_main`).
use seztuner.Prelude.{
  ℕ, ◌≡◌, if◌then◌else◌, refl, sym, subst, arith, List, [], ◌∷◌, Bool, true, false, ◌==◌,
  Bool-cases, inl, inr, not, update,
}
use seztuner.Atsc.Memory.{Memory, Atsc, Ret, done, failed, runaway}
use seztuner.Atsc.Demux.{init, demux_all}
use seztuner.Mpgts.Thread.{
  Receivers, Select, broken, timeout, readable, Received, lost, datagram, Turn, Status, going,
  returned, hung, next, set_atsc, with_atsc, clear, serve_reset, packets_from, take_datagram,
  receive, serve_resets, after_select, thread_turn, thread_main,
}

module _ (P : Atsc → Type 0) where
  -- It holds of both receivers.
  pub record BothHold (s : Receivers) : Type 0 where
    pub of : (i : ℕ) → P (s.atsc i)

  -- Neither a reset nor a datagram of this round ends it.
  pub record Keeps (turn : Turn) : Type 0 where
    pub reset : (i : ℕ) (a : Atsc) → P a → P (init (turn.init_env i) a).0
    pub packets :
        (i r : ℕ) (rx : Memory) (a : Atsc)
        → turn.received i ≡ datagram r rx
        → P a
        → P (demux_all (packets_from (turn.packet_env i) rx r 12 r) a).0

  abbrev pub AllKeep : List Turn → Type 0
  AllKeep [] = Unit {0}
  AllKeep (turn ∷ rest) = Keeps turn × AllKeep rest

  pub set_atsc-BothHold :
      (i : ℕ) (a : Atsc) (s : Receivers) → P a → BothHold s → BothHold (set_atsc i a s)
  set_atsc-BothHold i a s h k = record {
    of = λ j. elim (Bool-cases (i == j)) [
      | inl e ↦ let same : update s.atsc i a j ≡ a = ground (arith, e) in subst P (sym same) h
      | inr e ↦
          let other : update s.atsc i a j ≡ s.atsc j = ground (arith, e) in
          subst P (sym other) (k.of j)
    ];
  }

  pub with_atsc-BothHold :
      (i : ℕ) (s : Receivers) (r : Atsc × Ret) → P r.0 → BothHold s → BothHold (with_atsc i s r).0
  with_atsc-BothHold i s (a, done) h k = set_atsc-BothHold i a s h k
  with_atsc-BothHold i s (a, failed) h k = set_atsc-BothHold i a s h k
  with_atsc-BothHold i s (a, runaway) h k = set_atsc-BothHold i a s h k

  pub next-BothHold :
      (r : Receivers × Status) (k : Receivers → Receivers × Status)
      → BothHold r.0
      → ((s : Receivers) → BothHold s → BothHold (k s).0)
      → BothHold (next r k).0
  next-BothHold (s, going) k h step = step s h
  next-BothHold (s, returned) k h step = h
  next-BothHold (s, hung) k h step = h

  if-BothHold :
      (b : Bool) (x y : Receivers × Status)
      → BothHold x.0
      → BothHold y.0
      → BothHold (if b then x else y).0
  if-BothHold true x y h k = h
  if-BothHold false x y h k = k

  serve_reset-BothHold :
      (turn : Turn) (i : ℕ) (s : Receivers)
      → Keeps turn
      → BothHold s
      → BothHold (serve_reset turn i s).0
  unfolding serve_reset clear
  serve_reset-BothHold turn i s keeps h = if-BothHold (s.want_reset i == 0) _ _ h (
      with_atsc-BothHold i (clear i s) (init (turn.init_env i) (s.atsc i))
        (keeps.reset i (s.atsc i) (h.of i)) (record { of = h.of }))

  pub take_datagram-BothHold :
      (turn : Turn) (i : ℕ) (d : Received) (s : Receivers)
      → Keeps turn
      → turn.received i ≡ d
      → BothHold s
      → BothHold (take_datagram turn i d s).0
  unfolding take_datagram
  take_datagram-BothHold turn i lost s keeps e h = h
  take_datagram-BothHold turn i (datagram r rx) s keeps e h = if-BothHold (r == 0) _ _ h (
      if-BothHold (not (r == 1328)) _ _ h (
        with_atsc-BothHold i s (demux_all (packets_from (turn.packet_env i) rx r 12 r) (s.atsc i))
          (keeps.packets i r rx (s.atsc i) e (h.of i)) h))

  receive-BothHold :
      (turn : Turn) (set : ℕ → Bool) (i : ℕ) (s : Receivers)
      → Keeps turn
      → BothHold s
      → BothHold (receive turn set i s).0
  unfolding receive
  receive-BothHold turn set i s keeps h =
      if-BothHold (set i) _ _ (take_datagram-BothHold turn i (turn.received i) s keeps refl h) h

  serve_resets-BothHold :
      (turn : Turn) (s : Receivers) → Keeps turn → BothHold s → BothHold (serve_resets turn s).0
  unfolding serve_resets
  serve_resets-BothHold turn s keeps h =
      next-BothHold (serve_reset turn 0 s) (serve_reset turn 1)
        (serve_reset-BothHold turn 0 s keeps h) (λ t k. serve_reset-BothHold turn 1 t keeps k)

  after_select-BothHold :
      (turn : Turn) (sel : Select) (s : Receivers)
      → Keeps turn
      → BothHold s
      → BothHold (after_select turn sel s).0
  after_select-BothHold turn broken s keeps h = h
  after_select-BothHold turn timeout s keeps h = serve_resets-BothHold turn s keeps h
  after_select-BothHold turn (readable set) s keeps h =
      next-BothHold (next (serve_resets turn s) (receive turn set 0)) (receive turn set 1)
        (next-BothHold (serve_resets turn s) (receive turn set 0)
          (serve_resets-BothHold turn s keeps h) (λ t k. receive-BothHold turn set 0 t keeps k))
        (λ t k. receive-BothHold turn set 1 t keeps k)

  pub thread_turn-BothHold :
      (turn : Turn) (s : Receivers) → Keeps turn → BothHold s → BothHold (thread_turn turn s).0
  unfolding thread_turn
  thread_turn-BothHold turn s keeps h = after_select-BothHold turn turn.select s keeps h

  pub thread_main-BothHold :
      (turns : List Turn) (s : Receivers)
      → AllKeep turns
      → BothHold s
      → BothHold (thread_main turns s).0
  unfolding thread_main
  thread_main-BothHold [] s keeps h = h
  thread_main-BothHold (turn ∷ rest) s keeps h =
      next-BothHold (thread_turn turn s) (thread_main rest) (thread_turn-BothHold turn s keeps.0 h)
        (λ t k. thread_main-BothHold rest t keeps.1 k)
