-- ===== src/Mpgts/Handshake/Safety.antt =====
-- That the receiver was reset when `start_ts` (mpgts.cpp) goes on.
use seztuner.Prelude.{ℕ, ◌≡◌, ◌≢◌, ◌⊎◌, refl, arith, true, false}
use seztuner.Atsc.Memory.{Atsc}
use seztuner.Mpgts.Handshake.{
  stopped, clearing, reading, through, Both, Step, select, select_fails, no_request, request, reset,
  reset_fails, timeout, nothing_read, packets, packets_fail, read_fails, ask, look_passes,
  look_waits, give_up, start, opened, Reach, begin, later,
}

-- A reset that is owed is still asked for, or is being made, or the thread is gone.
abbrev pub IsOwed : ℕ → Both → Type 0
IsOwed ch s = (s.want_reset ch ≢ 0) ⊎ ((s.place ≡ clearing ch) ⊎ (s.place ≡ stopped))

pub record Sound (s : Both) : Type 0 where
  pub owing : (ch : ℕ) → s.owed ch ≡ true → IsOwed ch s
  pub passed : (ch : ℕ) → s.caller ≡ through ch → s.want_reset ch ≡ 0

opened-Sound : (atsc : ℕ → Atsc) → Sound (opened atsc)
opened-Sound atsc = record { owing = λ ch e. absurd (ground (arith, e)); passed = λ ch e. refl }

Step-owing :
    (s t : Both)
    → Step s t
    → ((ch : ℕ) → s.owed ch ≡ true → IsOwed ch s)
    → (ch : ℕ) → t.owed ch ≡ true
    → IsOwed ch t
Step-owing s _ (select e) h ch o = let was = h ch in ground (arith, was, e, o)
Step-owing s _ (select_fails e) h ch o = let was = h ch in ground (arith, was, e, o)
Step-owing s _ (no_request i e z) h ch o = let was = h ch in ground (arith, was, e, o, z)
Step-owing s _ (request i e z) h ch o = let was = h ch in ground (arith, was, e, o)
Step-owing s _ (reset i env e d) h ch o = let was = h ch in ground (arith, was, e, o)
Step-owing s _ (reset_fails i env e d) h ch o = let was = h ch in ground (arith, was, e, o)
Step-owing s _ (timeout e) h ch o = let was = h ch in ground (arith, was, e, o)
Step-owing s _ (nothing_read i e) h ch o = let was = h ch in ground (arith, was, e, o)
Step-owing s _ (packets i l e d) h ch o = let was = h ch in ground (arith, was, e, o)
Step-owing s _ (packets_fail i l e d) h ch o = let was = h ch in ground (arith, was, e, o)
Step-owing s _ (read_fails i e) h ch o = let was = h ch in ground (arith, was, e, o)
Step-owing s _ (ask c old e k) h ch o = let was = h ch in ground (arith, was, e, o)
Step-owing s _ (look_passes c i e k z) h ch o = let was = h ch in ground (arith, was, e, o)
Step-owing s _ (look_waits c i e k z) h ch o = let was = h ch in ground (arith, was, e, o)
Step-owing s _ (give_up c e) h ch o = let was = h ch in ground (arith, was, e, o)
Step-owing s _ (start c tvch e) h ch o = let was = h ch in ground (arith, was, e, o)

Step-passed :
    (s t : Both)
    → Step s t
    → ((ch : ℕ) → s.caller ≡ through ch → s.want_reset ch ≡ 0)
    → (ch : ℕ) → t.caller ≡ through ch
    → t.want_reset ch ≡ 0
Step-passed s _ (select e) h ch o = h ch o
Step-passed s _ (select_fails e) h ch o = h ch o
Step-passed s _ (no_request i e z) h ch o = h ch o
Step-passed s _ (request i e z) h ch o = let was = h ch o in ground (arith, was)
Step-passed s _ (reset i env e d) h ch o = h ch o
Step-passed s _ (reset_fails i env e d) h ch o = h ch o
Step-passed s _ (timeout e) h ch o = h ch o
Step-passed s _ (nothing_read i e) h ch o = h ch o
Step-passed s _ (packets i l e d) h ch o = h ch o
Step-passed s _ (packets_fail i l e d) h ch o = h ch o
Step-passed s _ (read_fails i e) h ch o = h ch o
Step-passed s _ (ask c old e k) h ch o = absurd (ground (arith, o))
Step-passed s _ (look_passes c i e k z) h ch o = ground (arith, o, z)
Step-passed s _ (look_waits c i e k z) h ch o = absurd (ground (arith, o))
Step-passed s _ (give_up c e) h ch o = absurd (ground (arith, o))
Step-passed s _ (start c tvch e) h ch o = absurd (ground (arith, o))

Reach-Sound : (atsc : ℕ → Atsc) (s : Both) → Reach atsc s → Sound s
Reach-Sound atsc s begin = opened-Sound atsc
Reach-Sound atsc _ (later {s} {t} r step) =
    let h = Reach-Sound atsc s r in
    record { owing = Step-owing s t step h.owing; passed = Step-passed s t step h.passed }

-- In every interleaving of the thread's and the caller's steps from the thread's start, whenever
-- start_ts is behind its waiting loop and the thread is at a socket, the reset of that receiver has been
-- made since it was asked for.
pub start_ts_reset :
    (atsc : ℕ → Atsc) (s : Both) (ch i : ℕ)
    → Reach atsc s
    → s.caller ≡ through ch
    → s.place ≡ reading i
    → s.owed ch ≡ false
start_ts_reset atsc s ch i r there at =
    let h = Reach-Sound atsc s r in
    let zeroth = h.passed ch there in let owing = h.owing ch in ground (arith, zeroth, owing, at)
