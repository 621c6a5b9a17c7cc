-- ===== src/Mpgts/Handshake.antt =====
-- `thread_main` and `start_ts` (mpgts.cpp) interleaved, store by store.
pub mod Safety
use seztuner.Prelude.{ℕ, zero, suc, ◌+◌, ◌<◌, ◌≡◌, ◌≢◌, List, Bool, true, false, update}
use seztuner.Atsc.Memory.{Memory, Atsc, Env, Ret, done, failed}
use seztuner.Atsc.Demux.{init, demux_all}

-- Where the thread is: in `pselect`; at the test of `want_reset[i]`; behind the store to it, with `init` ahead; at the
-- socket `i`; or it has returned.
pub data Place : Type 0 where
  selecting stopped : Place
  testing clearing reading : ℕ → Place

-- Where the caller of `start_ts(ch)` is: elsewhere; before the look number `i`; or behind the loop.
pub data Caller : Type 0 where
  elsewhere : Caller
  waiting : ℕ → ℕ → Caller
  through : ℕ → Caller

-- `owed` is no member: it tells of each receiver whether a reset that was asked for has not been made yet.
pub record Both : Type 0 where
  pub atsc : ℕ → Atsc
  pub want_reset : ℕ → ℕ
  pub place : Place
  pub caller : Caller
  pub owed : ℕ → Bool

-- The loops over the two receivers.
abbrev pub after_test : ℕ → Place
after_test zero = testing 1
after_test (suc i) = reading 0

abbrev pub after_read : ℕ → Place
after_read zero = reading 1
after_read (suc i) = selecting

pub data Step (s : Both) : Both → Type 0 where
  -- the thread
  select : s.place ≡ selecting → Step s (record s { place = testing 0 })
  select_fails : s.place ≡ selecting → Step s (record s { place = stopped })
  no_request :
      (i : ℕ)
      → s.place ≡ testing i
      → s.want_reset i ≡ 0
      → Step s (record s { place = after_test i })
  request :
      (i : ℕ)
      → s.place ≡ testing i
      → s.want_reset i ≢ 0
      → Step s (record s { place = clearing i; want_reset = update s.want_reset i 0 })
  reset :
      (i : ℕ) (env : Env)
      → s.place ≡ clearing i
      → (init env (s.atsc i)).1 ≡ done
      → Step s (record s {
        place = after_test i;
        atsc = update s.atsc i (init env (s.atsc i)).0;
        owed = update s.owed i false;
      })
  reset_fails :
      (i : ℕ) (env : Env)
      → s.place ≡ clearing i
      → (init env (s.atsc i)).1 ≡ failed
      → Step s (record s { place = stopped; atsc = update s.atsc i (init env (s.atsc i)).0 })
  timeout : s.place ≡ reading 0 → Step s (record s { place = selecting })
  nothing_read : (i : ℕ) → s.place ≡ reading i → Step s (record s { place = after_read i })
  packets :
      (i : ℕ) (l : List (Env × Memory))
      → s.place ≡ reading i
      → (demux_all l (s.atsc i)).1 ≡ done
      → Step s
          (record s { place = after_read i; atsc = update s.atsc i (demux_all l (s.atsc i)).0 })
  packets_fail :
      (i : ℕ) (l : List (Env × Memory))
      → s.place ≡ reading i
      → (demux_all l (s.atsc i)).1 ≡ failed
      → Step s (record s { place = stopped; atsc = update s.atsc i (demux_all l (s.atsc i)).0 })
  read_fails : (i : ℕ) → s.place ≡ reading i → Step s (record s { place = stopped })
  -- the caller of `start_ts`, whose increment reads `old` before it stores
  ask :
      (ch old : ℕ)
      → s.caller ≡ elsewhere
      → ch < 2
      → Step s (record s {
        caller = waiting ch 0;
        want_reset = update s.want_reset ch (old + 1);
        owed = update s.owed ch true;
      })
  look_passes :
      (ch i : ℕ)
      → s.caller ≡ waiting ch i
      → i < 3
      → s.want_reset ch ≡ 0
      → Step s (record s { caller = through ch })
  look_waits :
      (ch i : ℕ)
      → s.caller ≡ waiting ch i
      → i < 3
      → s.want_reset ch ≢ 0
      → Step s (record s { caller = waiting ch (suc i) })
  give_up : (ch : ℕ) → s.caller ≡ waiting ch 3 → Step s (record s { caller = elsewhere })
  start :
      (ch tvch : ℕ)
      → s.caller ≡ through ch
      → Step s (record s {
        caller = elsewhere;
        atsc = update s.atsc ch (record (s.atsc ch) { tvch = tvch });
      })

-- The thread has just been created, with both receivers initialised.
abbrev pub opened : (ℕ → Atsc) → Both
opened atsc = record {
  atsc = atsc;
  want_reset = λ i. 0;
  place = selecting;
  caller = elsewhere;
  owed = λ i. false;
}

pub data Reach (atsc : ℕ → Atsc) : Both → Type 0 where
  begin : Reach atsc (opened atsc)
  later : {s t : Both} → Reach atsc s → Step s t → Reach atsc t
