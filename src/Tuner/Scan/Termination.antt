-- ===== src/Tuner/Scan/Termination.antt =====
-- That `scan` (tuner.cpp) comes to an end.
use seztuner.Prelude.{
  ℕ, zero, suc, ◌≡◌, ◌≢◌, ◌≤◌, refl, sym, subst, arith, List, [], Option, Bool, true, false,
  if◌then◌else◌, bit_and,
}
use seztuner.Run.{Run, ok, fail, stuck, M, bind}
use seztuner.Socket.Bus.{Bus}
use seztuner.Socket.Registers.{get_demod8, set_demod8}
use seztuner.Tuner.{Antenna, nc, ant1, ant2, coax, Tuner, on_dev}
use seztuner.Tuner.Scan.{
  save_12a, undo_12a, on_fail, switch_antenna, pick_antenna, report, scan_pass, next_antenna,
  scan_done, scan_antennas, scan_from, scan,
}
use seztuner.Tuner.Scan.Visits.{rounds, all_rounds}
use seztuner.Tuner.Scan.Ending.{
  Ends, Answers, ok-Ends, on_dev-Ends, bind-Ends, get_demod8-Ends, set_demod8-Ends,
}
use seztuner.Tuner.Scan.Steady.{Steady, bind-Steady, ok-Steady, on_dev-Steady, set_antenna-Steady}
use seztuner.Tuner.Scan.Passes.{
  scan_pass-Steady, on_fail-Steady, undo_12a-Steady, switch_antenna-Steady, report-antenna,
}

module _ {D : Type 0} (bus : Bus D) (live : Answers bus) (behind : ℕ → ℕ)
    (cb : Option (ℕ → ℕ → D → D)) where
  -- How many antennas are left to try.
  abbrev left : Antenna → ℕ
  left nc = 4
  left ant1 = 3
  left ant2 = 2
  left coax = 1

  relay-Ends :
      {ant : Antenna} {A B : Type 0} (r : Run (Tuner D) A) (f : A → M (Tuner D) B)
      → Steady ant r
      → ((a : A) (t : Tuner D) → t.active_ant ≡ ant → Ends (f a t))
      → Ends (bind r f)
  relay-Ends (ok a t) f h k = k a t (h.keeps a t refl)
  relay-Ends (fail t) f h k = λ e. absurd (ground (arith, e))
  relay-Ends stuck f h k = absurd (h.ends refl)

  if-Ends :
      {A : Type 0} (b : Bool) (x y : Run (Tuner D) A)
      → (b ≡ true → Ends x)
      → (b ≡ false → Ends y)
      → Ends (elim b [ true ↦ x | false ↦ y ])
  if-Ends true x y h k = h refl
  if-Ends false x y h k = k refl

  scan_done-left :
      (n : ℕ) (ant_valid : Bool) (find : List ℕ) (s : Tuner D)
      → scan_done bus behind cb ant_valid find s ≡ false
      → (ant_valid ≡ false → left s.active_ant ≤ suc n)
      → (1 ≤ n) × (left (next_antenna s.active_ant) ≤ n)
  unfolding scan_done
  scan_done-left n ant_valid find s h l = ground (arith, h, l)

  scan_antennas-Ends :
      (n cr_ms : ℕ) (ant_valid : Bool) (old0 old1 : ℕ) (find : List ℕ) (ant : Antenna) (s : Tuner D)
      → s.active_ant ≡ ant
      → 1 ≤ n
      → (ant_valid ≡ false → left ant ≤ n)
      → Ends (scan_antennas bus behind cb n cr_ms ant_valid old0 old1 find s)
  unfolding scan_antennas
  scan_antennas-Ends zero cr_ms ant_valid old0 old1 find ant s h k l = absurd (omega (arith, k))
  scan_antennas-Ends (suc n) cr_ms ant_valid old0 old1 find ant s h k l =
      relay-Ends
        (on_fail (scan_pass bus behind cb 27 cr_ms ant_valid 0 find s)
          (undo_12a bus behind old0 old1))
        _
        (on_fail-Steady bus live behind cb (scan_pass bus behind cb 27 cr_ms ant_valid 0 find s)
          (undo_12a bus behind old0 old1)
          (scan_pass-Steady bus live behind cb 27 cr_ms ant_valid 0 find rounds s all_rounds h)
          (λ u. undo_12a-Steady bus live behind cb old0 old1 u))
        (λ found t m.
          if-Ends (scan_done bus behind cb ant_valid found t) _ _ (λ c. ok-Ends found t)
            (λ c.
              let (more, fewer) =
                scan_done-left n ant_valid found t c
                  (subst (λ a. ant_valid ≡ false → left a ≤ suc n) (sym m) l) in
              relay-Ends (switch_antenna bus behind t) _
                (switch_antenna-Steady bus live behind cb t m)
                (λ _ u p.
                  scan_antennas-Ends n cr_ms ant_valid old0 old1 found (next_antenna ant) u p more
                    (λ v. subst (λ a. left (next_antenna a) ≤ n) m fewer))))

  save_12a-Steady :
      {ant : Antenna} (j : ℕ) (s : Tuner D)
      → s.active_ant ≡ ant
      → Steady ant (save_12a bus behind j s)
  unfolding save_12a
  save_12a-Steady j s h =
      bind-Steady (on_dev (get_demod8 bus j 0x12a) s) _
        (on_dev-Steady (get_demod8 bus j 0x12a) s (get_demod8-Ends bus live j 0x12a s.dev) h)
        (λ old t k.
          bind-Steady (on_dev (set_demod8 bus j 0x12a (bit_and old 0xdf)) t) _
            (on_dev-Steady (set_demod8 bus j 0x12a (bit_and old 0xdf)) t
              (set_demod8-Ends bus live j 0x12a (bit_and old 0xdf) t.dev) k)
            (λ _ u l. ok-Steady old u l))

  restore-Ends :
      (old0 old1 : ℕ) (list : List ℕ) (s : Tuner D)
      → Ends (
          bind
            (on_dev (set_demod8 bus 0 0x12a old0) s)
            (λ _ t. bind (on_dev (set_demod8 bus 1 0x12a old1) t) (λ _ u. ok list u)))
  restore-Ends old0 old1 list s =
      bind-Ends (on_dev (set_demod8 bus 0 0x12a old0) s) _
        (on_dev-Ends (set_demod8 bus 0 0x12a old0) s (set_demod8-Ends bus live 0 0x12a old0 s.dev))
        (λ _ t.
          bind-Ends (on_dev (set_demod8 bus 1 0x12a old1) t) _
            (on_dev-Ends (set_demod8 bus 1 0x12a old1) t
              (set_demod8-Ends bus live 1 0x12a old1 t.dev))
            (λ _ u. ok-Ends list u))

  scan_from-Ends :
      (qsort : List ℕ → List ℕ) (ant_valid : Bool) (cr_ms : ℕ) (s : Tuner D)
      → (ant_valid ≡ false → s.active_ant ≡ ant1)
      → Ends (scan_from bus behind cb qsort (ant_valid, cr_ms) s)
  unfolding scan_from
  scan_from-Ends qsort ant_valid cr_ms s h =
      let begin = report bus behind cb 0 ant_valid [] s in
      relay-Ends (save_12a bus behind 0 begin) _
        (save_12a-Steady 0 begin (report-antenna bus live behind cb 0 ant_valid [] s))
        (λ old0 t k. relay-Ends (save_12a bus behind 1 t) _ (save_12a-Steady 1 t k) (λ old1 u l.
          bind-Ends (scan_antennas bus behind cb 3 cr_ms ant_valid old0 old1 [] u) _
            (scan_antennas-Ends 3 cr_ms ant_valid old0 old1 [] s.active_ant u l (omega arith)
              (λ v. subst (λ a. left a ≤ 3) (sym (h v)) (omega arith)))
            (λ find v. restore-Ends old0 old1 (qsort find) v)))

  pick_antenna-Ends : (cr_ms : ℕ) (s : Tuner D) → Ends (pick_antenna bus behind cr_ms s)
  unfolding pick_antenna
  pick_antenna-Ends cr_ms s =
      let moves = (set_antenna-Steady bus live behind ant1 s).ends in ground (arith, moves)

  pick_antenna-ant1 :
      (cr_ms wait : ℕ) (s t : Tuner D)
      → pick_antenna bus behind cr_ms s ≡ ok (false, wait) t
      → t.active_ant ≡ ant1
  unfolding pick_antenna
  pick_antenna-ant1 cr_ms wait s t e =
      let steady = set_antenna-Steady bus live behind ant1 s in
      let kept = steady.keeps tt t in ground (arith, e, kept)

  granted :
      (b : Bool) (r : Run (Tuner D) (List ℕ)) (t : Tuner D)
      → Ends r
      → Ends (if b then r else fail t)
  granted true r t h = h
  granted false r t h = λ e. absurd (ground (arith, e))

  -- When every request to the tuner comes back, with or without success, a scan ends within its fuel,
  -- which is 26 rounds in a pass and three antennas, whatever the tuner answers.
  pub scan_ends :
      (qsort : List ℕ → List ℕ) (malloc_ok : Bool) (cr_ms : ℕ) (s : Tuner D)
      → scan bus behind cb qsort malloc_ok cr_ms s ≢ stuck
  unfolding scan
  scan_ends qsort malloc_ok cr_ms s = after (pick_antenna bus behind cr_ms s) refl
    where
      two : true ≢ false
      two v = ground (arith, v)

      after :
          (r : Run (Tuner D) (Bool × ℕ))
          → pick_antenna bus behind cr_ms s ≡ r
          → Ends (
              bind r
                (λ picked t. if malloc_ok then scan_from bus behind cb qsort picked t else fail t))
      after (ok (true, wait) t) e =
          granted malloc_ok _ t (scan_from-Ends qsort true wait t (λ v. absurd (two v)))
      after (ok (false, wait) t) e =
          granted malloc_ok _ t
            (scan_from-Ends qsort false wait t (λ v. pick_antenna-ant1 cr_ms wait s t e))
      after (fail t) e = λ z. absurd (ground (arith, z))
      after stuck e = absurd (pick_antenna-Ends cr_ms s e)
