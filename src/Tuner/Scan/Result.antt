-- ===== src/Tuner/Scan/Result.antt =====
-- The list of channels that `scan` (tuner.cpp) hands out.
use seztuner.Prelude.{
  ℕ, zero, suc, ◌≤◌, ◌<◌, ◌≡◌, ◌≢◌, inl, inr, sym, ap, subst, ◌∙◌, arith, List, [], Option, Bool,
  true, false, if◌then◌else◌, length, length-append, Bool-cases, All,
}
use seztuner.Run.{Run, ok, fail, stuck, M, bind, bind-ok, ok-injective}
use seztuner.Socket.Bus.{Bus}
use seztuner.Socket.Registers.{set_demod8}
use seztuner.Tuner.{is_nc, Tuner, on_dev}
use seztuner.Tuner.Scan.{
  save_12a, undo_12a, on_fail, switch_antenna, pick_antenna, report, scan_pass, scan_done,
  scan_antennas, scan_from, scan,
}
use seztuner.Tuner.Scan.Order.{
  Ascends, Sorted, Sorts, IsChannel, Sorted-Ascends, All-count, Ascends-length,
}
use seztuner.Tuner.Scan.Rounds.{count, visits, Adds, Locks, scan_pass-Adds}
use seztuner.Tuner.Scan.Visits.{rounds, all_rounds, visits-range, visits-once, visits_distinct}

module _ {D : Type 0} (bus : Bus D) (behind : ℕ → ℕ) (cb : Option (ℕ → ℕ → D → D)) where
  on_fail-ok :
      {S A : Type 0} (r : Run S A) (k : M S A) (a : A) (t : S)
      → ((u : S) → k u ≢ ok a t)
      → on_fail r k ≡ ok a t
      → r ≡ ok a t
  on_fail-ok (ok b s) k a t h e = e
  on_fail-ok (fail s) k a t h e = absurd (h s e)
  on_fail-ok stuck k a t h e = e

  undo_12a_fails :
      (old0 old1 : ℕ) (s t : Tuner D) (l : List ℕ) → undo_12a bus behind old0 old1 s ≢ ok l t
  unfolding undo_12a
  undo_12a_fails old0 old1 s t l e = ground (arith, e)

  -- Once more around the outer `for`.
  try_next : ℕ → ℕ → Bool → ℕ → ℕ → List ℕ → M (Tuner D) (List ℕ)
  try_next n cr_ms ant_valid old0 old1 found t = elim (scan_done bus behind cb ant_valid found t) [
    | true ↦ ok found t
    | false ↦
        bind (switch_antenna bus behind t)
          λ _ u. scan_antennas bus behind cb n cr_ms ant_valid old0 old1 found u
  ]

  scan_antennas-pass :
      (n cr_ms : ℕ) (ant_valid : Bool) (old0 old1 : ℕ) (find found : List ℕ) (s t : Tuner D)
      → scan_antennas bus behind cb (suc n) cr_ms ant_valid old0 old1 find s ≡ ok found t
      → (mid : List ℕ) × (u : Tuner D) × Adds (Locks bus) find mid (visits rounds)
        × (try_next n cr_ms ant_valid old0 old1 mid u ≡ ok found t)
  unfolding scan_antennas try_next
  scan_antennas-pass n cr_ms ant_valid old0 old1 find found s t e =
      let (mid, u, first, rest) =
        bind-ok
          (on_fail (scan_pass bus behind cb 27 cr_ms ant_valid 0 find s)
            (undo_12a bus behind old0 old1))
          (try_next n cr_ms ant_valid old0 old1) found t e in
      (
        mid,
        u,
        scan_pass-Adds bus behind cb 27 cr_ms ant_valid 0 rounds find mid s u all_rounds (
            on_fail-ok (scan_pass bus behind cb 27 cr_ms ant_valid 0 find s)
              (undo_12a bus behind old0 old1) mid u (λ v. undo_12a_fails old0 old1 v u mid) first),
        rest,
      )

  -- With a fixed antenna there is one pass.
  scan_antennas-fixed :
      (n cr_ms old0 old1 : ℕ) (found : List ℕ) (s t : Tuner D)
      → scan_antennas bus behind cb (suc n) cr_ms true old0 old1 [] s ≡ ok found t
      → Adds (Locks bus) [] found (visits rounds)
  unfolding try_next scan_done
  scan_antennas-fixed n cr_ms old0 old1 found s t e =
      let (mid, u, adds, rest) = scan_antennas-pass n cr_ms true old0 old1 [] found s t e in
      let last : ok mid u ≡ ok found t = ground (arith, rest) in
      subst (λ l. Adds (Locks bus) [] l (visits rounds)) (ok-injective mid found u t last).0 adds

  no_fuel :
      (cr_ms : ℕ) (ant_valid : Bool) (old0 old1 : ℕ) (find found : List ℕ) (s t : Tuner D)
      → scan_antennas bus behind cb 0 cr_ms ant_valid old0 old1 find s ≢ ok found t
  unfolding scan_antennas
  no_fuel cr_ms ant_valid old0 old1 find found s t e = ground (arith, e)

  -- The list grows by at most 50 on each antenna, and there is another one only after less than three.
  scan_antennas_bound :
      (n cr_ms : ℕ) (ant_valid : Bool) (old0 old1 : ℕ) (find found : List ℕ) (s t : Tuner D)
      → length find < 3
      → scan_antennas bus behind cb n cr_ms ant_valid old0 old1 find s ≡ ok found t
      → length found ≤ 52
  unfolding try_next scan_done
  scan_antennas_bound zero cr_ms ant_valid old0 old1 find found s t h e =
      absurd (no_fuel cr_ms ant_valid old0 old1 find found s t e)
  scan_antennas_bound (suc n) cr_ms ant_valid old0 old1 find found s t h e =
      let (mid, u, adds, rest) = scan_antennas-pass n cr_ms ant_valid old0 old1 find found s t e in
      let small : length mid ≤ 52 =
        omega (arith, h, adds.shorter, ap length adds.behind, length-append find adds.added) in
      elim (Bool-cases (scan_done bus behind cb ant_valid mid u)) [
        | inl c ↦
            let last : ok mid u ≡ ok found t = ground (arith, rest, c) in
            subst (λ l. length l ≤ 52) (ok-injective mid found u t last).0 small
        | inr c ↦
            let few : length mid < 3 = ground (arith, c) in
            let again : bind (switch_antenna bus behind u)
                  (λ _ v. scan_antennas bus behind cb n cr_ms ant_valid old0 old1 mid v)
                ≡ ok found t =
              ground (arith, rest, c) in
            let (x, v, switched, later) =
              bind-ok (switch_antenna bus behind u)
                (λ _ v. scan_antennas bus behind cb n cr_ms ant_valid old0 old1 mid v) found t
                again in
            scan_antennas_bound n cr_ms ant_valid old0 old1 mid found v t few later
      ]

  -- The list that is sorted in the end.
  scan_from-antennas :
      (qsort : List ℕ → List ℕ) (ant_valid : Bool) (cr_ms : ℕ) (list : List ℕ) (s t : Tuner D)
      → scan_from bus behind cb qsort (ant_valid, cr_ms) s ≡ ok list t
      → (find : List ℕ) × (old0 old1 : ℕ) × (u v : Tuner D) × (list ≡ qsort find)
        × (scan_antennas bus behind cb 3 cr_ms ant_valid old0 old1 [] u ≡ ok find v)
  unfolding scan_from
  scan_from-antennas qsort ant_valid cr_ms list s t e =
      let begin = report bus behind cb 0 ant_valid [] s in
      let (old0, a, saved0, e1) = bind-ok (save_12a bus behind 0 begin) _ list t e in
      let (old1, b, saved1, e2) = bind-ok (save_12a bus behind 1 a) _ list t e1 in
      let (find, c, scanned, e3) =
        bind-ok (scan_antennas bus behind cb 3 cr_ms ant_valid old0 old1 [] b) _ list t e2 in
      let (x, d, back0, e4) = bind-ok (on_dev (set_demod8 bus 0 0x12a old0) c) _ list t e3 in
      let (y, f, back1, e5) = bind-ok (on_dev (set_demod8 bus 1 0x12a old1) d) _ list t e4 in
      (find, old0, old1, b, c, sym (ok-injective (qsort find) list f t e5).0, scanned)

  scan-scan_from :
      (qsort : List ℕ → List ℕ) (malloc_ok : Bool) (cr_ms : ℕ) (list : List ℕ) (s t : Tuner D)
      → scan bus behind cb qsort malloc_ok cr_ms s ≡ ok list t
      → (ant_valid : Bool) × (wait : ℕ) × (u : Tuner D) × (pick_antenna bus behind cr_ms s
          ≡ ok (ant_valid, wait) u)
        × (scan_from bus behind cb qsort (ant_valid, wait) u ≡ ok list t)
  unfolding scan
  scan-scan_from qsort malloc_ok cr_ms list s t e =
      let (picked, u, first, rest) =
        bind-ok (pick_antenna bus behind cr_ms s)
          (λ picked t. if malloc_ok then scan_from bus behind cb qsort picked t else fail t) list t
          e in
      (picked.0, picked.1, u, first, ground (arith, rest))

  pick_antenna-fixed :
      (cr_ms wait : ℕ) (ant_valid : Bool) (s t : Tuner D)
      → is_nc s.active_ant ≡ false
      → pick_antenna bus behind cr_ms s ≡ ok (ant_valid, wait) t
      → ant_valid ≡ true
  unfolding pick_antenna
  pick_antenna-fixed cr_ms wait ant_valid s t h e = ground (arith, h, e)

  module _ (qsort : List ℕ → List ℕ) (sorts : Sorts qsort) where
    -- What a scan with a fixed antenna has collected.
    scan-fixed :
        (malloc_ok : Bool) (cr_ms : ℕ) (list : List ℕ) (s t : Tuner D)
        → is_nc s.active_ant ≡ false
        → scan bus behind cb qsort malloc_ok cr_ms s ≡ ok list t
        → (find : List ℕ) × (list ≡ qsort find) × Adds (Locks bus) [] find (visits rounds)
    scan-fixed malloc_ok cr_ms list s t h e =
        let (ant_valid, wait, u, picked, scanned) =
          scan-scan_from qsort malloc_ok cr_ms list s t e in
        let (find, old0, old1, v, w, same, found) =
          scan_from-antennas qsort ant_valid wait list u t scanned in
        let fixed = pick_antenna-fixed cr_ms wait ant_valid s u h picked in
        (
          find,
          same,
          scan_antennas-fixed 2 wait old0 old1 find v w (
              subst (λ b. scan_antennas bus behind cb 3 wait b old0 old1 [] v ≡ ok find w) fixed
                found),
        )

    counted :
        (find list : List ℕ)
        → list ≡ qsort find
        → Adds (Locks bus) [] find (visits rounds)
        → (x : ℕ) → count x list ≤ count x (visits rounds)
    counted find list same adds x =
        omega (arith, adds.among x, sorts.same find x, ap (count x) same, ap (count x) adds.behind)

    -- When a scan with a fixed antenna succeeds, and qsort sorts its input in place, then the channels
    -- that it hands out are between 2 and 51, in ascending order, each only once, and at most the 50
    -- that were allocated.
    pub scan-Ascends :
        (malloc_ok : Bool) (cr_ms : ℕ) (list : List ℕ) (s t : Tuner D)
        → is_nc s.active_ant ≡ false
        → scan bus behind cb qsort malloc_ok cr_ms s ≡ ok list t
        → Ascends list × All IsChannel list × (length list ≤ 50)
    scan-Ascends malloc_ok cr_ms list s t h e =
        let (find, same, adds) = scan-fixed malloc_ok cr_ms list s t h e in
        let few = counted find list same adds in
        let ascends =
          Sorted-Ascends list (subst Sorted (sym same) (sorts.sorted find))
            (λ x. omega (arith, few x, visits_distinct x)) in
        let channels = All-count list (λ x k. visits-range x (λ z. k (omega (arith, few x, z)))) in
        let least = All-count list (λ x k. (visits-range x (λ z. k (omega (arith, few x, z)))).0) in
        let size = Ascends-length list 2 (omega arith) ascends least channels in
        (ascends, channels, omega (arith, size))

    -- When each demodulator says that it has locked whenever it is asked, a scan with a fixed antenna
    -- that succeeds, with a qsort that sorts its input in place, hands out each channel from 2 to 51
    -- exactly once.
    pub scan_complete :
        (malloc_ok : Bool) (cr_ms : ℕ) (list : List ℕ) (s t : Tuner D)
        → is_nc s.active_ant ≡ false
        → Locks bus
        → scan bus behind cb qsort malloc_ok cr_ms s ≡ ok list t
        → (c : ℕ) → IsChannel c
        → count c list ≡ 1
    scan_complete malloc_ok cr_ms list s t h locks e c k =
        let (find, same, adds) = scan-fixed malloc_ok cr_ms list s t h e in
        ap (count c) (same)
        ∙ sorts.same find c
        ∙ ap (count c) (adds.behind ∙ adds.whole locks)
        ∙ visits-once c k

    -- Whatever antennas a scan tries, when it succeeds, and qsort sorts its input in place, it hands out
    -- at most 52 channels; the buffer has room for 50.
    scan_bound :
        (malloc_ok : Bool) (cr_ms : ℕ) (list : List ℕ) (s t : Tuner D)
        → scan bus behind cb qsort malloc_ok cr_ms s ≡ ok list t
        → length list ≤ 52
    scan_bound malloc_ok cr_ms list s t e =
        let (ant_valid, wait, u, picked, scanned) =
          scan-scan_from qsort malloc_ok cr_ms list s t e in
        let (find, old0, old1, v, w, same, found) =
          scan_from-antennas qsort ant_valid wait list u t scanned in
        omega (
          arith,
          sorts.size find,
          ap length same,
          scan_antennas_bound 3 wait ant_valid old0 old1 [] find v w (omega arith) found,
        )
