-- ===== src/Tuner/Scan/Visits.antt =====
-- Which channels a pass of `scan` (tuner.cpp) visits.
use seztuner.Prelude.{
  ℕ, zero, suc, ◌+◌, ◌-◌, ◌≤◌, ◌<◌, ◌≡◌, ◌≢◌, inl, inr, refl, subst, arith, List, [], ◌∷◌, some,
  Bool, true, ◌&&◌, leb, ◌==◌, ==→eq, Bool-cases,
}
use seztuner.Tuner.Scan.{scan_at}
use seztuner.Tuner.Scan.Order.{IsChannel}
use seztuner.Tuner.Scan.Rounds.{count, positions, visits}

abbrev once : List ℕ → ℕ → Bool
once l zero = true
once l (suc n) = (count (n + 2) l == 1) && once l n

once-count : (l : List ℕ) (n c : ℕ) → once l n ≡ true → c < n → count (c + 2) l ≡ 1
once-count l zero c h k = absurd (omega (arith, k))
once-count l (suc n) c h k = elim (Bool-cases (c == n)) [
  | inl e ↦ let same : c ≡ n = ==→eq c n e in rw same (ground (arith, h))
  | inr e ↦ once-count l n c (ground (arith, h)) (ground (arith, e, k))
]

abbrev in_range : List ℕ → Bool
in_range [] = true
in_range (x ∷ l) = leb 2 x && leb x 51 && in_range l

in_range-IsChannel : (l : List ℕ) (x : ℕ) → in_range l ≡ true → count x l ≢ 0 → IsChannel x
in_range-IsChannel [] x h k = absurd (k refl)
in_range-IsChannel (y ∷ l) x h k = elim (Bool-cases (x == y)) [
  | inl e ↦ let same : x ≡ y = ==→eq x y e in rw same (ground (arith, h))
  | inr e ↦ in_range-IsChannel l x (ground (arith, h)) (λ z. k (ground (arith, e, z)))
]

abbrev pub rounds : List ℕ
rounds =
    0 ∷ 4 ∷ 8 ∷ 12 ∷ 16 ∷ 20 ∷ 24 ∷ 28 ∷ 32 ∷ 36 ∷ 40 ∷ 44 ∷ 48 ∷ 1 ∷ 5 ∷ 9 ∷ 13 ∷ 17 ∷ 21 ∷ 25 ∷ 29
    ∷ 33 ∷ 37 ∷ 41 ∷ 45 ∷ 49 ∷ []

pub all_rounds : positions 27 0 ≡ some rounds
unfolding scan_at
all_rounds = refl

pub visits-range : (x : ℕ) → count x (visits rounds) ≢ 0 → IsChannel x
visits-range x h = in_range-IsChannel (visits rounds) x refl h

pub visits-once : (x : ℕ) → IsChannel x → count x (visits rounds) ≡ 1
visits-once x (low, high) =
    let here : count ((x - 2) + 2) (visits rounds) ≡ 1 =
      once-count (visits rounds) 50 (x - 2) refl (omega (arith, low, high)) in
    subst (λ y. count y (visits rounds) ≡ 1) (omega (arith, low)) here

at_most_one : (n : ℕ) → (n ≢ 0 → n ≡ 1) → n ≤ 1
at_most_one zero h = omega arith
at_most_one (suc n) h =
    let one : suc n ≡ 1 = h (λ e. absurd (omega (arith, e))) in omega (arith, one)

pub visits_distinct : (x : ℕ) → count x (visits rounds) ≤ 1
visits_distinct x = at_most_one (count x (visits rounds)) (λ h. visits-once x (visits-range x h))
