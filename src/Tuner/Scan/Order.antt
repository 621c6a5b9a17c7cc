-- ===== src/Tuner/Scan/Order.antt =====
-- Lists of channels in order, and what `qsort` does with them (tuner.cpp).
use seztuner.Prelude.{
  ℕ, suc, ◌+◌, ◌≤◌, ◌<◌, ◌≡◌, ◌≢◌, inl, inr, refl, sym, subst, arith, List, [], ◌∷◌, Bool-cases,
  All, length, ==→eq, ◌==◌,
}
use seztuner.Tuner.Scan.Rounds.{count}

-- In ascending order, each only once.
abbrev pub Ascends : List ℕ → Type 0
Ascends [] = Unit {0}
Ascends (x ∷ l) = All (λ y. x < y) l × Ascends l

abbrev pub Sorted : List ℕ → Type 0
Sorted [] = Unit {0}
Sorted (x ∷ l) = All (λ y. x ≤ y) l × Sorted l

-- What `qsort` does with a list of numbers.
pub record Sorts (qsort : List ℕ → List ℕ) : Type 0 where
  pub sorted : (l : List ℕ) → Sorted (qsort l)
  pub same : (l : List ℕ) (x : ℕ) → count x (qsort l) ≡ count x l
  pub size : (l : List ℕ) → length (qsort l) ≡ length l

abbrev pub IsChannel : ℕ → Type 0
IsChannel c = (2 ≤ c) × (c ≤ 51)

-- From counts to the list.
pub All-count : {P : ℕ → Type 0} (l : List ℕ) → ((x : ℕ) → count x l ≢ 0 → P x) → All P l
All-count [] h = tt
All-count (x ∷ l) h =
    (h x (λ e. absurd (ground (arith, e))), All-count l (λ y k. h y (λ e. k (omega (arith, e)))))

count-All : (P : ℕ → Type 0) (l : List ℕ) (x : ℕ) → All P l → count x l ≢ 0 → P x
count-All P [] x h k = absurd (k refl)
count-All P (y ∷ l) x (h, hs) k = elim (Bool-cases (x == y)) [
  | inl e ↦ subst P (sym (==→eq x y e)) h
  | inr e ↦ count-All P l x hs (λ z. k (ground (arith, e, z)))
]

pub Sorted-Ascends : (l : List ℕ) → Sorted l → ((x : ℕ) → count x l ≤ 1) → Ascends l
Sorted-Ascends [] s h = tt
Sorted-Ascends (x ∷ l) (below, s) h = (
  All-count l
      (λ y k. let le : x ≤ y = count-All (λ z. x ≤ z) l y below k in ground (arith, le, h y, k)),
  Sorted-Ascends l s (λ y. omega (arith, h y)),
)

-- An ascending list of channels from `low` on.
pub Ascends-length :
    (l : List ℕ) (low : ℕ)
    → low ≤ 52
    → Ascends l
    → All (λ y. low ≤ y) l
    → All IsChannel l
    → length l + low ≤ 52
Ascends-length [] low h a b c = omega (arith, h)
Ascends-length (x ∷ l) low h (above, a) (le, b) ((least, most), cs) =
    let rest : length l + suc x ≤ 52 = Ascends-length l (suc x) (omega (arith, most)) a above cs in
    omega (arith, rest, le)
