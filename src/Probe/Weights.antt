-- ===== src/Probe/Weights.antt =====
-- What a receiver that is tuned counts for (main.cpp, `do_item`), and what holds when a call succeeds.
use seztuner.Prelude.{
  ℕ, zero, suc, ◌+◌, ◌≤◌, ◌<◌, ◌≡◌, ◌≢◌, refl, subst, arith, List, [], ◌∷◌, ◌++◌, Option, none,
  some, Bool, true, false, ◌==◌, if◌then◌else◌,
}
use seztuner.Run.{Run, ok, fail, stuck, M, bind, ok-injective}
use seztuner.Tuner.{Tuner}
use seztuner.Probe.{Probe, with_tuner, release, keep_strong, occupy}

-- The sum of the weights of a list.
abbrev pub total : (ℕ → ℕ) → List ℕ → ℕ
total w [] = 0
total w (x ∷ l) = w x + total w l

pub total-append : (w : ℕ → ℕ) (k : List ℕ) (x : ℕ) → total w (k ++ x ∷ []) ≡ total w k + w x
total-append w [] x = omega arith
total-append w (y ∷ k) x = omega (arith, total-append w k x)

-- What a receiver that is tuned may still contribute.
abbrev pub held : {D : Type 0} → (ℕ → ℕ) → ℕ → Probe D → ℕ
held w ch s = if s.end ch == 0 then 0 else w (s.endch ch)

abbrev pub weight : {D : Type 0} → (ℕ → ℕ) → Probe D → ℕ
weight w s = total w s.strongch + held w 0 s + held w 1 s

-- What holds of the value and the state when a call succeeds.
abbrev pub Gives : {S A : Type 0} → (A → S → Type 0) → Run S A → Type 0
Gives {S} {A} P r = (a : A) (t : S) → r ≡ ok a t → P a t

pub bind-Gives :
    {S A B : Type 0} (P : A → S → Type 0) (Q : B → S → Type 0) (r : Run S A) (f : A → M S B)
    → Gives P r
    → ((a : A) (t : S) → P a t → Gives Q (f a t))
    → Gives Q (bind r f)
bind-Gives P Q (ok a s) f h k = k a s (h a s refl)
bind-Gives P Q (fail s) f h k = λ b t e. absurd (ground (arith, e))
bind-Gives P Q stuck f h k = λ b t e. absurd (ground (arith, e))

pub ok-Gives : {S A : Type 0} (P : A → S → Type 0) (a : A) (s : S) → P a s → Gives P (ok a s)
ok-Gives P a s h b t e =
    let (same, states) = ok-injective a b s t e in
    subst (λ x. P x t) same (subst (λ x. P a x) states h)

fail-Gives : {S A : Type 0} (P : A → S → Type 0) (s : S) → Gives P (fail s)
fail-Gives P s a t e = absurd (ground (arith, e))

pub if-Gives :
    {S A : Type 0} (P : A → S → Type 0) (b : Bool) (x y : Run S A)
    → (b ≡ true → Gives P x)
    → (b ≡ false → Gives P y)
    → Gives P (if b then x else y)
if-Gives P true x y h k = h refl
if-Gives P false x y h k = k refl

pub choose-Gives :
    {S A : Type 0} (P : A → S → Type 0) (b : Bool) (x y : Run S A)
    → (b ≡ true → Gives P x)
    → (b ≡ false → Gives P y)
    → Gives P (elim b [ true ↦ x | false ↦ y ])
choose-Gives P true x y h k = h refl
choose-Gives P false x y h k = k refl

pub Option-Gives :
    {S A B : Type 0} (P : B → S → Type 0) (o : Option A) (x : Run S B) (f : A → Run S B)
    → (o ≡ none → Gives P x)
    → ((a : A) → o ≡ some a → Gives P (f a))
    → Gives P (elim o [ none ↦ x | some a ↦ f a ])
Option-Gives P none x f h k = h refl
Option-Gives P (some a) x f h k = k a refl

with_tuner-kept :
    {D A : Type 0} (m : M (Tuner D) A) (s : Probe D) (a : A) (t : Probe D)
    → with_tuner m s ≡ ok a t
    → (t.end ≡ s.end) × (t.endch ≡ s.endch) × (t.strongch ≡ s.strongch)
with_tuner-kept m s a t e = ground (arith, e)

module _ {D : Type 0} (w : ℕ → ℕ) (n : ℕ) where
  abbrev pub Below : {A : Type 0} → A → Probe D → Type 0
  Below a s = weight w s ≤ n

  pub release-Below : (ch : ℕ) (s : Probe D) → ch < 2 → weight w s ≤ n → weight w (release ch s) ≤ n
  unfolding release
  release-Below zero s h k = ground (arith, k)
  release-Below (suc zero) s h k = ground (arith, k)
  release-Below (suc (suc ch)) s h k = absurd (omega (arith, h))

  pub strong-Below :
      (ch : ℕ) (s : Probe D)
      → ch < 2
      → s.end ch ≢ 0
      → weight w s ≤ n
      → weight w (release ch (keep_strong ch s)) ≤ n
  unfolding release keep_strong
  strong-Below zero s h busy k =
      let more = total-append w s.strongch (s.endch 0) in ground (arith, k, busy, more)
  strong-Below (suc zero) s h busy k =
      let more = total-append w s.strongch (s.endch 1) in ground (arith, k, busy, more)
  strong-Below (suc (suc ch)) s h busy k = absurd (omega (arith, h))

  pub kept-Below :
      {A : Type 0} (m : M (Tuner D) A) (s : Probe D)
      → weight w s ≤ n
      → Gives (λ a t. (weight w t ≤ n) × (t.end ≡ s.end)) (with_tuner m s)
  kept-Below m s h a t e =
      let (end, endch, strongch) = with_tuner-kept m s a t e in
      (ground (arith, h, end, endch, strongch), end)

pub occupy-Below :
    {D : Type 0} (w : ℕ → ℕ) (n ch cur_ms tvch : ℕ) (s : Probe D)
    → ch < 2
    → s.end ch ≡ 0
    → weight w s ≤ n
    → weight w (occupy ch cur_ms tvch s) ≤ n + w tvch
unfolding occupy
occupy-Below w n zero cur_ms tvch s h free k = ground (arith, k, free)
occupy-Below w n (suc zero) cur_ms tvch s h free k = ground (arith, k, free)
occupy-Below w n (suc (suc ch)) cur_ms tvch s h free k = absurd (omega (arith, h))
