-- ===== src/Run.antt =====
-- The effect of a method that may fail: `ok` is `return 0` with what the method hands out, `fail` is
-- `return 1`, and `stuck` means that a loop ran out of fuel, or that a store left its block, where the
-- code is undefined. The state is kept on failure, since a C++ method that returns 1 has made its changes.
use seztuner.Prelude.{Bool, true, false, ◌≡◌, refl, ◌⊎◌, inl, inr, arith, if◌then◌else◌}

pub data Run (S A : Type 0) : Type 0 where
  ok : A → S → Run S A
  fail : S → Run S A
  stuck : Run S A

abbrev pub M : Type 0 → Type 0 → Type 0
M S A = S → Run S A

abbrev pub pure : {S A : Type 0} → A → M S A
pure a s = ok a s

abbrev pub error : {S A : Type 0} → M S A
error s = fail s

abbrev pub bind : {S A B : Type 0} → Run S A → (A → M S B) → Run S B
bind (ok a s) f = f a s
bind (fail s) f = fail s
bind stuck f = stuck

infixl 5 ◌>>=◌ ◌>>◌
abbrev pub ◌>>=◌ : {S A B : Type 0} → M S A → (A → M S B) → M S B
◌>>=◌ m f s = bind (m s) f

abbrev pub ◌>>◌ : {S B : Type 0} → M S (Unit {0}) → M S B → M S B
m >> k = m >>= λ _. k

-- `if (test) return 1;`
abbrev pub fail_if : {S : Type 0} → Bool → M S (Unit {0})
fail_if true s = fail s
fail_if false s = ok tt s

-- A chain that succeeds has succeeded so far.
pub bind-ok :
    {S A B : Type 0} (r : Run S A) (f : A → M S B) (b : B) (t : S)
    → bind r f ≡ ok b t
    → (a : A) × (s : S) × (r ≡ ok a s) × (f a s ≡ ok b t)
bind-ok (ok a s) f b t e = (a, s, refl, e)
bind-ok (fail s) f b t e = ground (arith, e)
bind-ok stuck f b t e = ground (arith, e)

pub ok-injective : {S A : Type 0} (a b : A) (s t : S) → ok a s ≡ ok b t → (a ≡ b) × (s ≡ t)
ok-injective a b s t e = ground (arith, e)

pub Run-cases :
    {S A : Type 0} (r : Run S A)
    → ((a : A) × (t : S) × (r ≡ ok a t)) ⊎ (((t : S) × (r ≡ fail t)) ⊎ (r ≡ stuck))
Run-cases (ok a t) = inl (a, t, refl)
Run-cases (fail t) = inr (inl (t, refl))
Run-cases stuck = inr (inr refl)

-- The call comes back, and this holds of the state that it leaves, with or without success.
abbrev pub Leaves : {S A : Type 0} → (S → Type 0) → Run S A → Type 0
Leaves P (ok a t) = P t
Leaves P (fail t) = P t
Leaves P stuck = ⊥

pub bind-Leaves :
    {S A B : Type 0} (P : S → Type 0) (r : Run S A) (f : A → M S B)
    → Leaves P r
    → ((a : A) (t : S) → P t → Leaves P (f a t))
    → Leaves P (bind r f)
bind-Leaves P (ok a t) f h k = k a t h
bind-Leaves P (fail t) f h k = h
bind-Leaves P stuck f h k = h

pub if-Leaves :
    {S A : Type 0} (P : S → Type 0) (b : Bool) (x y : Run S A)
    → Leaves P x
    → Leaves P y
    → Leaves P (if b then x else y)
if-Leaves P true x y h k = h
if-Leaves P false x y h k = k

pub fail_if-Leaves : {S : Type 0} (P : S → Type 0) (b : Bool) (s : S) → P s → Leaves P (fail_if b s)
fail_if-Leaves P true s h = h
fail_if-Leaves P false s h = h
