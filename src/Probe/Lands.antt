-- ===== src/Probe/Lands.antt =====
-- Calls that come back.
use seztuner.Prelude.{Bool, true, false, ◌≡◌, ◌≢◌, refl, arith, if◌then◌else◌}
use seztuner.Run.{Run, ok, fail, stuck, M, bind}

-- The call comes back, and this holds when it succeeds.
abbrev pub Lands : {S A : Type 0} → (A → S → Type 0) → Run S A → Type 0
Lands Q (ok a t) = Q a t
Lands Q (fail t) = Unit {0}
Lands Q stuck = ⊥

pub bind-Lands :
    {S A B : Type 0} (Q : A → S → Type 0) (R : B → S → Type 0) (r : Run S A) (f : A → M S B)
    → Lands Q r
    → ((a : A) (t : S) → Q a t → Lands R (f a t))
    → Lands R (bind r f)
bind-Lands Q R (ok a t) f h k = k a t h
bind-Lands Q R (fail t) f h k = h
bind-Lands Q R stuck f h k = h

pub if-Lands :
    {S A : Type 0} (Q : A → S → Type 0) (b : Bool) (x y : Run S A)
    → (b ≡ true → Lands Q x)
    → (b ≡ false → Lands Q y)
    → Lands Q (if b then x else y)
if-Lands Q true x y h k = h refl
if-Lands Q false x y h k = k refl

pub choose-Lands :
    {S A : Type 0} (Q : A → S → Type 0) (b : Bool) (x y : Run S A)
    → (b ≡ true → Lands Q x)
    → (b ≡ false → Lands Q y)
    → Lands Q (elim b [ true ↦ x | false ↦ y ])
choose-Lands Q true x y h k = h refl
choose-Lands Q false x y h k = k refl

pub map-Lands :
    {S A : Type 0} (Q R : A → S → Type 0) (r : Run S A)
    → Lands Q r
    → ((a : A) (t : S) → Q a t → R a t)
    → Lands R r
map-Lands Q R (ok a t) h k = k a t h
map-Lands Q R (fail t) h k = h
map-Lands Q R stuck h k = h

pub lands : {S A : Type 0} (Q : A → S → Type 0) (r : Run S A) → Lands Q r → r ≢ stuck
lands Q (ok a t) h e = ground (arith, e)
lands Q (fail t) h e = ground (arith, e)
lands Q stuck h e = h
