-- ===== src/Tuner/Gpio.antt =====
-- The fields of the word that `set_amp` (tuner.cpp) writes to the GPIO port. It takes the number of an input
-- where the table `amp_gpio` has the bits of its amplifier.
use native.Mathlib.Nat.{mod-mod}
use seztuner.Prelude.{
  ℕ, zero, suc, ◌≤◌, ◌<◌, ◌-◌, ◌*◌, ◌/◌, ◌^◌, ◌≡◌, ◌↔◌, refl, sym, ◌∙◌, arith, Bool, true, false,
  ◌&&◌, not, ◌==◌, ==→eq, bit_and, bit_or, if◌then◌else◌,
}
use seztuner.Bits.Digits.{or_step}
use seztuner.Bits.Masks.{and-zero, and_mask}
use seztuner.Bits.Fields.{or_div, and_div, field, field-or, field-and}
use seztuner.Tuner.{
  Amp, off, vhf1, vhf2, uhf1, uhf2, external, number, filter_ch0, filter_ch1, amp_gpio, gpio_word,
}

unfoldable for_all : (Amp → Bool) → Bool
for_all p = p off && p vhf1 && p vhf2 && p uhf1 && p uhf2 && p external

for_all-true : (p : Amp → Bool) (a : Amp) → for_all p ≡ true → p a ≡ true
unfolding for_all
for_all-true p off h = ground arith
for_all-true p vhf1 h = ground arith
for_all-true p vhf2 h = ground arith
for_all-true p uhf1 h = ground arith
for_all-true p uhf2 h = ground arith
for_all-true p external h = ground arith

-- What the two inputs put into a field.
unfoldable inputs_field : ℕ → ℕ → Amp → Amp → ℕ
inputs_field i j u0 u1 =
    bit_or
      (bit_or (bit_or (bit_or 0 (field i j (number u0))) (field i j (number u1)))
        (field i j (filter_ch0 u0 * 2 ^ 8)))
      (field i j (filter_ch1 u1 * 2 ^ 11))

-- A field that the mask 0x80f0 clears depends on the inputs only.
cleared_field :
    (i j cur_gpio : ℕ) (u0 u1 : Amp)
    → field i j 0x80f0 ≡ 0
    → field i j (gpio_word cur_gpio u0 u1) ≡ inputs_field i j u0 u1
unfolding gpio_word inputs_field
cleared_field i j cur_gpio u0 u1 h = simp (field-or, field-and, h, and-zero)

-- Two functions of both inputs that agree at all of them.
same_inputs :
    (f g : Amp → Amp → ℕ)
    → for_all (λ a. for_all (λ b. f a b == g a b)) ≡ true
    → (u0 u1 : Amp) → f u0 u1 ≡ g u0 u1
same_inputs f g h u0 u1 = ==→eq (f u0 u1) (g u0 u1) (
    for_all-true (λ b. f u0 b == g u0 b) u1
      (for_all-true (λ a. for_all (λ b. f a b == g a b)) u0 h))

amps_table :
    for_all (λ a. for_all (λ b. inputs_field 0 4 a b == bit_or (number a) (number b))) ≡ true
unfolding for_all inputs_field field
amps_table = refl

-- What the two inputs put above bit 15.
unfoldable inputs_above : Amp → Amp → ℕ
inputs_above u0 u1 =
    bit_or
      (bit_or (bit_or (bit_or 0 (number u0 / 2 ^ 16)) (number u1 / 2 ^ 16))
        (filter_ch0 u0 * 2 ^ 8 / 2 ^ 16))
      (filter_ch1 u1 * 2 ^ 11 / 2 ^ 16)

above_table : for_all (λ a. for_all (λ b. inputs_above a b == 0)) ≡ true
unfolding for_all inputs_above
above_table = refl

gpio_word_above :
    (cur_gpio : ℕ) (u0 u1 : Amp) → gpio_word cur_gpio u0 u1 / 2 ^ 16 ≡ inputs_above u0 u1
unfolding gpio_word inputs_above
gpio_word_above cur_gpio u0 u1 = simp (or_div 16, and_div 16, and-zero)

gpio_word-lt : (cur_gpio : ℕ) (u0 u1 : Amp) → gpio_word cur_gpio u0 u1 < 65536
gpio_word-lt cur_gpio u0 u1 =
    let above : gpio_word cur_gpio u0 u1 / 2 ^ 16 ≡ 0 =
      gpio_word_above cur_gpio u0 u1 ∙ same_inputs inputs_above (λ a b. 0) above_table u0 u1 in
    omega (arith, above)

or-zero_within : (n a : ℕ) → a ≤ n → bit_or a 0 ≡ a
or-zero_within zero zero h = refl
or-zero_within zero (suc a) h = elim h [ ]
or-zero_within (suc n) a h = omega (arith, or_step a 0, or-zero_within n (a / 2) (omega arith))

or-zero : (a : ℕ) → bit_or a 0 ≡ a
or-zero a = or-zero_within a a (omega arith)

-- Nothing of the inputs is in this field.
unfoldable silent : ℕ → ℕ → Amp → Bool
silent i j a =
    field i j (number a) == 0
    && field i j (filter_ch0 a * 2 ^ 8) == 0
    && field i j (filter_ch1 a * 2 ^ 11) == 0

silent_fields :
    (i j : ℕ) (a : Amp)
    → silent i j a ≡ true
    → (field i j (number a) ≡ 0)
      × (field i j (filter_ch0 a * 2 ^ 8) ≡ 0)
      × (field i j (filter_ch1 a * 2 ^ 11) ≡ 0)
unfolding silent
silent_fields i j a h = ground (arith, h)

-- A field that the mask 0x80f0 keeps, and that no input touches.
kept_field :
    (i j cur_gpio : ℕ) (u0 u1 : Amp)
    → field i j 0x80f0 ≡ 2 ^ j - 1
    → for_all (silent i j) ≡ true
    → field i j (gpio_word cur_gpio u0 u1) ≡ field i j cur_gpio
unfolding gpio_word field
kept_field i j cur_gpio u0 u1 h quiet =
    let (n0, f0, _) = silent_fields i j u0 (for_all-true (silent i j) u0 quiet) in
    let (n1, _, f1) = silent_fields i j u1 (for_all-true (silent i j) u1 quiet) in
    let masked : bit_and (field i j cur_gpio) (2 ^ j - 1) ≡ field i j cur_gpio =
      and_mask j (field i j cur_gpio) ∙ mod-mod (cur_gpio / 2 ^ i) (2 ^ j) in
    simp (field-or, field-and, h, n0, n1, f0, f1, or-zero, masked)

middle_silent : for_all (silent 4 4) ≡ true
unfolding for_all silent field
middle_silent = refl

top_silent : for_all (silent 15 1) ≡ true
unfolding for_all silent field
top_silent = refl

-- Every input is off or `vhf1`, or they are `vhf1` and `uhf1`.
unfoldable pub right_amps : Amp → Amp → Bool
right_amps off off = true
right_amps off vhf1 = true
right_amps vhf1 off = true
right_amps vhf1 vhf1 = true
right_amps vhf1 uhf1 = true
right_amps uhf1 vhf1 = true
right_amps u0 u1 = false

unfoldable agrees : Amp → Amp → Bool
agrees u0 u1 =
    let same = bit_or (number u0) (number u1) == bit_or (amp_gpio u0) (amp_gpio u1) in
    if right_amps u0 u1 then same else not same

agrees_table : for_all (λ a. for_all (λ b. agrees a b)) ≡ true
unfolding for_all agrees right_amps
agrees_table = refl

agrees_iff :
    (u0 u1 : Amp)
    → agrees u0 u1 ≡ true
    → (bit_or (number u0) (number u1) ≡ bit_or (amp_gpio u0) (amp_gpio u1))
      ↔ (right_amps u0 u1 ≡ true)
unfolding agrees
agrees_iff u0 u1 h = ground (arith, h)

pub gpio_word_amps :
    (cur_gpio : ℕ) (u0 u1 : Amp)
    → (gpio_word cur_gpio u0 u1 < 65536)
      × (field 4 4 (gpio_word cur_gpio u0 u1) ≡ field 4 4 cur_gpio)
      × (field 15 1 (gpio_word cur_gpio u0 u1) ≡ field 15 1 cur_gpio)
      × ((field 0 4 (gpio_word cur_gpio u0 u1) ≡ bit_or (amp_gpio u0) (amp_gpio u1))
          ↔ (right_amps u0 u1 ≡ true))
gpio_word_amps cur_gpio u0 u1 =
    let low : field 0 4 (gpio_word cur_gpio u0 u1) ≡ bit_or (number u0) (number u1) =
      cleared_field 0 4 cur_gpio u0 u1 (unfold field in refl) ∙ same_inputs _ _ amps_table u0 u1 in
    let both =
      for_all-true (λ b. agrees u0 b) u1
        (for_all-true (λ a. for_all (λ b. agrees a b)) u0 agrees_table) in
    let (to, from) = agrees_iff u0 u1 both in
    (
      gpio_word-lt cur_gpio u0 u1,
      kept_field 4 4 cur_gpio u0 u1 (unfold field in refl) middle_silent,
      kept_field 15 1 cur_gpio u0 u1 (unfold field in refl) top_silent,
      (λ e. to (sym low ∙ e), λ e. low ∙ from e),
    )
