-- ===== src/Crc/Burst.antt =====
-- Which damage `tuner_calc_crc` (socket.cpp) detects.
use native.Mathlib.Nat.{pow-suc, one-le-pow}
use seztuner.Prelude.{
  ℕ, zero, suc, ◌+◌, ◌-◌, ◌*◌, ◌/◌, ◌^◌, ◌≤◌, ◌<◌, bit_xor, List, [], ◌∷◌, ◌++◌, All, ◌≡◌, ◌≢◌,
  refl, sym, ap, ap₂, length, ◌∙◌, arith, IsByte, ltb, if◌then◌else◌,
}
use seztuner.Bits.Xor.{
  xor_assoc, xor_comm, xor_cancel, xor-pow, xor_disjoint, xor_div, xor-zero, zero-xor,
}
use seztuner.Crc.{tuner_crc_byte, tuner_crc_loop, tuner_calc_crc}
use seztuner.Crc.Serial.{shift_right, clocks}
use seztuner.Crc.Reflected.{tuner_crc_byte-clocks, clocks-xor, doublings}

shift_right-lt : (c : ℕ) → c < 2 ^ 32 → shift_right c < 2 ^ 32
unfolding shift_right
shift_right-lt c h = xor-pow 32 (c / 2) _ (omega arith) (ground arith)

-- The top bit of the register tells which bit was shifted out.
poly_top : (c : ℕ) → c < 2 ^ 31 → 2 ^ 31 ≤ bit_xor c 0xedb88320
poly_top c h =
    let top : bit_xor c 0xedb88320 / 2 ^ 31 ≡ 1 =
      xor_div 31 c 0xedb88320 ∙ ap (λ t. bit_xor t 1) {y = 0} (omega arith) in
    omega (arith, top)

unshift : ℕ → ℕ
unshift r = if ltb r (2 ^ 31) then 2 * r else 2 * bit_xor r 0xedb88320 + 1

unshift-shift_right : (c : ℕ) → c < 2 ^ 32 → unshift (shift_right c) ≡ c
unfolding unshift shift_right
unshift-shift_right c h =
    ground (arith, xor-zero (c / 2), poly_top (c / 2), xor_cancel (c / 2) 0xedb88320)

clocks-injective :
    (n a b : ℕ) → a < 2 ^ 32 → b < 2 ^ 32 → clocks shift_right n a ≡ clocks shift_right n b → a ≡ b
clocks-injective zero a b h k e = e
clocks-injective (suc n) a b h k e =
    sym (unshift-shift_right a h)
    ∙ ap unshift (clocks-injective n _ _ (shift_right-lt a h) (shift_right-lt b k) e)
    ∙ unshift-shift_right b k

-- The register after as many bytes as `n` counts.
byte_clocks : ℕ → ℕ → ℕ
byte_clocks zero c = c
byte_clocks (suc n) c = byte_clocks n (clocks shift_right 8 c)

clocks-lt : (n c : ℕ) → c < 2 ^ 32 → clocks shift_right n c < 2 ^ 32
clocks-lt zero c h = h
clocks-lt (suc n) c h = clocks-lt n (shift_right c) (shift_right-lt c h)

byte_clocks-injective :
    (n a b : ℕ) → a < 2 ^ 32 → b < 2 ^ 32 → byte_clocks n a ≡ byte_clocks n b → a ≡ b
unfolding byte_clocks
byte_clocks-injective zero a b h k e = e
byte_clocks-injective (suc n) a b h k e =
    clocks-injective 8 a b h k (byte_clocks-injective n _ _ (clocks-lt 8 a h) (clocks-lt 8 b k) e)

-- Bytes as a number, the first lowest.
word : List ℕ → ℕ
word [] = 0
word (b ∷ bs) = word bs * 256 + b

word-lt : (n : ℕ) (w : List ℕ) → length w ≤ n → All IsByte w → word w < 256 ^ n
unfolding word
word-lt zero [] l h = omega arith
word-lt zero (b ∷ bs) l h = elim l [ ]
word-lt (suc n) [] l h = one-le-pow (suc n) 256 (omega arith)
word-lt (suc n) (b ∷ bs) l (hb, hs) = omega (arith, pow-suc 256 n, word-lt n bs (omega arith) hs)

word-injective :
    (w v : List ℕ) → length w ≡ length v → All IsByte w → All IsByte v → word w ≡ word v → w ≡ v
unfolding word
word-injective [] [] l h k e = refl
word-injective [] (c ∷ cs) l h k e = absurd (omega arith)
word-injective (b ∷ bs) [] l h k e = absurd (omega arith)
word-injective (b ∷ bs) (c ∷ cs) l (hb, hs) (hc, ks) e =
    let first : b ≡ c = omega arith in
    let rest : bs ≡ cs = word-injective bs cs (omega arith) hs ks (omega arith) in
    ap₂ (λ x xs. x ∷ xs) first rest

-- Bytes that enter one after the other do what their word does at once.
tuner_crc_loop-word :
    (w : List ℕ) (c : ℕ)
    → All IsByte w
    → tuner_crc_loop c w ≡ byte_clocks (length w) (bit_xor (word w) c)
unfolding tuner_crc_loop byte_clocks word
tuner_crc_loop-word [] c h = sym (zero-xor c)
tuner_crc_loop-word (b ∷ bs) c (hb, hs) =
    let split : bit_xor (doublings 8 (word bs)) (bit_xor b c) ≡ bit_xor (word bs * 256 + b) c =
      ap (λ t. bit_xor t (bit_xor b c)) {y = word bs * 256} (omega arith)
      ∙ sym (xor_assoc (word bs * 256) b c)
      ∙ ap (λ t. bit_xor t c) (xor_disjoint 8 (word bs) b hb) in
    rw
      (tuner_crc_byte-clocks c b hb, tuner_crc_loop-word bs (clocks shift_right 8 (bit_xor c b)) hs)
      (ap (byte_clocks (length bs)) (
        ap (λ t. bit_xor (word bs) (clocks shift_right 8 t)) (xor_comm c b)
        ∙ sym (clocks-xor 8 (word bs) (bit_xor b c))
        ∙ ap (clocks shift_right 8) split))

tuner_crc_byte-lt : (c b : ℕ) → c < 2 ^ 32 → IsByte b → tuner_crc_byte c b < 2 ^ 32
tuner_crc_byte-lt c b l hb =
    rw (tuner_crc_byte-clocks c b hb) (clocks-lt 8 (bit_xor c b) (xor-pow 32 c b l (omega arith)))

pub tuner_crc_loop-lt :
    (w : List ℕ) (c : ℕ) → c < 2 ^ 32 → All IsByte w → tuner_crc_loop c w < 2 ^ 32
unfolding tuner_crc_loop
tuner_crc_loop-lt [] c l h = l
tuner_crc_loop-lt (b ∷ bs) c l (hb, hs) =
    tuner_crc_loop-lt bs (tuner_crc_byte c b) (tuner_crc_byte-lt c b l hb) hs

tuner_crc_loop-append :
    (xs ys : List ℕ) (c : ℕ) → tuner_crc_loop c (xs ++ ys) ≡ tuner_crc_loop (tuner_crc_loop c xs) ys
unfolding tuner_crc_loop
tuner_crc_loop-append [] ys c = refl
tuner_crc_loop-append (x ∷ xs) ys c = tuner_crc_loop-append xs ys (tuner_crc_byte c x)

-- The register tells two states apart after any further bytes.
tuner_crc_loop-injective :
    (w : List ℕ) (c d : ℕ)
    → c < 2 ^ 32
    → d < 2 ^ 32
    → All IsByte w
    → tuner_crc_loop c w ≡ tuner_crc_loop d w
    → c ≡ d
unfolding tuner_crc_loop
tuner_crc_loop-injective [] c d l k h e = e
tuner_crc_loop-injective (b ∷ bs) c d l k (hb, hs) e =
    let e' : clocks shift_right 8 (bit_xor c b) ≡ clocks shift_right 8 (bit_xor d b) =
      sym (tuner_crc_byte-clocks c b hb)
      ∙ tuner_crc_loop-injective bs (tuner_crc_byte c b) (tuner_crc_byte d b)
          (tuner_crc_byte-lt c b l hb) (tuner_crc_byte-lt d b k hb) hs e
      ∙ tuner_crc_byte-clocks d b hb in
    sym (xor_cancel c b)
    ∙ ap (λ t. bit_xor t b)
        (clocks-injective 8 _ _ (xor-pow 32 c b l (omega arith)) (xor-pow 32 d b k (omega arith))
          e')
    ∙ xor_cancel d b

words_agree :
    (w v : List ℕ) (c : ℕ)
    → c < 2 ^ 32
    → All IsByte w
    → All IsByte v
    → length w ≡ length v
    → length w ≤ 4
    → tuner_crc_loop c w ≡ tuner_crc_loop c v
    → w ≡ v
words_agree w v c l hw hv same short e =
    let state : byte_clocks (length w) (bit_xor (word w) c)
        ≡ byte_clocks (length w) (bit_xor (word v) c) =
      sym (tuner_crc_loop-word w c hw)
      ∙ e
      ∙ tuner_crc_loop-word v c hv
      ∙ ap (λ n. byte_clocks n (bit_xor (word v) c)) (sym same) in
    let w-lt : bit_xor (word w) c < 2 ^ 32 = xor-pow 32 _ c (word-lt 4 w short hw) l in
    let v-lt : bit_xor (word v) c < 2 ^ 32 = xor-pow 32 _ c (word-lt 4 v (omega arith) hv) l in
    let masked : bit_xor (word w) c ≡ bit_xor (word v) c =
      byte_clocks-injective (length w) _ _ w-lt v-lt state in
    word-injective w v same hw hv
      (sym (xor_cancel (word w) c) ∙ ap (λ t. bit_xor t c) masked ∙ xor_cancel (word v) c)

-- Damage confined to at most four bytes in a row is always detected: of two buffers of bytes that differ
-- only there, and have the same length, the checksums differ.
pub tuner_calc_crc_detects_burst :
    (front w v back : List ℕ)
    → All IsByte front
    → All IsByte w
    → All IsByte v
    → All IsByte back
    → length w ≡ length v
    → length w ≤ 4
    → w ≢ v
    → tuner_calc_crc (front ++ w ++ back) ≢ tuner_calc_crc (front ++ v ++ back)
unfolding tuner_calc_crc
tuner_calc_crc_detects_burst front w v back hf hw hv hb same short differ e =
    let c = tuner_crc_loop (2 ^ 32 - 1) front in
    let c-lt : c < 2 ^ 32 = tuner_crc_loop-lt front (2 ^ 32 - 1) (omega arith) hf in
    let total = λ (u : List ℕ). tuner_crc_loop (2 ^ 32 - 1) (front ++ u ++ back) in
    let after : (u : List ℕ) → total u ≡ tuner_crc_loop (tuner_crc_loop c u) back = λ u.
      tuner_crc_loop-append (front ++ u) back (2 ^ 32 - 1)
      ∙ ap (λ t. tuner_crc_loop t back) (tuner_crc_loop-append front u (2 ^ 32 - 1)) in
    let bound : (u : List ℕ) → All IsByte u → total u < 2 ^ 32 =
      λ u h. rw (after u) (tuner_crc_loop-lt back _ (tuner_crc_loop-lt u c c-lt h) hb) in
    let same_end : total w ≡ total v = omega (arith, e, bound w hw, bound v hv) in
    let same_mid : tuner_crc_loop c w ≡ tuner_crc_loop c v =
      tuner_crc_loop-injective back _ _ (tuner_crc_loop-lt w c c-lt hw)
        (tuner_crc_loop-lt v c c-lt hv) hb (sym (after w) ∙ same_end ∙ after v) in
    differ (words_agree w v c c-lt hw hv same short same_mid)
