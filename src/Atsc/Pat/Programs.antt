-- ===== src/Atsc/Pat/Programs.antt =====
-- What the two loops of `parse_tbl` over the program association table leave in `pat` (mpgatsc.cpp).
use seztuner.Prelude.{
  ℕ, zero, suc, ◌+◌, ◌*◌, ◌^◌, ◌≤◌, ◌<◌, ◌≡◌, refl, sym, ap, ◌∙◌, ◌%◌, ◌⊎◌, inl, inr, leb,
  Bool-cases, arith, Option, none, some, Bool, ◌&&◌, true, ltb, ◌==◌, not, if◌then◌else◌,
}
use mathlib.Core.Option.{get_or}
use seztuner.Bits.Masks.{and_mask}
use seztuner.Atsc.Memory.{Memory, be16, update, Atsc, Env, done}
use seztuner.Atsc.Pat.{
  child_pid, scan_programs, fill_pat, entry_count, regrow_pat, store_programs, load_programs,
}

-- A block that is there was allocated for `pat_max` PIDs.
abbrev pub Sized : Atsc → Type 0
Sized s = (s.pat ≡ none) ⊎ (s.pat_block ≡ s.pat_max)

child_pid-mod : (pkt : Memory) (pos : ℕ) → child_pid pkt pos ≡ be16 pkt (pos + 2) % 2 ^ 13
child_pid-mod pkt pos = and_mask 13 (be16 pkt (pos + 2))

-- The PID that a table of `n` entries gives a program: the low thirteen bits of its last entry for it.
unfoldable pub last_pid : ℕ → Memory → ℕ → ℕ → Option ℕ
last_pid zero pkt pos prog = none
last_pid (suc n) pkt pos prog = elim (last_pid n pkt (pos + 4) prog) [
  | some p ↦ some p
  | none ↦ if be16 pkt pos == prog then some (be16 pkt (pos + 2) % 2 ^ 13) else none
]

-- All entries are for programs below `bound`.
unfoldable pub all_below_bound : ℕ → Memory → ℕ → ℕ → Bool
all_below_bound zero pkt pos bound = true
all_below_bound (suc n) pkt pos bound =
    ltb (be16 pkt pos) bound && all_below_bound n pkt (pos + 4) bound

scan_programs-le :
    (n : ℕ) (pkt : Memory) (pos pat_use pmt : ℕ)
    → pat_use ≤ (scan_programs n pkt pos pat_use pmt).pat_use
unfolding scan_programs
scan_programs-le zero pkt pos pat_use pmt = omega arith
scan_programs-le (suc n) pkt pos pat_use pmt = ground (
  arith,
  scan_programs-le n pkt (pos + 4) (if ltb pat_use (be16 pkt pos) then be16 pkt pos else pat_use)
      (if be16 pkt pos == 3 && not (child_pid pkt pos == 0) then child_pid pkt pos else pmt),
)

-- The first loop finds a bound for the second.
scan_programs-bound :
    (n : ℕ) (pkt : Memory) (pos pat_use pmt bound : ℕ)
    → (scan_programs n pkt pos pat_use pmt).pat_use < bound
    → all_below_bound n pkt pos bound ≡ true
unfolding scan_programs all_below_bound
scan_programs-bound zero pkt pos pat_use pmt bound h = refl
scan_programs-bound (suc n) pkt pos pat_use pmt bound h =
    let pat_use' = if ltb pat_use (be16 pkt pos) then be16 pkt pos else pat_use in
    let pmt' =
      if be16 pkt pos == 3 && not (child_pid pkt pos == 0) then child_pid pkt pos else pmt in
    ground (
      arith,
      scan_programs-le n pkt (pos + 4) pat_use' pmt',
      scan_programs-bound n pkt (pos + 4) pat_use' pmt' bound h,
    )

-- With such a bound no entry is dropped: each program gets the PID of its last entry, and what the table
-- does not mention keeps its old one.
fill_pat-last_pid :
    (n : ℕ) (pkt : Memory) (pos bound : ℕ) (pat : Memory) (prog : ℕ)
    → all_below_bound n pkt pos bound ≡ true
    → fill_pat n pkt pos bound pat prog ≡ get_or (last_pid n pkt pos prog) (pat prog)
unfolding fill_pat last_pid all_below_bound
fill_pat-last_pid zero pkt pos bound pat prog h = refl
fill_pat-last_pid (suc n) pkt pos bound pat prog h = ground (
  arith,
  child_pid-mod pkt pos,
  fill_pat-last_pid n pkt (pos + 4) bound (update pat (be16 pkt pos) (child_pid pkt pos)) prog,
)

last_pid-lt :
    (n : ℕ) (pkt : Memory) (pos bound prog p : ℕ)
    → all_below_bound n pkt pos bound ≡ true
    → last_pid n pkt pos prog ≡ some p
    → prog < bound
unfolding last_pid all_below_bound
last_pid-lt zero pkt pos bound prog p h e = cc
last_pid-lt (suc n) pkt pos bound prog p h e =
    ground (arith, last_pid-lt n pkt (pos + 4) bound prog p)

-- The block that the second loop writes to.
abbrev old_pat : Option Memory → Memory
old_pat none = λ _. 0
old_pat (some m) = m

store_programs-done :
    (env : Env) (pkt : Memory) (count pos : ℕ) (s t : Atsc)
    → store_programs env pkt count pos s ≡ (t, done)
    → (t.pat ≡ some (fill_pat count pkt pos s.pat_use (old_pat s.pat)))
      × (t.pat_use ≡ s.pat_use)
      × (t.pat_max ≡ s.pat_max)
unfolding store_programs
store_programs-done env pkt count pos s t e = ground arith

-- A block that was found keeps its size, and a new one has room for `pat_max` PIDs.
store_programs-block :
    (env : Env) (pkt : Memory) (count pos : ℕ) (s t : Atsc)
    → store_programs env pkt count pos s ≡ (t, done)
    → Sized s
    → t.pat_block ≡ s.pat_max
unfolding store_programs
store_programs-block env pkt count pos s t e h = ground arith

-- The size of the block that is kept is still `pat_max`.
regrow_pat-Sized : (s : Atsc) → Sized s → Sized (regrow_pat s)
unfolding regrow_pat
regrow_pat-Sized s h = elim (Bool-cases (leb s.pat_max s.pat_use)) [
  | inl c ↦ inl (ground (arith, c))
  | inr c ↦ elim h [
    | inl gone ↦ inl (ground (arith, c, gone))
    | inr size ↦ inr (ground (arith, c, size))
  ]
]

regrow_pat-sizes :
    (s : Atsc) → ((regrow_pat s).pat_use ≡ s.pat_use) × (s.pat_use ≤ (regrow_pat s).pat_max)
unfolding regrow_pat
regrow_pat-sizes s = ground arith

-- When the block of pat, if there is one, was allocated for pat_max programs, and a program association
-- table was loaded with success, then there is a block, it was allocated for pat_max programs and has
-- room for every program below pat_use, each program of the table is below pat_use, and its slot holds
-- the low thirteen bits of the last entry for it.
pub load_programs_lem :
    (env : Env) (pkt : Memory) (count pos : ℕ) (s t : Atsc)
    → Sized s
    → load_programs env pkt count pos s ≡ (t, done)
    → (m : Memory) × (t.pat ≡ some m)
      × (t.pat_block ≡ t.pat_max)
      × (t.pat_use ≤ t.pat_block)
      × ((prog p : ℕ) → last_pid count pkt pos prog ≡ some p → (prog < t.pat_use) × (m prog ≡ p))
unfolding load_programs
load_programs_lem env pkt count pos s t h e =
    let seen = scan_programs count pkt pos 0 s.pmt_pid in
    let sized = record s { pat_use = seen.pat_use + 1; pmt_pid = seen.pmt_pid } in
    let grown = regrow_pat sized in
    let (used, most) = regrow_pat-sizes sized in
    let (filled, used', most') = store_programs-done env pkt count pos grown t e in
    let block = store_programs-block env pkt count pos grown t e (regrow_pat-Sized sized h) in
    let below : all_below_bound count pkt pos grown.pat_use ≡ true =
      scan_programs-bound count pkt pos 0 s.pmt_pid grown.pat_use (omega (arith, used)) in
    (
      fill_pat count pkt pos grown.pat_use (old_pat grown.pat),
      filled,
      block ∙ sym most',
      omega (arith, used, most, used', block),
      λ prog p last. (
        omega (arith, used', last_pid-lt count pkt pos grown.pat_use prog p below last),
        fill_pat-last_pid count pkt pos grown.pat_use (old_pat grown.pat) prog below
            ∙ ap (λ o. get_or o (old_pat grown.pat prog)) last,
      ),
    )

-- When four bytes follow the header within a length below 2 ^ 32, the entries that are counted and four
-- bytes of checksum lie within the section, and one entry more would not: the count does not wrap.
entry_count_room :
    (len pos : ℕ)
    → pos + 4 ≤ len
    → len < 2 ^ 32
    → (pos + 4 * entry_count len pos + 4 ≤ len) × (len < pos + 4 * entry_count len pos + 8)
unfolding entry_count
entry_count_room len pos h w = omega arith
