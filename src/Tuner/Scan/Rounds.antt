-- ===== src/Tuner/Scan/Rounds.antt =====
-- What a pass of `scan` (tuner.cpp) adds to the channels that were found.
use seztuner.Prelude.{
  ℕ, zero, suc, ◌+◌, ◌*◌, ◌≤◌, ◌<◌, ◌≡◌, ◌≢◌, inl, inr, refl, sym, ap, subst, ◌∙◌, ==→eq, arith,
  List, [], ◌∷◌, ◌++◌, Option, none, some, Bool, leb, ◌==◌, if◌then◌else◌, length, length-append,
  append_assoc, append-nil, bit_and, Bool-cases, Option-cases,
}
use seztuner.Run.{ok, M, bind, bind-ok, ok-injective}
use seztuner.Socket.Bus.{Bus}
use seztuner.Socket.Registers.{get_demod8}
use seztuner.Tuner.{ChannelState, Tuner, on_dev}
use seztuner.Tuner.Channel.{on_dev-states}
use seztuner.Tuner.Scan.{tune_in, wait_rest, heard, listen, report, scan_round, scan_at, scan_pass}
use seztuner.Tuner.Scan.Tuning.{tune_in-tvch, tune_in-others}

-- How often a number is in a list.
abbrev pub count : ℕ → List ℕ → ℕ
count x [] = 0
count x (y ∷ l) = (if x == y then 1 else 0) + count x l

pub count-append : (x : ℕ) (k l : List ℕ) → count x (k ++ l) ≡ count x k + count x l
count-append x [] l = omega arith
count-append x (y ∷ k) l = omega (arith, count-append x k l)

-- The channel that receiver `j` has in the round at position `i`, if any.
abbrev pub visit : ℕ → ℕ → List ℕ
visit i j = if leb 50 (i + j * 2) then [] else (i + j * 2 + 2) ∷ []

-- The positions of the rounds, as the inner `for` counts them.
abbrev pub positions : ℕ → ℕ → Option (List ℕ)
positions zero i = none
positions (suc n) i = elim (scan_at i) [
  | none ↦ some []
  | some k ↦ elim (positions n (k + 4)) [ none ↦ none | some l ↦ some (k ∷ l) ]
]

abbrev pub visits : List ℕ → List ℕ
visits [] = []
visits (i ∷ l) = (visit i 0 ++ visit i 1) ++ visits l

-- `found` is `find` and then some of `room`, none more often than there, and all of it when `P` holds.
pub record Adds (P : Type 0) (find found room : List ℕ) : Type 0 where
  pub added : List ℕ
  pub behind : found ≡ find ++ added
  pub among : (x : ℕ) → count x added ≤ count x room
  pub shorter : length added ≤ length room
  pub whole : P → added ≡ room

Adds-trans : (P : Type 0) (a b c r q : List ℕ) → Adds P a b r → Adds P b c q → Adds P a c (r ++ q)
Adds-trans P a b c r q h k = record {
  added = h.added ++ k.added;
  behind = k.behind ∙ ap (λ l. l ++ k.added) h.behind ∙ append_assoc a h.added k.added;
  among =
      λ x. omega (arith, h.among x, k.among x, count-append x h.added k.added, count-append x r q);
  shorter = omega (arith, h.shorter, k.shorter, length-append h.added k.added, length-append r q);
  whole = λ p. ap (λ l. l ++ k.added) (h.whole p) ∙ ap (λ l. r ++ l) (k.whole p);
}

Adds-none : (P : Type 0) (a r : List ℕ) → (P → [] ≡ r) → Adds P a a r
Adds-none P a r h = record {
  added = [];
  behind = sym (append-nil a);
  among = λ x. omega arith;
  shorter = omega arith;
  whole = h;
}

Adds-one : (P : Type 0) (a : List ℕ) (x : ℕ) → Adds P a (a ++ x ∷ []) (x ∷ [])
Adds-one P a x = record {
  added = x ∷ [];
  behind = refl;
  among = λ y. omega arith;
  shorter = omega arith;
  whole = λ p. refl;
}

-- Every reading of a demodulator says that it has locked.
abbrev pub Locks : {D : Type 0} → Bus D → Type 0
Locks {D} bus = (j b : ℕ) (d e : D) → get_demod8 bus j 0x11d d ≡ ok b e → bit_and b 0x80 ≢ 0

module _ {D : Type 0} (bus : Bus D) (behind : ℕ → ℕ) where
  wait_rest-states :
      (cr_ms : ℕ) (s : Tuner D) → (wait_rest bus behind cr_ms s).ch_state ≡ s.ch_state
  unfolding wait_rest
  wait_rest-states cr_ms s = ground arith

  on_dev-dev :
      {A : Type 0} (m : M D A) (a : A) (s t : Tuner D) → on_dev m s ≡ ok a t → m s.dev ≡ ok a t.dev
  on_dev-dev m a s t e = ground (arith, e)

  heard-Adds :
      (j : ℕ) (find : List ℕ) (b : ℕ) (s : Tuner D)
      → (Locks bus → bit_and b 0x80 ≢ 0)
      → Adds (Locks bus) find (heard bus behind j find b s) ((s.ch_state j).tvch ∷ [])
  unfolding heard
  heard-Adds j find b s locks = elim (Bool-cases (bit_and b 0x80 == 0)) [
    | inl e ↦ rw e (
        Adds-none (Locks bus) find ((s.ch_state j).tvch ∷ [])
          (λ p. absurd (locks p (==→eq (bit_and b 0x80) 0 e))))
    | inr e ↦ rw e (Adds-one (Locks bus) find (s.ch_state j).tvch)
  ]

  listen-away :
      (i j : ℕ) (find : List ℕ) (s : Tuner D)
      → 50 ≤ i + j * 2
      → listen bus behind i j find s ≡ ok find s
  unfolding listen
  listen-away i j find s h = ground (arith, h)

  listen-there :
      (i j : ℕ) (find : List ℕ) (s : Tuner D)
      → i + j * 2 < 50
      → listen bus behind i j find s
        ≡ bind (on_dev (get_demod8 bus j 0x11d) s) (λ b u. ok (heard bus behind j find b u) u)
  unfolding listen
  listen-there i j find s h = ground (arith, h)

  visit-there : (i j : ℕ) → i + j * 2 < 50 → visit i j ≡ (i + j * 2 + 2) ∷ []
  visit-there i j h = ground (arith, h)

  visit-away : (i j : ℕ) → 50 ≤ i + j * 2 → visit i j ≡ []
  visit-away i j h = ground (arith, h)

  listen-Adds :
      (i j : ℕ) (find found : List ℕ) (s t : Tuner D)
      → (i + j * 2 < 50 → (s.ch_state j).tvch ≡ i + j * 2 + 2)
      → listen bus behind i j find s ≡ ok found t
      → Adds (Locks bus) find found (visit i j) × (t.ch_state ≡ s.ch_state)
  listen-Adds i j find found s t tuned e = elim (Bool-cases (leb 50 (i + j * 2))) [
    | inl c ↦
        let (same, states) =
          ok-injective find found s t (sym (listen-away i j find s (ground (arith, c))) ∙ e) in
        (
          subst (λ l. Adds (Locks bus) find l (visit i j)) same
              (Adds-none (Locks bus) find (visit i j)
                (λ p. sym (visit-away i j (ground (arith, c))))),
          ap (λ (r : Tuner D). r.ch_state) (sym states),
        )
    | inr c ↦
        let there : i + j * 2 < 50 = ground (arith, c) in
        let (b, u, got, last) =
          bind-ok (on_dev (get_demod8 bus j 0x11d) s) (λ b u. ok (heard bus behind j find b u) u)
            found t (sym (listen-there i j find s there) ∙ e) in
        let (same, states) = ok-injective (heard bus behind j find b u) found u t last in
        let kept = (on_dev-states bus (get_demod8 bus j 0x11d) b s u got).0 in
        let locks : Locks bus → bit_and b 0x80 ≢ 0 =
          λ p. p j b s.dev u.dev (on_dev-dev (get_demod8 bus j 0x11d) b s u got) in
        let channel : (u.ch_state j).tvch ≡ i + j * 2 + 2 =
          ap (λ f. ChannelState.tvch (f j)) kept ∙ tuned there in
        (
          subst (λ l. Adds (Locks bus) find l (visit i j)) same
              (subst (λ l. Adds (Locks bus) find (heard bus behind j find b u) l)
                (ap (λ x. x ∷ []) channel ∙ sym (visit-there i j there))
                (heard-Adds j find b u locks)),
          ap (λ (r : Tuner D). r.ch_state) (sym states) ∙ kept,
        )
  ]

module _ {D : Type 0} (bus : Bus D) (behind : ℕ → ℕ) (cb : Option (ℕ → ℕ → D → D)) where
  scan_round-Adds :
      (cr_ms : ℕ) (ant_valid : Bool) (i : ℕ) (find found : List ℕ) (s t : Tuner D)
      → scan_round bus behind cb cr_ms ant_valid i find s ≡ ok found t
      → Adds (Locks bus) find found (visit i 0 ++ visit i 1)
  unfolding scan_round
  scan_round-Adds cr_ms ant_valid i find found s t e =
      let begin = report bus behind cb (i + 1) ant_valid find s in
      let (x, u, first, rest) =
        bind-ok (tune_in bus behind cr_ms i 0 begin)
          (λ _ t. bind (tune_in bus behind cr_ms i 1 t) λ _ u.
            bind (listen bus behind i 0 find (wait_rest bus behind cr_ms u))
              λ found v. listen bus behind i 1 found v)
          found t e in
      let (y, v, second, waited) =
        bind-ok (tune_in bus behind cr_ms i 1 u)
          (λ _ u.
            bind (listen bus behind i 0 find (wait_rest bus behind cr_ms u))
              λ found v. listen bus behind i 1 found v)
          found t rest in
      let w = wait_rest bus behind cr_ms v in
      let (mid, z, third, last) =
        bind-ok (listen bus behind i 0 find w) (λ found v. listen bus behind i 1 found v) found t
          waited in
      let states = wait_rest-states bus behind cr_ms v in
      let zero_tuned : i + 0 * 2 < 50 → (w.ch_state 0).tvch ≡ i + 0 * 2 + 2 = λ h.
        ap (λ f. ChannelState.tvch (f 0)) states
        ∙ ap ChannelState.tvch
            (tune_in-others bus behind cr_ms i 1 0 u v (λ q. absurd (omega (arith, q))) second)
        ∙ tune_in-tvch bus behind cr_ms i 0 begin u h first in
      let (adds0, kept) = listen-Adds bus behind i 0 find mid w z zero_tuned third in
      let one_tuned : i + 1 * 2 < 50 → (z.ch_state 1).tvch ≡ i + 1 * 2 + 2 = λ h.
        ap (λ f. ChannelState.tvch (f 1)) (kept ∙ states)
        ∙ tune_in-tvch bus behind cr_ms i 1 u v h second in
      Adds-trans (Locks bus) find mid found (visit i 0) (visit i 1) adds0
        (listen-Adds bus behind i 1 mid found z t one_tuned last).0

  pub pass_end :
      (n cr_ms : ℕ) (ant_valid : Bool) (i : ℕ) (find : List ℕ) (s : Tuner D)
      → scan_at i ≡ none
      → scan_pass bus behind cb (suc n) cr_ms ant_valid i find s ≡ ok find s
  unfolding scan_pass
  pass_end n cr_ms ant_valid i find s h = ground (arith, h)

  pub pass_more :
      (n cr_ms : ℕ) (ant_valid : Bool) (i k : ℕ) (find : List ℕ) (s : Tuner D)
      → scan_at i ≡ some k
      → scan_pass bus behind cb (suc n) cr_ms ant_valid i find s
        ≡ bind
            (scan_round bus behind cb cr_ms ant_valid k find s)
            (λ found t. scan_pass bus behind cb n cr_ms ant_valid (k + 4) found t)
  unfolding scan_pass
  pass_more n cr_ms ant_valid i k find s h = ground (arith, h)

  pub positions-more :
      (n i k : ℕ) (l : List ℕ)
      → scan_at i ≡ some k
      → positions (suc n) i ≡ some l
      → (m : List ℕ) × (positions n (k + 4) ≡ some m) × (l ≡ k ∷ m)
  positions-more n i k l h e = elim (Option-cases (positions n (k + 4))) [
    | inl c ↦ absurd (ground (arith, h, e, c))
    | inr (m, c) ↦ (m, c, ground (arith, h, e, c))
  ]

  positions-end : (n i : ℕ) (l : List ℕ) → scan_at i ≡ none → positions (suc n) i ≡ some l → [] ≡ l
  positions-end n i l h e = ground (arith, h, e)

  pub scan_pass-Adds :
      (n cr_ms : ℕ) (ant_valid : Bool) (i : ℕ) (rounds find found : List ℕ) (s t : Tuner D)
      → positions n i ≡ some rounds
      → scan_pass bus behind cb n cr_ms ant_valid i find s ≡ ok found t
      → Adds (Locks bus) find found (visits rounds)
  scan_pass-Adds zero cr_ms ant_valid i rounds find found s t h e = absurd (ground (arith, h))
  scan_pass-Adds (suc n) cr_ms ant_valid i rounds find found s t h e =
      elim (Option-cases (scan_at i)) [
        | inl c ↦
            let (same, states) =
              ok-injective find found s t (sym (pass_end n cr_ms ant_valid i find s c) ∙ e) in
            subst (λ l. Adds (Locks bus) find l (visits rounds)) same
              (Adds-none (Locks bus) find (visits rounds)
                (λ p. ap visits (positions-end n i rounds c h)))
        | inr (k, c) ↦
            let (m, later, whole) = positions-more n i k rounds c h in
            let (mid, u, first, rest) =
              bind-ok (scan_round bus behind cb cr_ms ant_valid k find s)
                (λ found t. scan_pass bus behind cb n cr_ms ant_valid (k + 4) found t) found t
                (sym (pass_more n cr_ms ant_valid i k find s c) ∙ e) in
            subst (λ l. Adds (Locks bus) find found (visits l)) (sym whole)
              (Adds-trans (Locks bus) find mid found (visit k 0 ++ visit k 1) (visits m)
                (scan_round-Adds cr_ms ant_valid k find mid s u first)
                (scan_pass-Adds n cr_ms ant_valid (k + 4) m mid found u t later rest))
      ]
