-- ===== src/Texts/Room.antt =====
-- The room for the text of all tables (main.cpp, `get_ch_id`).
use seztuner.Prelude.{
  ℕ, suc, ◌+◌, ◌*◌, ◌≤◌, ◌<◌, ◌≡◌, ◌≢◌, refl, sym, ap, subst, ◌∙◌, arith, bit_and, List, [], ◌∷◌,
  ◌++◌, some, Bool, true, ltb, ◌==◌, if◌then◌else◌, take, drop, length, ==→eq, append-nil,
  length-append, Bool-cases, Option-cases, inl, inr,
}
use seztuner.Texts.{Texts, enlarge, add_text, gather_one, gather, gather_both}

-- The text has room, with its NUL.
pub record HasRoom (s : Texts) : Type 0 where
  pub fits : length s.vct_all < s.vct_max
  pub large : 65536 ≤ s.vct_max

enlarge-room :
    (grants : ℕ → Bool) (len : ℕ) (s t : Texts)
    → HasRoom s
    → len < s.vct_max + 65536
    → enlarge grants len s ≡ some t
    → (len ≤ t.vct_max) × (65536 ≤ t.vct_max) × (t.vct_all ≡ s.vct_all) × (t.chlist ≡ s.chlist)
unfolding enlarge
enlarge-room grants len s t h k e = let large = h.large in ground (arith, k, e, large)

-- The text grows by the table and the list loses one channel, at this place.
record Gained (vct : List ℕ) (i : ℕ) (s t : Texts) : Type 0 where
  room : HasRoom t
  text : t.vct_all ≡ s.vct_all ++ vct
  rest : t.chlist ≡ take i s.chlist ++ drop (i + 1) s.chlist

gather_one-Gained :
    (grants : ℕ → Bool) (vct : List ℕ) (i : ℕ) (s t : Texts)
    → HasRoom s
    → length vct < 65536
    → gather_one grants vct i s ≡ some t
    → Gained vct i s t
unfolding gather_one add_text
gather_one-Gained grants vct i s t h k e =
    elim (Option-cases (enlarge grants (length s.vct_all + length vct + 1) s)) [
      | inl c ↦ absurd (ground (arith, e, c))
      | inr (u, c) ↦
          let fits = h.fits in
          let (room, large, same, list) =
            enlarge-room grants (length s.vct_all + length vct + 1) s u h (omega (arith, fits, k))
              c in
          let final : add_text vct i u ≡ t = ground (arith, e, c) in
          subst (Gained vct i s) final (record {
            room = record {
              fits = omega (arith, room, length-append u.vct_all vct, ap length same);
              large = large;
            };
            text = ap (λ l. l ++ vct) same;
            rest = ap (λ l. take i l ++ drop (i + 1) l) list;
          })
    ]

pub gather_one-HasRoom :
    (grants : ℕ → Bool) (vct : List ℕ) (i : ℕ) (s t : Texts)
    → HasRoom s
    → length vct < 65536
    → gather_one grants vct i s ≡ some t
    → HasRoom t
gather_one-HasRoom grants vct i s t h k e = (gather_one-Gained grants vct i s t h k e).room

gather_one-granted :
    (grants : ℕ → Bool) (vct : List ℕ) (i : ℕ) (s : Texts)
    → ((n : ℕ) → grants n ≡ true)
    → (t : Texts) × (gather_one grants vct i s ≡ some t)
unfolding gather_one enlarge
gather_one-granted grants vct i s granted =
    let yes = granted (s.vct_max * 2) in
    elim (Bool-cases (ltb s.vct_max (length s.vct_all + length vct + 1))) [
      | inl c ↦ (add_text vct i (record s { vct_max = s.vct_max * 2 }), ground (arith, c, yes))
      | inr c ↦ (add_text vct i s, ground (arith, c))
    ]

-- The text and the list that one receiver leaves, and where the next one's channel is.
abbrev pub text_of : (ℕ → ℕ) → (ℕ → List ℕ) → ℕ → List ℕ
text_of status vct ch = if bit_and (status ch) 0x40 == 0 then [] else vct ch

abbrev pub left_of : (ℕ → ℕ) → ℕ → ℕ → List ℕ
left_of status ch tvch = if bit_and (status ch) 0x40 == 0 then tvch ∷ [] else []

abbrev place : (ℕ → ℕ) → ℕ → ℕ → ℕ
place status ch i = if bit_and (status ch) 0x40 == 0 then i + 1 else i

module _ (grants : ℕ → Bool) (status : ℕ → ℕ) (vct : ℕ → List ℕ) where
  skip_one :
      (n ch i : ℕ) (s : Texts)
      → bit_and (status ch) 0x40 ≡ 0
      → gather grants status vct (suc n) ch i s ≡ gather grants status vct n (suc ch) (i + 1) s
  unfolding gather
  skip_one n ch i s h = ground (arith, h)

  take_one :
      (n ch i : ℕ) (s t : Texts)
      → bit_and (status ch) 0x40 ≢ 0
      → i < length s.chlist
      → gather_one grants (vct ch) i s ≡ some t
      → gather grants status vct (suc n) ch i s ≡ gather grants status vct n (suc ch) i t
  unfolding gather
  take_one n ch i s t h k e = ground (arith, h, k, e)

  record Taken (ch i : ℕ) (s t : Texts) : Type 0 where
    room : HasRoom t
    text : t.vct_all ≡ s.vct_all ++ text_of status vct ch
    rest : t.chlist ≡ (
        if bit_and (status ch) 0x40 == 0
        then s.chlist
        else take i s.chlist ++ drop (i + 1) s.chlist)

  gather-Taken :
      (n ch i : ℕ) (s : Texts)
      → ((m : ℕ) → grants m ≡ true)
      → HasRoom s
      → length (vct ch) < 65536
      → i < length s.chlist
      → (t : Texts) × (gather grants status vct (suc n) ch i s
          ≡ gather grants status vct n (suc ch) (place status ch i) t)
        × Taken ch i s t
  gather-Taken n ch i s granted h small k = elim (Bool-cases (bit_and (status ch) 0x40 == 0)) [
    | inl c ↦
        let zeroth = ==→eq (bit_and (status ch) 0x40) 0 c in
        (
          s,
          rw c (skip_one n ch i s zeroth),
          record { room = h; text = rw c (sym (append-nil s.vct_all)); rest = rw c refl },
        )
    | inr c ↦
        let (t, e) = gather_one-granted grants (vct ch) i s granted in
        let gained = gather_one-Gained grants (vct ch) i s t h small e in
        (
          t,
          rw c (take_one n ch i s t (ground (arith, c)) k e),
          record { room = gained.room; text = rw c gained.text; rest = rw c gained.rest },
        )
  ]

  gather-end : (ch i : ℕ) (s : Texts) → gather grants status vct 0 ch i s ≡ some s
  unfolding gather
  gather-end ch i s = refl

  both_places :
      (a b : ℕ) (rest l m : List ℕ)
      → l ≡ (if bit_and (status 0) 0x40 == 0 then a ∷ b ∷ rest else b ∷ rest)
      → m ≡ (
          if bit_and (status 1) 0x40 == 0
          then l
          else take (place status 0 0) l ++ drop (place status 0 0 + 1) l)
      → m ≡ left_of status 0 a ++ left_of status 1 b ++ rest
  both_places a b rest l m e f = ground (arith, e, f)

  -- When the text so far has room in at least 65536 characters, the tables of the two receivers take
  -- less than 65536 each, two channels or more are left, and realloc succeeds, a round succeeds: the
  -- text is extended by the tables of the receivers that are done, in order, and still has room with its
  -- NUL, and exactly the channels of those receivers are removed from the list.
  pub gather_both_lem :
      (s : Texts) (a b : ℕ) (rest : List ℕ)
      → ((m : ℕ) → grants m ≡ true)
      → HasRoom s
      → ((ch : ℕ) → length (vct ch) < 65536)
      → s.chlist ≡ a ∷ b ∷ rest
      → (t : Texts) × (gather_both grants status vct s ≡ some t)
        × HasRoom t
        × (t.vct_all ≡ (s.vct_all ++ text_of status vct 0) ++ text_of status vct 1)
        × (t.chlist ≡ left_of status 0 a ++ left_of status 1 b ++ rest)
  unfolding gather_both
  gather_both_lem s a b rest granted h small two =
      let (t, first, taken0) =
        gather-Taken 1 0 0 s granted h (small 0) (omega (arith, ap length two)) in
      let list0 : t.chlist ≡ (if bit_and (status 0) 0x40 == 0 then a ∷ b ∷ rest else b ∷ rest) =
        taken0.rest
        ∙ ap (λ l. if bit_and (status 0) 0x40 == 0 then l else take 0 l ++ drop 1 l) two in
      let there : place status 0 0 < length t.chlist = ground (arith, ap length list0) in
      let (u, second, taken1) =
        gather-Taken 0 1 (place status 0 0) t granted taken0.room (small 1) there in
      (
        u,
        first ∙ second ∙ gather-end 2 (place status 1 (place status 0 0)) u,
        taken1.room,
        taken1.text ∙ ap (λ l. l ++ text_of status vct 1) taken0.text,
        both_places a b rest t.chlist u.chlist list0 taken1.rest,
      )
