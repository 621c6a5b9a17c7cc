-- ===== src/Watch/Rounds.antt =====
-- The text and the list of `get_ch_id` (main.cpp), through all its rounds.
use seztuner.Prelude.{
  ℕ, zero, suc, ◌+◌, ◌<◌, ◌≡◌, refl, subst, arith, bit_and, List, [], ◌∷◌, some, Bool, true, ◌&&◌,
  not, ◌==◌, length, leb, Bool-cases, Option-cases, inl, inr,
}
use seztuner.Run.{ok}
use seztuner.Mpgts.Control.{Mpgts}
use seztuner.Probe.Weights.{Gives, bind-Gives, ok-Gives, if-Gives, choose-Gives, Option-Gives}
use seztuner.Texts.{Texts, start_texts, gather_one, gather, gather_both}
use seztuner.Texts.Room.{HasRoom, gather_one-HasRoom}
use seztuner.Watch.{
  Watch, Site, thread, table_text, tune_both, run_thread, watch, gather_texts, round, rounds,
  start_watch, get_ch_id,
}
use seztuner.Watch.Stays.{Stable, tune_both-Stays, watch-Stays}
use seztuner.Watch.Bytes.{AllOfBytes, HasRoomFor, table_text-short, HasRoomFor-Stable}
use seztuner.Atsc.Demux.Short.{Small}

gather-HasRoom :
    (grants : ℕ → Bool) (status : ℕ → ℕ) (vct : ℕ → List ℕ) (n ch i : ℕ) (s t : Texts)
    → ((k : ℕ) → length (vct k) < 65536)
    → HasRoom s
    → gather grants status vct n ch i s ≡ some t
    → HasRoom t
unfolding gather
gather-HasRoom grants status vct zero ch i s t short h e =
    let same : s ≡ t = ground (arith, e) in subst HasRoom same h
gather-HasRoom grants status vct (suc n) ch i s t short h e =
    elim (Bool-cases (bit_and (status ch) 0x40 == 0)) [
      | inl c ↦
          gather-HasRoom grants status vct n (suc ch) (i + 1) s t short h (ground (arith, e, c))
      | inr c ↦ elim (Bool-cases (leb (length s.chlist) i)) [
        | inl d ↦ let same : s ≡ t = ground (arith, e, c, d) in subst HasRoom same h
        | inr d ↦ elim (Option-cases (gather_one grants (vct ch) i s)) [
          | inl f ↦ absurd (ground (arith, e, c, d, f))
          | inr (u, f) ↦
              gather-HasRoom grants status vct n (suc ch) i u t short
                (gather_one-HasRoom grants (vct ch) i s u h (short ch) f)
                (ground (arith, e, c, d, f))
        ]
      ]
    ]

length-none : (l : List ℕ) → length l ≡ 0 → l ≡ []
length-none [] h = refl
length-none (x ∷ l) h = absurd (omega (arith, h))

module _ {D : Type 0} (site : Site D) (bytes : (d : D) → AllOfBytes (site.moves d)) where
  abbrev Roomy : {A : Type 0} → A → Watch D → Type 0
  Roomy _ t = HasRoomFor t.texts t.itm.shared

  stable : Stable site HasRoomFor
  stable = HasRoomFor-Stable site bytes

  thread-HasRoomFor :
      (x : Texts) (s : Mpgts D) → HasRoomFor x s.shared → HasRoomFor x (thread site.moves s).shared
  thread-HasRoomFor x s h = let law = stable in law.kept x s h

  gather_texts-Roomy :
      (s : Watch D) → HasRoomFor s.texts s.itm.shared → Gives Roomy (gather_texts site s)
  unfolding gather_texts gather_both
  gather_texts-Roomy s h =
      Option-Gives Roomy (gather_both site.grants s.status (table_text s.itm) s.texts) _ _
        (λ _ a t e. absurd (ground (arith, e)))
        (λ texts c.
          ok-Gives Roomy tt (record s { texts = texts })
            (record {
              room =
                  gather-HasRoom site.grants s.status (table_text s.itm) 2 0 0 s.texts texts
                    (λ ch. table_text-short s.texts s.itm ch h) h.room c;
              small = h.small;
            }))

  round-Roomy : (s : Watch D) → HasRoomFor s.texts s.itm.shared → Gives Roomy (round site s)
  unfolding round run_thread
  round-Roomy s h =
      bind-Gives Roomy Roomy (tune_both site s) _ (tune_both-Stays site HasRoomFor stable s h)
        (λ _ t p.
          let fresh = record t { status = λ ch. 0 } in
          bind-Gives Roomy Roomy (watch site 100 0 fresh) _
            (watch-Stays site HasRoomFor stable 100 0 fresh p)
            (λ _ u q. gather_texts-Roomy (run_thread site u) (thread-HasRoomFor u.texts u.itm q)))

  -- All channels are done unless a key was pressed.
  abbrev Finished : {A : Type 0} → A → Watch D → Type 0
  Finished _ t = HasRoom t.texts × (t.go ≡ true → t.texts.chlist ≡ [])

  rounds-Finished :
      (n : ℕ) (s : Watch D) → HasRoomFor s.texts s.itm.shared → Gives Finished (rounds site n s)
  unfolding rounds
  rounds-Finished zero s h = λ a t e. absurd (ground (arith, e))
  rounds-Finished (suc n) s h =
      choose-Gives Finished (s.go && not (length s.texts.chlist == 0)) _ _
        (λ _.
          bind-Gives Roomy Finished (round site s) _ (round-Roomy s h)
            (λ _ t p. rounds-Finished n t p))
        (λ c.
          ok-Gives Finished tt s
            (h.room, λ going. length-none s.texts.chlist (ground (arith, c, going))))

  pub get_ch_id_fits :
      (fuel : ℕ) (chlist text : List ℕ) (itm : Mpgts D) (t : Watch D)
      → ((ch : ℕ) → Small (itm.shared.atsc ch))
      → get_ch_id site fuel chlist itm ≡ ok text t
      → (length text < t.texts.vct_max) × (t.go ≡ true → t.texts.chlist ≡ [])
  unfolding get_ch_id start_watch start_texts
  get_ch_id_fits fuel chlist text itm t small =
      if-Gives (λ l u. (length l < u.texts.vct_max) × (u.go ≡ true → u.texts.chlist ≡ []))
        (not (site.grants 65536)) _ _ (λ _ a u e. absurd (ground (arith, e)))
        (λ _.
          bind-Gives Finished
            (λ l u. (length l < u.texts.vct_max) × (u.go ≡ true → u.texts.chlist ≡ []))
            (rounds site fuel (start_watch site chlist itm)) _
            (rounds-Finished fuel (start_watch site chlist itm)
              (record { room = record { fits = omega arith; large = omega arith }; small = small }))
            (λ _ u p.
              ok-Gives (λ l v. (length l < v.texts.vct_max) × (v.go ≡ true → v.texts.chlist ≡ []))
                u.texts.vct_all u (p.0.fits, p.1)))
        text t
