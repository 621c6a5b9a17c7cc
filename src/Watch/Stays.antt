-- ===== src/Watch/Stays.antt =====
-- What `get_ch_id` (main.cpp) leaves alone while it watches the receivers: the text and the list.
use seztuner.Prelude.{
  ℕ, zero, suc, ◌≡◌, subst, arith, bit_and, Bool, false, not, ◌==◌, if◌then◌else◌, get_or, length,
  leb, update, inl, inr,
}
use seztuner.Run.{Run, ok, M, bind, Run-cases}
use seztuner.Tuner.{Tuner, on_dev, get_freq, set_freq}
use seztuner.Tuner.Reception.{Strength, get_mse, stop_ts}
use seztuner.Tuner.Reception
use seztuner.Mpgts.Thread.{Receivers, set_atsc}
use seztuner.Mpgts.Control.{Mpgts, on_tun, in_world, ask_reset, await_reset, begin_stream, start_ts}
use seztuner.Probe.Weights.{Gives, bind-Gives, ok-Gives, if-Gives, choose-Gives, Option-Gives}
use seztuner.Keyboard.{rawgetch}
use seztuner.Texts.{Texts}
use seztuner.Watch.{
  Watch, Site, thread, on_itm, mark, is_set, all_done, retune, tune_both, measure, sample,
  await_lock, open_stream, run_thread, await_table, visit, visit_both, ask_key, doze, watch,
}

-- The predicate holds of the text, the list and what is shared with the thread. The thread keeps it, and so do the
-- request for a reset and the note of the channel.
pub record Stable {D : Type 0} (site : Site D) (P : Texts → Receivers → Type 0) : Type 0 where
  pub kept : (x : Texts) (s : Mpgts D) → P x s.shared → P x (thread site.moves s).shared
  pub asked : (x : Texts) (s : Mpgts D) (ch : ℕ) → P x s.shared → P x (ask_reset ch s).shared
  pub noted :
      (x : Texts) (r : Receivers) (ch tvch : ℕ)
      → P x r
      → P x (set_atsc ch (record (r.atsc ch) { tvch = tvch }) r)

module _ {D : Type 0} (site : Site D) (P : Texts → Receivers → Type 0)
    (stable : Stable site P) where
  open stable use {kept, asked, noted}

  abbrev Stays : {A : Type 0} → Run (Watch D) A → Type 0
  Stays r = Gives (λ _ t. P t.texts t.itm.shared) r

  abbrev Respects : {A : Type 0} → M (Mpgts D) A → Type 0
  Respects m = (x : Texts) (s : Mpgts D) → P x s.shared → Gives (λ _ t. P x t.shared) (m s)

  pub on_tun-Respects : {A : Type 0} (m : M (Tuner D) A) → Respects (on_tun m)
  on_tun-Respects m x s h a t e =
      let same : s.shared ≡ t.shared = ground (arith, e) in subst (P x) same h

  await_reset-Respects :
      (ch n i : ℕ) → Respects (await_reset site.bus (λ i. thread site.moves) ch n i)
  unfolding await_reset
  await_reset-Respects ch zero i x s h = λ a t e. absurd (ground (arith, e))
  await_reset-Respects ch (suc n) i x s h =
      let u = thread site.moves s in
      if-Gives (λ _ t. P x t.shared) (u.shared.want_reset ch == 0) _ _
        (λ _. ok-Gives (λ _ t. P x t.shared) tt u (kept x s h))
        (λ _.
          await_reset-Respects ch n (suc i) x (in_world (site.bus.usleep 100000) u) (kept x s h))

  begin_stream-Respects :
      (ch : ℕ) → Respects (begin_stream site.bus (λ i. thread site.moves) site.ip ch)
  unfolding begin_stream
  begin_stream-Respects ch x s h =
      let freq = get_freq ch s.tun in
      let u = record s {
        shared = set_atsc ch (record (s.shared.atsc ch) { tvch = freq }) s.shared;
      } in
      on_tun-Respects (on_dev (Reception.start_ts site.bus site.ip ch (s.udp_port ch))) x u
        (noted x s.shared ch freq h)

  start_ts-Respects : (ch : ℕ) → Respects (start_ts site.bus (λ i. thread site.moves) site.ip ch)
  unfolding start_ts
  start_ts-Respects ch x s h =
      if-Gives (λ _ t. P x t.shared) (leb 2 ch) _ _ (λ _ a t e. absurd (ground (arith, e)))
        (λ _.
          bind-Gives (λ _ t. P x t.shared) (λ _ t. P x t.shared)
            (await_reset site.bus (λ i. thread site.moves) ch 3 0 (ask_reset ch s)) _
            (await_reset-Respects ch 3 0 x (ask_reset ch s) (asked x s ch h))
            (λ _ t k. begin_stream-Respects ch x t k))

  pub on_itm-Stays :
      {A : Type 0} (m : M (Mpgts D) A) (s : Watch D)
      → Respects m
      → P s.texts s.itm.shared
      → Stays (on_itm m s)
  on_itm-Stays m s k h a t e = elim (Run-cases (m s.itm)) [
    | inl (b, u, c) ↦
        let texts : s.texts ≡ t.texts = ground (arith, e, c) in
        let itm : u ≡ t.itm = ground (arith, e, c) in
        subst (λ x. P x t.itm.shared) texts
          (subst (λ v. P s.texts v.shared) itm (k s.texts s.itm h b u c))
    | inr (inl (u, c)) ↦ absurd (ground (arith, e, c))
    | inr (inr c) ↦ absurd (ground (arith, e, c))
  ]

  then-Stays :
      {A B : Type 0} (r : Run (Watch D) A) (f : A → M (Watch D) B)
      → Stays r
      → ((a : A) (t : Watch D) → P t.texts t.itm.shared → Stays (f a t))
      → Stays (bind r f)
  then-Stays r f h k =
      bind-Gives (λ _ t. P t.texts t.itm.shared) (λ _ t. P t.texts t.itm.shared) r f h k

  call-Stays :
      {A B : Type 0} (m : M (Mpgts D) A) (s : Watch D) (f : A → M (Watch D) B)
      → Respects m
      → P s.texts s.itm.shared
      → ((a : A) (t : Watch D) → P t.texts t.itm.shared → Stays (f a t))
      → Stays (bind (on_itm m s) f)
  call-Stays m s f r h k = then-Stays (on_itm m s) f (on_itm-Stays m s r h) k

  ok-Stays : {A : Type 0} (a : A) (s : Watch D) → P s.texts s.itm.shared → Stays (ok a s)
  ok-Stays a s h = ok-Gives (λ _ t. P t.texts t.itm.shared) a s h

  if-Stays :
      {A : Type 0} (b : Bool) (x y : Run (Watch D) A)
      → Stays x
      → Stays y
      → Stays (if b then x else y)
  if-Stays b x y h k = if-Gives (λ _ t. P t.texts t.itm.shared) b x y (λ _. h) (λ _. k)

  retune-Stays :
      (ch tvch : ℕ) (s : Watch D) → P s.texts s.itm.shared → Stays (retune site ch tvch s)
  unfolding retune
  retune-Stays ch tvch s h = if-Stays (get_freq ch s.itm.tun == tvch) _ _ (ok-Stays tt s h) (
      on_itm-Stays (on_tun (set_freq site.bus site.behind ch tvch 20)) s
        (on_tun-Respects (set_freq site.bus site.behind ch tvch 20)) h)

  pub tune_both-Stays : (s : Watch D) → P s.texts s.itm.shared → Stays (tune_both site s)
  unfolding tune_both
  tune_both-Stays s h =
      then-Stays (retune site 0 (get_or s.texts.chlist 0 0) s) _ (retune-Stays 0 _ s h) (λ _ t p.
        if-Stays (leb (length t.texts.chlist) 1) _ _ (ok-Stays tt t p)
          (retune-Stays 1 (get_or t.texts.chlist 1 0) t p))

  pub open_stream-Stays :
      (ch : ℕ) (s : Watch D) → P s.texts s.itm.shared → Stays (open_stream site ch s)
  unfolding open_stream mark
  open_stream-Stays ch s h = if-Stays (is_set ch 0x20 s) _ _ (ok-Stays tt s h) (
      call-Stays (start_ts site.bus (λ i. thread site.moves) site.ip ch) s _ (start_ts-Respects ch)
        h (λ _ t p. ok-Stays tt (mark ch 0x20 t) p))

  await_table-Stays :
      (ch : ℕ) (s : Watch D) → P s.texts s.itm.shared → Stays (await_table site ch s)
  unfolding await_table mark
  await_table-Stays ch s h =
      Option-Gives (λ _ t. P t.texts t.itm.shared) ((s.itm.shared.atsc ch).vctstr) _ _
        (λ _. ok-Stays tt s h)
        (λ text _.
          call-Stays (on_tun (on_dev (stop_ts site.bus ch))) s _
            (on_tun-Respects (on_dev (stop_ts site.bus ch))) h
            (λ _ t p. ok-Stays tt (mark ch 0x40 t) p))

  visit-Stays : (ch : ℕ) (s : Watch D) → P s.texts s.itm.shared → Stays (visit site ch s)
  unfolding visit await_lock sample measure run_thread
  visit-Stays ch s h =
      if-Stays (not (bit_and (s.status ch) 0xf == 0xf)) _ _
        (call-Stays (on_tun (on_dev (get_mse site.bus ch))) s _
          (on_tun-Respects (on_dev (get_mse site.bus ch))) h
          (λ mse t p. ok-Stays tt (record t { status = update t.status ch mse.status }) p))
        (if-Stays (is_set ch 0x40 s) _ _
          (then-Stays (measure site ch s) _
            (on_itm-Stays (on_tun (on_dev (get_mse site.bus ch))) s
              (on_tun-Respects (on_dev (get_mse site.bus ch))) h)
            (λ _ t p. ok-Stays tt t p))
          (then-Stays (open_stream site ch s) _ (open_stream-Stays ch s h)
            (λ _ t p. await_table-Stays ch (run_thread site t) (kept t.texts t.itm p))))

  visit_both-Stays : (s : Watch D) → P s.texts s.itm.shared → Stays (visit_both site s)
  unfolding visit_both
  visit_both-Stays s h =
      then-Stays (visit site 0 s) _ (visit-Stays 0 s h) (λ _ t p.
        if-Stays (leb (length t.texts.chlist) 1) _ _ (ok-Stays tt t p) (visit-Stays 1 t p))

  pub watch-Stays : (n j : ℕ) (s : Watch D) → P s.texts s.itm.shared → Stays (watch site n j s)
  unfolding watch ask_key doze
  watch-Stays zero j s h = ok-Stays tt s h
  watch-Stays (suc n) j s h =
      choose-Gives (λ _ t. P t.texts t.itm.shared) (all_done s) _ _ (λ _. visit_both-Stays s h)
        (λ _.
          then-Stays (ask_key site j s) _
            (if-Stays (j == 0) _ _ (ok-Stays false s h) (
              call-Stays (on_tun (on_dev (rawgetch site.keyboard))) s _
                (on_tun-Respects (on_dev (rawgetch site.keyboard))) h
                (λ r t p. ok-Stays (not (r == 0)) t p)))
            (λ stop t p.
              choose-Gives (λ _ t. P t.texts t.itm.shared) stop _ _
                (λ _. ok-Stays tt (record t { go = false }) p)
                (λ _.
                  then-Stays (visit_both site (doze site t)) _ (visit_both-Stays (doze site t) p)
                    (λ _ u q. watch-Stays n (suc j) u q))))
