-- ===== src/Command/Session/Closed.antt =====
-- A tuner after `do_item` (main.cpp), and after `close` (mpgts.cpp).
use seztuner.Prelude.{
  ℕ, ◌≡◌, refl, subst, ◌∙◌, arith, List, none, some, Bool, true, false, Option-cases, inl, inr,
  arith, leb, ◌==◌, if◌then◌else◌,
}
use seztuner.Run.{Run, ok, fail, stuck, M, bind, Run-cases, bind-ok}
use seztuner.Socket.Bus.{Bus}
use seztuner.Socket.Registers.{set_gpio}
use seztuner.Tuner.{
  Antenna, nc, off, number, Tuner, on_dev, set_amp, with_gpio, set_input, antenna_round,
  move_antenna, set_antenna,
}
use seztuner.Mpgts.Control.{Mpgts, Host, close_tuner, close_thread, close_udp, close_mpgts}
use seztuner.Watch.{get_ch_id}
use seztuner.Command.Session.{
  Session, begin_session, show_carriers, probe, close_with, name_channels, do_item,
}

-- There is no thread, no UDP socket, and no antenna.
pub record Closed {D : Type 0} (s : Mpgts D) : Type 0 where
  pub no_thread : s.tsth ≡ false
  pub first : s.udp_sock 0 ≡ none
  pub second : s.udp_sock 1 ≡ none
  pub disconnected : s.tun.active_ant ≡ nc

-- What holds of a tuner after a call, with or without success.
abbrev After : {D A : Type 0} → (Tuner D → Type 0) → Run (Tuner D) A → Type 0
After P (ok a t) = P t
After P (fail t) = P t
After P stuck = Unit {0}

bind-After :
    {D A B : Type 0} (P : Tuner D → Type 0) (r : Run (Tuner D) A) (f : A → M (Tuner D) B)
    → After P r
    → ((a : A) (t : Tuner D) → P t → After P (f a t))
    → After P (bind r f)
bind-After P (ok a t) f h k = k a t h
bind-After P (fail t) f h k = h
bind-After P stuck f h k = h

if-After :
    {D A : Type 0} (P : Tuner D → Type 0) (b : Bool) (x y : Run (Tuner D) A)
    → After P x
    → After P y
    → After P (if b then x else y)
if-After P true x y h k = h
if-After P false x y h k = k

abbrev Unplugged : {D : Type 0} → Tuner D → Type 0
Unplugged s = s.active_ant ≡ nc

on_dev-After : {D A : Type 0} (m : M D A) (s : Tuner D) → Unplugged s → After Unplugged (on_dev m s)
on_dev-After m s h = through (m s.dev)
  where
    through :
        {A : Type 0} (r : Run _ A)
        → After Unplugged (elim r [
          | ok a d ↦ ok a (record s { dev = d })
          | fail d ↦ fail (record s { dev = d })
          | stuck ↦ stuck
        ])
    through (ok a d) = h
    through (fail d) = h
    through stuck = tt

module _ {D : Type 0} (bus : Bus D) (behind : ℕ → ℕ) where
  set_amp-Unplugged : (ch : ℕ) (s : Tuner D) → Unplugged s → After Unplugged (set_amp bus ch off s)
  unfolding set_amp with_gpio set_input
  set_amp-Unplugged ch s h =
      let u = with_gpio ch off s in
      if-After Unplugged (leb 2 ch) _ _ h (
        if-After Unplugged (0 == number (s.ch_state ch).i) _ _ h (
          bind-After Unplugged (on_dev (set_gpio bus u.cur_gpio) u) _
            (on_dev-After (set_gpio bus u.cur_gpio) u h) (λ _ t k. k)))

  antenna_round-Unplugged :
      (ch : ℕ) (s : Tuner D) → Unplugged s → After Unplugged (antenna_round bus behind nc ch s)
  unfolding antenna_round move_antenna
  antenna_round-Unplugged ch s h =
      if-After Unplugged (number (s.ch_state ch).i == 0) _ _ h (set_amp-Unplugged ch s h)

  -- Whether it succeeds or not.
  set_antenna-Unplugged : (s : Tuner D) → After Unplugged (set_antenna bus behind nc s)
  unfolding set_antenna
  set_antenna-Unplugged s =
      bind-After Unplugged (antenna_round bus behind nc 0 (record s { active_ant = nc })) _
        (antenna_round-Unplugged 0 (record s { active_ant = nc }) refl)
        (λ _ t k. antenna_round-Unplugged 1 t k)

  module _ (host : Host D) where
    close_tuner-Unplugged :
        (s t : Mpgts D) → close_tuner bus host behind s ≡ some t → Unplugged t.tun
    unfolding close_tuner
    close_tuner-Unplugged s t e =
        let unplugged = set_antenna-Unplugged s.tun in
        elim (Run-cases (set_antenna bus behind nc s.tun)) [
          | inl (_, u, c) ↦
              let k : Unplugged u = subst (After Unplugged) c unplugged in ground (arith, e, c, k)
          | inr (inl (u, c)) ↦
              let k : Unplugged u = subst (After Unplugged) c unplugged in ground (arith, e, c, k)
          | inr (inr c) ↦ absurd (ground (arith, e, c))
        ]

    close_udp-none : (i : ℕ) (s : Mpgts D) → (close_udp bus host i s).udp_sock i ≡ none
    unfolding close_udp
    close_udp-none i s = elim (Option-cases (s.udp_sock i)) [
      | inl c ↦ ground (arith, c)
      | inr (fd, c) ↦ ground (arith, c)
    ]

    close_udp-kept :
        (i j : ℕ) (s : Mpgts D) → s.udp_sock j ≡ none → (close_udp bus host i s).udp_sock j ≡ none
    unfolding close_udp
    close_udp-kept i j s h = elim (Option-cases (s.udp_sock i)) [
      | inl c ↦ ground (arith, c, h)
      | inr (fd, c) ↦ ground (arith, c, h)
    ]

    -- Neither the thread nor the antenna.
    close_udp-beside :
        (i : ℕ) (s : Mpgts D)
        → ((close_udp bus host i s).tsth ≡ s.tsth)
          × ((close_udp bus host i s).tun.active_ant ≡ s.tun.active_ant)
    unfolding close_udp
    close_udp-beside i s = elim (Option-cases (s.udp_sock i)) [
      | inl c ↦ ground (arith, c)
      | inr (fd, c) ↦ ground (arith, c)
    ]

    close_thread-stopped :
        (s : Mpgts D)
        → ((close_thread bus host s).tsth ≡ false)
          × ((close_thread bus host s).tun.active_ant ≡ s.tun.active_ant)
    unfolding close_thread
    close_thread-stopped s = ground arith

    pub close_mpgts-Closed : (s t : Mpgts D) → close_mpgts bus host behind s ≡ some t → Closed t
    unfolding close_mpgts
    close_mpgts-Closed s t e = elim (Option-cases (close_tuner bus host behind s)) [
      | inl c ↦ absurd (ground (arith, e, c))
      | inr (u, c) ↦
          let v = close_thread bus host u in
          let w = close_udp bus host 0 v in
          let final : close_udp bus host 1 w ≡ t = ground (arith, e, c) in
          let (stopped, same0) = close_thread-stopped u in
          let (thread1, same1) = close_udp-beside 0 v in
          let (thread2, same2) = close_udp-beside 1 w in
          subst Closed final (record {
            no_thread = thread2 ∙ thread1 ∙ stopped;
            first = close_udp-kept 1 0 w (close_udp-none 0 v);
            second = close_udp-none 1 w;
            disconnected = same2 ∙ same1 ∙ same0 ∙ close_tuner-Unplugged s u c;
          })
    ]

module _ {D : Type 0} (session : Session D) where
  open session use {site, host}

  close_with-Closed :
      (succeeded : Bool) (s t : Mpgts D) → close_with session succeeded s ≡ ok tt t → Closed t
  unfolding close_with
  close_with-Closed succeeded s t e =
      elim (Option-cases (close_mpgts site.bus host site.behind s)) [
        | inl c ↦ absurd (ground (arith, e, c))
        | inr (u, c) ↦
            let final : u ≡ t = ground (arith, e, c) in
            subst Closed final (close_mpgts-Closed site.bus site.behind host s u c)
      ]

  name_channels-Closed :
      (fuel : ℕ) (strong : List ℕ) (s t : Mpgts D)
      → name_channels session fuel strong s ≡ ok tt t
      → Closed t
  unfolding name_channels
  name_channels-Closed fuel strong s t e = elim (Run-cases (get_ch_id site fuel strong s)) [
    | inl (text, w, c) ↦ close_with-Closed true w.itm t (ground (arith, e, c))
    | inr (inl (w, c)) ↦ close_with-Closed false w.itm t (ground (arith, e, c))
    | inr (inr c) ↦ absurd (ground (arith, e, c))
  ]

  pub do_item-Closed :
      (fuel : ℕ) (ant : Antenna) (s t : Mpgts D) → do_item session fuel ant s ≡ ok tt t → Closed t
  unfolding do_item
  do_item-Closed fuel ant s t e =
      let (chlist, u, _, after_session) = bind-ok (begin_session session ant s) _ tt t e in
      let (_, v, _, after_carriers) = bind-ok (show_carriers session u) _ tt t after_session in
      let (strong, w, _, after_probe) =
        bind-ok (probe session fuel chlist v) _ tt t after_carriers in
      name_channels-Closed fuel strong w t after_probe
