-- ===== src/Watch/Race.antt =====
-- A look of `get_ch_id` (main.cpp) between `want_reset[ch] = 0` and `atsc[ch].init()` of the receiving thread
-- (mpgts.cpp).
use seztuner.Prelude.{
  ℕ, ◌≡◌, refl, sym, ◌∙◌, arith, bit_and, List, [], ◌∷◌, none, some, true, false, ◌==◌, ==→eq,
  Bool-cases, inl, inr,
}
use seztuner.Bits.Single.{single-or}
use seztuner.Run.{ok, bind}
use seztuner.Tuner.{on_dev}
use seztuner.Tuner.Reception.{stop_ts}
use seztuner.Atsc.Memory.{Env, Ret, done, failed, runaway, Atsc}
use seztuner.Atsc.Demux.{init, reset}
use seztuner.Mpgts.Thread.{Receivers, set_atsc, with_atsc, clear}
use seztuner.Mpgts.Pieces.{taken, restarted, run_piece, run_pieces}
use seztuner.Mpgts.Control.{on_tun, ask_reset}
use seztuner.Probe.Weights.{Gives, bind-Gives, ok-Gives}
use seztuner.Watch.{
  Watch, Site, thread, on_itm, mark, is_set, open_stream, run_thread, await_table, visit,
}
use seztuner.Watch.Stays.{Stable, open_stream-Stays, on_itm-Stays, on_tun-Respects}

-- The receiver has this channel table, and is initialised.
abbrev Has : ℕ → List ℕ → Receivers → Type 0
Has ch old r = ((r.atsc ch).vctstr ≡ some old) × ((r.atsc ch).iconv_hnd ≡ true)

noted-Has :
    (ch other : ℕ) (old : List ℕ) (r : Receivers) (freq : ℕ)
    → Has other old r
    → Has other old (set_atsc ch (record (r.atsc ch) { tvch = freq }) r)
noted-Has ch other old r freq (p, q) = elim (Bool-cases (ch == other)) [
  | inl c ↦ let same = ==→eq ch other c in ground (arith, c, same, p, q)
  | inr c ↦ ground (arith, c, p, q)
]

mark-is_set : {D : Type 0} (ch : ℕ) (s : Watch D) → is_set ch 0x40 (mark ch 0x40 s) ≡ true
unfolding mark is_set
mark-is_set ch s = ground (arith, single-or 6 (s.status ch) 0x40)

marked-Has :
    {D : Type 0} (ch : ℕ) (old : List ℕ) (s : Watch D)
    → Has ch old s.itm.shared
    → Has ch old (mark ch 0x40 s).itm.shared
unfolding mark
marked-Has ch old s h = h

with_atsc-freed :
    (i : ℕ) (s : Receivers) (r : Atsc × Ret)
    → r.0.vctstr ≡ none
    → ((with_atsc i s r).0.atsc i).vctstr ≡ none
with_atsc-freed i s (a, done) h = ground (arith, h)
with_atsc-freed i s (a, failed) h = ground (arith, h)
with_atsc-freed i s (a, runaway) h = ground (arith, h)

init-freed : (env : Env) (a : Atsc) → a.iconv_hnd ≡ true → (init env a).0.vctstr ≡ none
unfolding init reset
init-freed env a h = ground (arith, h)

restarted-freed :
    (ch : ℕ) (env : Env) (s : Receivers)
    → (s.atsc ch).iconv_hnd ≡ true
    → ((run_piece (restarted ch env) s).0.atsc ch).vctstr ≡ none
unfolding run_piece
restarted-freed ch env s h =
    with_atsc-freed ch s (init env (s.atsc ch)) (init-freed env (s.atsc ch) h)

module _ {D : Type 0} (site : Site D) (ch : ℕ) (old : List ℕ)
    (paused : (d : D) → site.moves d ≡ taken ch ∷ []) where
  paused-Stable : Stable site (λ x r. Has ch old r)
  unfolding thread run_pieces run_piece ask_reset clear
  paused-Stable = record {
    kept = λ x s h. let e = paused s.tun.dev in rw e h;
    asked = λ x s i h. h;
    noted = λ x r i tvch h. noted-Has i ch old r tvch h;
  }

  visit_opens :
      (s : Watch D)
      → bit_and (s.status ch) 0xf ≡ 0xf
      → is_set ch 0x40 s ≡ false
      → visit site ch s
        ≡ bind (open_stream site ch s) (λ _ t. await_table site ch (run_thread site t))
  unfolding visit
  visit_opens s locked pending = rw (locked, pending) refl

  await_table-marks :
      (s : Watch D)
      → Has ch old s.itm.shared
      → Gives (λ _ t. (is_set ch 0x40 t ≡ true) × Has ch old t.itm.shared) (await_table site ch s)
  unfolding await_table
  await_table-marks s h =
      rw (await_table, h.0)
        (bind-Gives (λ _ t. Has ch old t.itm.shared) _
          (on_itm (on_tun (on_dev (stop_ts site.bus ch))) s) _
          (on_itm-Stays site (λ x r. Has ch old r) paused-Stable
            (on_tun (on_dev (stop_ts site.bus ch))) s
            (on_tun-Respects site (λ x r. Has ch old r) paused-Stable
              (on_dev (stop_ts site.bus ch)))
            h)
          (λ _ t k.
            ok-Gives (λ _ u. (is_set ch 0x40 u ≡ true) × Has ch old u.itm.shared) tt
              (mark ch 0x40 t) (mark-is_set ch t, marked-Has ch old t k)))

  pub visit_stale :
      (env : Env) (s t : Watch D)
      → bit_and (s.status ch) 0xf ≡ 0xf
      → is_set ch 0x40 s ≡ false
      → Has ch old s.itm.shared
      → visit site ch s ≡ ok tt t
      → (is_set ch 0x40 t ≡ true)
        × ((t.itm.shared.atsc ch).vctstr ≡ some old)
        × (((run_piece (restarted ch env) t.itm.shared).0.atsc ch).vctstr ≡ none)
  unfolding run_thread
  visit_stale env s t locked pending h e =
      let stable = paused-Stable in
      let looked =
        bind-Gives (λ _ u. Has ch old u.itm.shared)
          (λ _ u. (is_set ch 0x40 u ≡ true) × Has ch old u.itm.shared) (open_stream site ch s) _
          (open_stream-Stays site (λ x r. Has ch old r) paused-Stable ch s h)
          (λ _ u k. await_table-marks (run_thread site u) (stable.kept u.texts u.itm k)) tt t
          (sym (visit_opens s locked pending) ∙ e) in
      (looked.0, looked.1.0, restarted-freed ch env t.itm.shared looked.1.1)
