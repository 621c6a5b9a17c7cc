-- ===== src/Probe.antt =====
-- `do_item` (main.cpp), from the channels that were scanned to those that are strong: both receivers try channels in
-- parallel, each for a second.
pub mod Weights
pub mod Strong
pub mod Clock
pub mod Lands
pub mod Moments
pub mod Freed
pub mod Ending
use seztuner.Prelude.{
  ℕ, zero, suc, ◌+◌, ◌-◌, ◌*◌, ◌/◌, ◌%◌, ◌^◌, List, [], ◌∷◌, ◌++◌, Bool, true, false, not, ltb, leb,
  ◌==◌, if◌then◌else◌, update,
}
use seztuner.Run.{Run, ok, fail, stuck, M, bind}
use seztuner.Socket.Bus.{Bus}
use seztuner.Tuner.{Tuner, on_dev, set_freq}
use seztuner.Tuner.Reception.{Strength, get_mse}

-- `end[ch]` is 0 for a receiver that is free, and `strongch` is the part that is used.
pub record Probe (D : Type 0) : Type 0 where
  pub tun : Tuner D
  pub end : ℕ → ℕ
  pub endch : ℕ → ℕ
  pub strongch : List ℕ

abbrev pub with_tuner : {D A : Type 0} → M (Tuner D) A → M (Probe D) A
with_tuner m s = elim (m s.tun) [
  | ok a t ↦ ok a (record s { tun = t })
  | fail t ↦ fail (record s { tun = t })
  | stuck ↦ stuck
]

-- Seconds and microseconds.
pub record Time : Type 0 where
  pub sec : ℕ
  pub usec : ℕ

-- `cur_ms`, in unsigned 64-bit arithmetic when the clock has gone back. The division rounds towards 0.
unfoldable pub elapsed : Time → Time → ℕ
elapsed start now =
    let gain = now.sec * 1000 + (now.usec - start.usec) / 1000 in
    let loss = start.sec * 1000 + (start.usec - now.usec) / 1000 in
    if leb loss gain then gain - loss else 2 ^ 64 - (loss - gain)

unfoldable pub release : {D : Type 0} → ℕ → Probe D → Probe D
release ch s = record s { end = update s.end ch 0 }

unfoldable pub keep_strong : {D : Type 0} → ℕ → Probe D → Probe D
keep_strong ch s = record s { strongch = s.strongch ++ s.endch ch ∷ [] }

unfoldable pub occupy : {D : Type 0} → ℕ → ℕ → ℕ → Probe D → Probe D
occupy ch cur_ms tvch s = record s {
  end = update s.end ch ((cur_ms + 1000) % 2 ^ 64);
  endch = update s.endch ch tvch;
}

-- `clock` is `gettimeofday`, and `start` its first answer.
module _ {D : Type 0} (bus : Bus D) (behind : ℕ → ℕ) (clock : D → D × Time) (start : Time) where
  unfoldable pub sleep : Probe D → Probe D
  sleep s = record s { tun = record s.tun { dev = bus.usleep 100000 s.tun.dev } }

  unfoldable pub look : M (Probe D) ℕ
  look s =
      let t = clock s.tun.dev in
      ok (elapsed start t.1) (record s { tun = record s.tun { dev = t.0 } })

  -- A receiver that is tuned: whether it is done, by time or by a status above 3.
  unfoldable pub judge : ℕ → ℕ → M (Probe D) Bool
  judge ch status s = if ltb 3 status then ok true (release ch (keep_strong ch s)) else ok false s

  unfoldable pub finish : ℕ → ℕ → M (Probe D) Bool
  finish ch cur_ms s =
      if ltb (s.end ch) cur_ms
      then ok true (release ch s)
      else bind (with_tuner (on_dev (get_mse bus ch)) s) λ mse t. judge ch mse.status t

  -- The first part of a round for receiver `ch`: whether it can be used.
  unfoldable pub try_receiver : ℕ → ℕ → M (Probe D) Bool
  try_receiver ch cur_ms s = if s.end ch == 0 then ok true s else finish ch cur_ms s

  -- Both receivers in turn, until one can be used: which, and when.
  unfoldable pub free_receiver : ℕ → ℕ → M (Probe D) (ℕ × ℕ)
  free_receiver zero ch s = stuck
  free_receiver (suc n) ch s = bind (look s) λ cur_ms t. bind (try_receiver ch cur_ms t) λ free u.
      elim free [
        | true ↦ ok (ch, cur_ms) u
        | false ↦ if ch == 0 then free_receiver n 1 u else free_receiver n 0 (sleep u)
      ]

  unfoldable pub begin_channel : ℕ → ℕ → ℕ → M (Probe D) (Unit {0})
  begin_channel tvch ch cur_ms s =
      bind (with_tuner (set_freq bus behind ch tvch 20) (occupy ch cur_ms tvch s))
        λ _ t. ok tt (sleep t)

  unfoldable pub try_channels : ℕ → List ℕ → M (Probe D) (Unit {0})
  try_channels fuel [] s = ok tt s
  try_channels fuel (tvch ∷ rest) s =
      bind (free_receiver fuel 0 s)
        λ r t. bind (begin_channel tvch r.0 r.1 t) λ _ u. try_channels fuel rest u

  -- A round over the receivers that are still tuned: whether receiver `ch` goes on.
  unfoldable pub still_busy : ℕ → M (Probe D) Bool
  still_busy ch s = bind (look s) λ cur_ms t.
      if t.end ch == 0 then ok false t else bind (finish ch cur_ms t) λ done u. ok (not done) u

  unfoldable pub finish_channels : ℕ → M (Probe D) (Unit {0})
  finish_channels zero s = stuck
  finish_channels (suc n) s = bind (still_busy 0 s) λ b0 t. bind (still_busy 1 t) λ b1 u. elim b0 [
    | true ↦ finish_channels n (sleep u)
    | false ↦ elim b1 [ true ↦ finish_channels n (sleep u) | false ↦ ok tt u ]
  ]

  -- The list that `get_ch_id` is given.
  unfoldable pub strong_channels : ℕ → List ℕ → Tuner D → Run (Probe D) (List ℕ)
  strong_channels fuel chlist tun =
      bind
        (try_channels fuel chlist
          (record { tun = tun; end = λ ch. 0; endch = λ ch. 0; strongch = [] }))
        λ _ t. bind (finish_channels fuel t) λ _ u. ok u.strongch u
