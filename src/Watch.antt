-- ===== src/Watch.antt =====
-- `get_ch_id` (main.cpp): two channels at a time are tuned, watched until their tables have come, and taken off the
-- list.
pub mod Stays
pub mod Race
pub mod Bytes
pub mod Rounds
use seztuner.Prelude.{
  ℕ, zero, suc, bit_and, bit_or, List, [], Option, none, some, Bool, true, false, ◌&&◌, not, leb,
  ◌==◌, if◌then◌else◌, get_or, length, update,
}
use seztuner.Run.{Run, ok, fail, stuck, M, bind}
use seztuner.Socket.Bus.{Bus}
use seztuner.Tuner.{on_dev, get_freq, set_freq}
use seztuner.Tuner.Reception.{Strength, get_mse, stop_ts}
use seztuner.Mpgts.Pieces.{Piece, run_pieces}
use seztuner.Mpgts.Control.{Mpgts, on_tun, start_ts}
use seztuner.Texts.{Texts, start_texts, gather_both}
use seztuner.Keyboard.{Keyboard, rawgetch}

-- `texts` has `vct_all` and `chlist`.
pub record Watch (D : Type 0) : Type 0 where
  pub itm : Mpgts D
  pub texts : Texts
  pub status : ℕ → ℕ
  pub go : Bool

abbrev pub on_itm : {D A : Type 0} → M (Mpgts D) A → M (Watch D) A
on_itm m s = elim (m s.itm) [
  | ok a t ↦ ok a (record s { itm = t })
  | fail t ↦ fail (record s { itm = t })
  | stuck ↦ stuck
]

-- `ip` is `ntohl(sock.get_myip())`, and `moves` is what the receiving thread has done up to the next look at what it
-- shares, in any pieces, none after it has ended. `grants` is `malloc` and `realloc`.
pub record Site (D : Type 0) : Type 0 where
  pub bus : Bus D
  pub behind : ℕ → ℕ
  pub moves : D → List Piece
  pub keyboard : Keyboard D
  pub ip : ℕ
  pub grants : ℕ → Bool

-- What the receiving thread does.
unfoldable pub thread : {D : Type 0} → (D → List Piece) → Mpgts D → Mpgts D
thread moves s = record s { shared = (run_pieces (moves s.tun.dev) s.shared).0 }

-- `status[ch] |= bits`
unfoldable pub mark : {D : Type 0} → ℕ → ℕ → Watch D → Watch D
mark ch bits s = record s { status = update s.status ch (bit_or (s.status ch) bits) }

unfoldable pub is_set : {D : Type 0} → ℕ → ℕ → Watch D → Bool
is_set ch bits s = not (bit_and (s.status ch) bits == 0)

unfoldable pub all_done : {D : Type 0} → Watch D → Bool
all_done s = is_set 0 0x40 s && is_set 1 0x40 s

-- The characters of `get_vct`, none for a null pointer.
unfoldable pub table_text : {D : Type 0} → Mpgts D → ℕ → List ℕ
table_text itm ch = elim ((itm.shared.atsc ch).vctstr) [ none ↦ [] | some text ↦ text ]

module _ {D : Type 0} (site : Site D) where
  open site use {bus, behind, moves, keyboard, ip, grants}

  unfoldable pub retune : ℕ → ℕ → M (Watch D) (Unit {0})
  retune ch tvch s =
      if get_freq ch s.itm.tun == tvch
      then ok tt s
      else on_itm (on_tun (set_freq bus behind ch tvch 20)) s

  -- Receiver 1 is left alone when one channel is left.
  unfoldable pub tune_both : M (Watch D) (Unit {0})
  tune_both s = bind (retune 0 (get_or s.texts.chlist 0 0) s) λ _ t.
      if leb (length t.texts.chlist) 1 then ok tt t else retune 1 (get_or t.texts.chlist 1 0) t

  unfoldable pub measure : ℕ → M (Watch D) Strength
  measure ch s = on_itm (on_tun (on_dev (get_mse bus ch))) s

  unfoldable pub await_lock : ℕ → M (Watch D) (Unit {0})
  await_lock ch s =
      bind (measure ch s) λ mse t. ok tt (record t { status = update t.status ch mse.status })

  unfoldable pub sample : ℕ → M (Watch D) (Unit {0})
  sample ch s = bind (measure ch s) λ _ t. ok tt t

  unfoldable pub open_stream : ℕ → M (Watch D) (Unit {0})
  open_stream ch s =
      if is_set ch 0x20 s
      then ok tt s
      else bind (on_itm (start_ts bus (λ i. thread moves) ip ch) s) λ _ t. ok tt (mark ch 0x20 t)

  unfoldable pub run_thread : Watch D → Watch D
  run_thread s = record s { itm = thread moves s.itm }

  unfoldable pub await_table : ℕ → M (Watch D) (Unit {0})
  await_table ch s = elim ((s.itm.shared.atsc ch).vctstr) [
    | none ↦ ok tt s
    | some text ↦ bind (on_itm (on_tun (on_dev (stop_ts bus ch))) s) λ _ t. ok tt (mark ch 0x40 t)
  ]

  -- A look at receiver `ch`.
  unfoldable pub visit : ℕ → M (Watch D) (Unit {0})
  visit ch s =
      if not (bit_and (s.status ch) 0xf == 0xf)
      then await_lock ch s
      else if is_set ch 0x40 s
      then sample ch s
      else bind (open_stream ch s) λ _ t. await_table ch (run_thread t)

  unfoldable pub visit_both : M (Watch D) (Unit {0})
  visit_both s =
      bind (visit 0 s) λ _ t. if leb (length t.texts.chlist) 1 then ok tt t else visit 1 t

  -- Whether a key was pressed. None is asked for in the first look.
  unfoldable pub ask_key : ℕ → M (Watch D) Bool
  ask_key j s =
      if j == 0
      then ok false s
      else bind (on_itm (on_tun (on_dev (rawgetch keyboard))) s) λ r t. ok (not (r == 0)) t

  unfoldable pub doze : Watch D → Watch D
  doze s = record s {
    itm = record s.itm { tun = record s.itm.tun { dev = bus.usleep 160000 s.itm.tun.dev } };
  }

  -- The looks from `j` on, of which `n` are left. After the one that finds both receivers done there is none.
  unfoldable pub watch : ℕ → ℕ → M (Watch D) (Unit {0})
  watch zero j s = ok tt s
  watch (suc n) j s = elim (all_done s) [
    | true ↦ visit_both s
    | false ↦ bind (ask_key j s) λ stop t. elim stop [
      | true ↦ ok tt (record t { go = false })
      | false ↦ bind (visit_both (doze t)) λ _ u. watch n (suc j) u
    ]
  ]

  unfoldable pub gather_texts : M (Watch D) (Unit {0})
  gather_texts s = elim (gather_both grants s.status (table_text s.itm) s.texts) [
    | none ↦ fail s
    | some texts ↦ ok tt (record s { texts = texts })
  ]

  unfoldable pub round : M (Watch D) (Unit {0})
  round s =
      bind (tune_both s)
        λ _ t. bind (watch 100 0 (record t { status = λ ch. 0 })) λ _ u. gather_texts (run_thread u)

  unfoldable pub rounds : ℕ → M (Watch D) (Unit {0})
  rounds zero s = stuck
  rounds (suc n) s = elim (s.go && not (length s.texts.chlist == 0)) [
    | true ↦ bind (round s) λ _ t. rounds n t
    | false ↦ ok tt s
  ]

  unfoldable pub start_watch : List ℕ → Mpgts D → Watch D
  start_watch chlist itm = record {
    itm = itm;
    texts = start_texts chlist;
    status = λ ch. 0;
    go = true;
  }

  -- The text that is printed.
  unfoldable pub get_ch_id : ℕ → List ℕ → Mpgts D → Run (Watch D) (List ℕ)
  get_ch_id fuel chlist itm =
      if not (grants 65536)
      then fail (start_watch chlist itm)
      else bind (rounds fuel (start_watch chlist itm)) λ _ t. ok t.texts.vct_all t
