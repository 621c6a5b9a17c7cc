-- ===== src/Watch/Bytes.antt =====
-- Channel tables that the receiving thread reads from bytes, for `get_ch_id` (main.cpp).
use seztuner.Prelude.{
  ℕ, zero, suc, ◌+◌, ◌<◌, ◌≡◌, sym, subst, arith, List, [], ◌∷◌, Bool, true, false, ltb, ◌==◌,
  if◌then◌else◌, update, length, Bool-cases, Option-cases, ==→eq, inl, inr,
}
use seztuner.Atsc.Memory.{Memory, Atsc, Env}
use seztuner.Atsc.Demux.Short.{AreBytes, Small, PacketsOfBytes, demux_all-Small, init-Small}
use seztuner.Mpgts.Thread.{Receivers, Turn, datagram, packets_from}
use seztuner.Mpgts.Invariant.{Keeps}
use seztuner.Mpgts.Pieces.{
  Piece, round, taken, restarted, handled, written, PieceKeeps, PiecesKeep, run_pieces-BothHold,
}
use seztuner.Mpgts.Control.{Mpgts, ask_reset}
use seztuner.Texts.{Texts}
use seztuner.Texts.Room.{HasRoom}
use seztuner.Watch.{Site, thread, table_text}
use seztuner.Watch.Stays.{Stable}

-- Datagrams and fresh memory hold bytes.
pub record OfBytes (turn : Turn) : Type 0 where
  pub fresh : (i ofs : ℕ) → AreBytes (turn.packet_env i ofs).fresh
  pub received : (i r : ℕ) (rx : Memory) → turn.received i ≡ datagram r rx → AreBytes rx

-- A channel table that is not complete has fewer than 65536 characters.
abbrev pub PieceOfBytes : Piece → Type 0
PieceOfBytes (round turn) = OfBytes turn
PieceOfBytes (taken i) = Unit {0}
PieceOfBytes (restarted i env) = Unit {0}
PieceOfBytes (handled i turn) = OfBytes turn
PieceOfBytes (written i text) = length text < 65536

abbrev pub AllOfBytes : List Piece → Type 0
AllOfBytes [] = Unit {0}
AllOfBytes (piece ∷ rest) = PieceOfBytes piece × AllOfBytes rest

if-bytes :
    (c : Bool) (l : List (Env × Memory)) → PacketsOfBytes l → PacketsOfBytes (if c then l else [])
if-bytes true l h = h
if-bytes false l h = tt

packets_from-bytes :
    (env : ℕ → Env) (rx : Memory) (r ofs n : ℕ)
    → ((k : ℕ) → AreBytes (env k).fresh)
    → AreBytes rx
    → PacketsOfBytes (packets_from env rx r ofs n)
unfolding packets_from
packets_from-bytes env rx r ofs zero f b = tt
packets_from-bytes env rx r ofs (suc n) f b =
    if-bytes (ltb ofs r) _
      ((f ofs, λ k. b (ofs + k)), packets_from-bytes env rx r (ofs + 188) n f b)

Small-Keeps : (turn : Turn) → OfBytes turn → Keeps Small turn
Small-Keeps turn h = record {
  reset = λ i a k. init-Small (turn.init_env i) a k;
  packets = λ i r rx a e k.
      demux_all-Small (packets_from (turn.packet_env i) rx r 12 r) a
        (packets_from-bytes (turn.packet_env i) rx r 12 r (h.fresh i) (h.received i r rx e)) k;
}

Small-PieceKeeps : (piece : Piece) → PieceOfBytes piece → PieceKeeps Small piece
Small-PieceKeeps (round turn) h = Small-Keeps turn h
Small-PieceKeeps (taken i) h = tt
Small-PieceKeeps (restarted i env) h = λ a k. init-Small env a k
Small-PieceKeeps (handled i turn) h = Small-Keeps turn h
Small-PieceKeeps (written i text) h = λ a k. record {
  bytes = k.bytes;
  short = λ other e.
      let same : text ≡ other = ground (arith, e) in subst (λ l. length l < 65536) same h;
}

Small-PiecesKeep : (pieces : List Piece) → AllOfBytes pieces → PiecesKeep Small pieces
Small-PiecesKeep [] h = tt
Small-PiecesKeep (piece ∷ rest) h = (Small-PieceKeeps piece h.0, Small-PiecesKeep rest h.1)

-- The text so far has room, and so have the tables that may be added.
pub record HasRoomFor (s : Texts) (r : Receivers) : Type 0 where
  pub room : HasRoom s
  pub small : (i : ℕ) → Small (r.atsc i)

pub table_text-short :
    {D : Type 0} (x : Texts) (s : Mpgts D) (ch : ℕ)
    → HasRoomFor x s.shared
    → length (table_text s ch) < 65536
unfolding table_text
table_text-short x s ch h = elim (Option-cases ((s.shared.atsc ch).vctstr)) [
  | inl c ↦ ground (arith, c)
  | inr (text, c) ↦ let small = h.small ch in let k = small.short text c in ground (arith, c, k)
]

noted-Small :
    (r : Receivers) (ch tvch : ℕ)
    → ((i : ℕ) → Small (r.atsc i))
    → (i : ℕ) → Small (update r.atsc ch (record (r.atsc ch) { tvch = tvch }) i)
noted-Small r ch tvch h i = elim (Bool-cases (ch == i)) [
  | inl c ↦
      let same = ==→eq ch i c in
      let note : Atsc = record (r.atsc ch) { tvch = tvch } in
      let found : update r.atsc ch note i ≡ note = ground (arith, same) in
      let here = h ch in subst Small (sym found) (record { bytes = here.bytes; short = here.short })
  | inr c ↦
      let note : Atsc = record (r.atsc ch) { tvch = tvch } in
      let found : update r.atsc ch note i ≡ r.atsc i = ground (arith, c) in
      subst Small (sym found) (h i)
]

pub HasRoomFor-Stable :
    {D : Type 0} (site : Site D) → ((d : D) → AllOfBytes (site.moves d)) → Stable site HasRoomFor
unfolding thread ask_reset
HasRoomFor-Stable site bytes = record {
  kept = λ x s h.
      let moves = site.moves s.tun.dev in
      let both =
        run_pieces-BothHold Small moves s.shared (Small-PiecesKeep moves (bytes s.tun.dev))
          (record { of = h.small }) in
      record { room = h.room; small = both.of };
  asked = λ x s ch h. record { room = h.room; small = h.small };
  noted = λ x r ch tvch h. record { room = h.room; small = noted-Small r ch tvch h.small };
}
