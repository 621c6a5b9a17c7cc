-- ===== src/Mpgts/Pieces.antt =====
-- The receiving thread in pieces (mpgts.cpp, `thread_main`): the program's other thread looks at what they
-- share between any two of them.
use seztuner.Prelude.{ℕ, ◌≡◌, refl, List, [], ◌∷◌, some, ◌==◌, Bool-cases, inl, inr, if◌then◌else◌}
use seztuner.Atsc.Memory.{Atsc, Env}
use seztuner.Atsc.Demux.{init}
use seztuner.Mpgts.Thread.{
  Receivers, Turn, Status, going, returned, hung, next, set_atsc, with_atsc, clear, serve_reset,
  take_datagram, thread_turn,
}
use seztuner.Mpgts.Invariant.{
  BothHold, Keeps, set_atsc-BothHold, with_atsc-BothHold, next-BothHold, take_datagram-BothHold,
  thread_turn-BothHold,
}

-- `round` is all of a round. Its pieces are `taken i`, which is `want_reset[i] = 0`, `restarted i`, which is
-- `atsc[i].init()`, and `handled i`, which is the datagram of receiver `i`; `written i` is for a channel table
-- of which `parse_vct` has written this much.
pub data Piece : Type 0 where
  round : Turn → Piece
  taken : ℕ → Piece
  restarted : ℕ → Env → Piece
  handled : ℕ → Turn → Piece
  written : ℕ → List ℕ → Piece

unfoldable pub run_piece : Piece → Receivers → Receivers × Status
run_piece (round turn) s = thread_turn turn s
run_piece (taken i) s = (clear i s, going)
run_piece (restarted i env) s = with_atsc i s (init env (s.atsc i))
run_piece (handled i turn) s = take_datagram turn i (turn.received i) s
run_piece (written i text) s = (set_atsc i (record (s.atsc i) { vctstr = some text }) s, going)

unfoldable pub run_pieces : List Piece → Receivers → Receivers × Status
run_pieces [] s = (s, going)
run_pieces (piece ∷ rest) s = next (run_piece piece s) (run_pieces rest)

next-going : (r : Receivers × Status) → next r (λ s. (s, going)) ≡ r
next-going (s, going) = refl
next-going (s, returned) = refl
next-going (s, hung) = refl

-- The reset of a receiver in its pieces.
abbrev reset_pieces : Turn → ℕ → Receivers → List Piece
reset_pieces turn i s =
    if s.want_reset i == 0 then [] else taken i ∷ restarted i (turn.init_env i) ∷ []

pub serve_reset-pieces :
    (turn : Turn) (i : ℕ) (s : Receivers)
    → serve_reset turn i s ≡ run_pieces (reset_pieces turn i s) s
unfolding serve_reset run_pieces run_piece clear
serve_reset-pieces turn i s =
    let all = next-going (with_atsc i (clear i s) (init (turn.init_env i) (s.atsc i))) in
    elim (Bool-cases (s.want_reset i == 0)) [ inl c ↦ rw c refl | inr c ↦ rw (c, all) refl ]

module _ (P : Atsc → Type 0) where
  -- What keeps a property of the receivers.
  abbrev pub PieceKeeps : Piece → Type 0
  PieceKeeps (round turn) = Keeps P turn
  PieceKeeps (taken i) = Unit {0}
  PieceKeeps (restarted i env) = (a : Atsc) → P a → P (init env a).0
  PieceKeeps (handled i turn) = Keeps P turn
  PieceKeeps (written i text) = (a : Atsc) → P a → P (record a { vctstr = some text })

  abbrev pub PiecesKeep : List Piece → Type 0
  PiecesKeep [] = Unit {0}
  PiecesKeep (piece ∷ rest) = PieceKeeps piece × PiecesKeep rest

  run_piece-BothHold :
      (piece : Piece) (s : Receivers)
      → PieceKeeps piece
      → BothHold P s
      → BothHold P (run_piece piece s).0
  unfolding run_piece clear
  run_piece-BothHold (round turn) s keeps h = thread_turn-BothHold P turn s keeps h
  run_piece-BothHold (taken i) s keeps h = record { of = h.of }
  run_piece-BothHold (restarted i env) s keeps h =
      with_atsc-BothHold P i s (init env (s.atsc i)) (keeps (s.atsc i) (h.of i)) h
  run_piece-BothHold (handled i turn) s keeps h =
      take_datagram-BothHold P turn i (turn.received i) s keeps refl h
  run_piece-BothHold (written i text) s keeps h =
      set_atsc-BothHold P i (record (s.atsc i) { vctstr = some text }) s (keeps (s.atsc i) (h.of i))
        h

  pub run_pieces-BothHold :
      (pieces : List Piece) (s : Receivers)
      → PiecesKeep pieces
      → BothHold P s
      → BothHold P (run_pieces pieces s).0
  unfolding run_pieces
  run_pieces-BothHold [] s keeps h = h
  run_pieces-BothHold (piece ∷ rest) s keeps h =
      next-BothHold P (run_piece piece s) (run_pieces rest) (run_piece-BothHold piece s keeps.0 h)
        (λ t k. run_pieces-BothHold rest t keeps.1 k)
