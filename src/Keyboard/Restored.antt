-- ===== src/Keyboard/Restored.antt =====
-- The terminal around a call of `rawgetch` (main.cpp).
use seztuner.Prelude.{ℕ, Option, none, some, ◌≡◌, ◌==◌}
use seztuner.Run.{ok, Leaves, if-Leaves}
use seztuner.Keyboard.{Termios, Keyboard, raw, key_of, rawgetch}

-- The terminal's attributes are read as they are, set as they are given, and not changed by reading a key.
pub record Terminal {D : Type 0} (keyboard : Keyboard D) (attr : D → Termios) : Type 0 where
  pub get : (d : D) → keyboard.tcgetattr d ≡ ok (attr d) d
  pub set : (a : Termios) (d : D) → (e : D) × (keyboard.tcsetattr a d ≡ ok tt e) × (attr e ≡ a)
  pub keep : (d : D) → attr (keyboard.fgetc d).0 ≡ attr d

module _ {D : Type 0} (keyboard : Keyboard D) (attr : D → Termios) where
  key_of-Leaves : (P : D → Type 0) (key : Option ℕ) (s : D) → P s → Leaves P (key_of keyboard key s)
  unfolding key_of
  key_of-Leaves P (some c) s h = h
  key_of-Leaves P none s h = if-Leaves P (keyboard.errno s == 0) _ _ h h

  -- When the terminal's attributes can be read and set, rawgetch comes back and leaves them as they
  -- were, whether a key was pressed, none was, or reading failed.
  pub rawgetch_restores :
      Terminal keyboard attr → (d : D) → Leaves (λ e. attr e ≡ attr d) (rawgetch keyboard d)
  unfolding rawgetch
  rawgetch_restores law d =
      let (u, first, _) = law.set (raw (attr d)) d in
      let r = keyboard.fgetc u in
      let (v, second, same) = law.set (attr d) r.0 in
      rw (law.get d) (rw first (rw second (key_of-Leaves (λ e. attr e ≡ attr d) r.1 v same)))
