-- ===== src/Keyboard.antt =====
-- `rawgetch` (main.cpp): a key, if one was pressed, with the terminal in raw mode for a moment.
pub mod Restored
use seztuner.Prelude.{ℕ, ◌-◌, ◌^◌, bit_and, List, Option, none, some, ◌==◌, if◌then◌else◌, update}
use seztuner.Run.{Run, ok, fail, M, bind}

-- `struct termios`. `others` are the members that the source only copies.
pub record Termios : Type 0 where
  pub c_lflag : ℕ
  pub c_cc : ℕ → ℕ
  pub others : List ℕ

-- `tcgetattr`, `tcsetattr` and `fgetc` on stdin, and `errno`. `none` is EOF.
pub record Keyboard (D : Type 0) : Type 0 where
  pub tcgetattr : M D Termios
  pub tcsetattr : Termios → M D (Unit {0})
  pub fgetc : D → D × Option ℕ
  pub errno : D → ℕ

-- `ECHO` is 8 and `ICANON` 2, `VTIME` is 5 and `VMIN` 6.
unfoldable pub raw : Termios → Termios
raw orig = record orig {
  c_lflag = bit_and orig.c_lflag (2 ^ 32 - 1 - 10);
  c_cc = update (update orig.c_cc 5 0) 6 0;
}

module _ {D : Type 0} (keyboard : Keyboard D) where
  open keyboard use {tcgetattr, tcsetattr, fgetc, errno}

  unfoldable pub key_of : Option ℕ → M D ℕ
  key_of (some c) s = ok c s
  key_of none s = if errno s == 0 then ok 0 s else fail s

  -- `fail` is -1.
  unfoldable pub rawgetch : M D ℕ
  rawgetch s = bind (tcgetattr s) λ orig t.
      bind (tcsetattr (raw orig) t)
        λ _ u. let r = fgetc u in bind (tcsetattr orig r.0) λ _ v. key_of r.1 v
