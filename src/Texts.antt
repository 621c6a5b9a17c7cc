-- ===== src/Texts.antt =====
-- `get_ch_id` (main.cpp), from the channel tables that were received to the text of all of them.
pub mod Room
use seztuner.Prelude.{
  ℕ, zero, suc, ◌+◌, ◌-◌, ◌*◌, ◌^◌, bit_and, List, [], ◌∷◌, ◌++◌, Option, none, some, Bool, true,
  false, ltb, leb, ◌==◌, if◌then◌else◌, take, drop, length,
}

-- `vct_all` is the text before its NUL, in `vct_max` characters, and `n_ch` the length of `chlist`.
pub record Texts : Type 0 where
  pub vct_all : List ℕ
  pub vct_max : ℕ
  pub chlist : List ℕ

unfoldable pub start_texts : List ℕ → Texts
start_texts chlist = record { vct_all = []; vct_max = 65536; chlist = chlist }

-- `malloc` or `realloc` grants the room or not.
unfoldable pub enlarge : (ℕ → Bool) → ℕ → Texts → Option Texts
enlarge grants len s =
    if ltb s.vct_max len
    then (if grants (s.vct_max * 2) then some (record s { vct_max = s.vct_max * 2 }) else none)
    else some s

-- `strcat`, and then `memmove` over `chlist[i]`.
unfoldable pub add_text : List ℕ → ℕ → Texts → Texts
add_text vct i s = record s {
  vct_all = s.vct_all ++ vct;
  chlist = take i s.chlist ++ drop (i + 1) s.chlist;
}

-- A receiver whose table has come. `i` is the place of its channel in the list.
unfoldable pub gather_one : (ℕ → Bool) → List ℕ → ℕ → Texts → Option Texts
gather_one grants vct i s = elim (enlarge grants (length s.vct_all + length vct + 1) s) [
  | none ↦ none
  | some t ↦ some (add_text vct i t)
]

-- The loop from receiver `ch` on, for `n` receivers. A channel that is removed leaves its place to the next one.
unfoldable pub gather : (ℕ → Bool) → (ℕ → ℕ) → (ℕ → List ℕ) → ℕ → ℕ → ℕ → Texts → Option Texts
gather grants status vct zero ch i s = some s
gather grants status vct (suc n) ch i s =
    if bit_and (status ch) 0x40 == 0
    then gather grants status vct n (suc ch) (i + 1) s
    else if leb (length s.chlist) i
    then some s
    else elim (gather_one grants (vct ch) i s) [
      | none ↦ none
      | some t ↦ gather grants status vct n (suc ch) i t
    ]

-- What a round of `get_ch_id` does with both receivers.
unfoldable pub gather_both : (ℕ → Bool) → (ℕ → ℕ) → (ℕ → List ℕ) → Texts → Option Texts
gather_both grants status vct s = gather grants status vct 2 0 0 s
