-- ===== src/Tests/Merge.antt =====
-- The second of two channels has sent its table (main.cpp, `get_ch_id`).
use seztuner.Prelude.{ℕ, ◌≡◌, refl, arith, List, [], ◌∷◌, ◌++◌, some, true, ◌==◌, if◌then◌else◌}
use seztuner.Texts.{Texts, start_texts, gather_both}
use seztuner.Texts.Room.{HasRoom, text_of, left_of, gather_both_lem}

abbrev statuses : ℕ → ℕ
statuses ch = if ch == 1 then 0x4f else 0x0f

abbrev tables : ℕ → List ℕ
tables ch = 65 ∷ 66 ∷ []

start-HasRoom : HasRoom (start_texts (7 ∷ 9 ∷ 11 ∷ []))
unfolding start_texts
start-HasRoom = record { fits = omega arith; large = omega arith }

gather_both_lem_example :
    (t : Texts) × (gather_both (λ n. true) statuses tables (start_texts (7 ∷ 9 ∷ 11 ∷ [])) ≡ some t)
    × HasRoom t
    × (t.vct_all ≡ ([] ++ text_of statuses tables 0) ++ text_of statuses tables 1)
    × (t.chlist ≡ left_of statuses 0 7 ++ left_of statuses 1 9 ++ 11 ∷ [])
unfolding start_texts
gather_both_lem_example =
    gather_both_lem (λ n. true) statuses tables (start_texts (7 ∷ 9 ∷ 11 ∷ [])) 7 9 (11 ∷ [])
      (λ n. refl) start-HasRoom (λ ch. omega arith) refl
