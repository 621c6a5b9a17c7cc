-- ===== src/Atsc/Channels/Text.antt =====
-- The channel list that `parse_vct` builds with `strcat` in a block of 65536 characters (mpgatsc.cpp).
use seztuner.Prelude.{
  ℕ, zero, suc, ◌+◌, ◌*◌, ◌≤◌, ◌<◌, ◌≡◌, arith, some, Bool, if◌then◌else◌, IsByte, List, length,
  length-append, length-take, take, ◌++◌, ◌∷◌, [],
}
use seztuner.Atsc.Memory.{Memory, Atsc, Env}
use seztuner.Atsc.Channels.{
  vct_loop, channel_line, descriptors_len, parse_vct, modulation_str, shortname_ascii, code_units,
}

length_line : (l : List ℕ) → length (take 255 l ++ b'\n' ∷ []) ≤ 256
length_line l = omega (arith, length-append {0} (take 255 l) (b'\n' ∷ []), length-take {0} 255 l)

length-channel_line :
    (env : Env) (tvch names : ℕ) (pkt : Memory) (entry : ℕ)
    → length (channel_line env tvch names pkt entry) ≤ 256
unfolding channel_line
length-channel_line env tvch names pkt entry = length_line (
    env.format_line tvch _ _ (modulation_str env _)
      (shortname_ascii env (code_units names pkt entry)))

length-vct_loop :
    (env : Env) (tvch n : ℕ) (pkt : Memory) (len pos names : ℕ) (text : List ℕ)
    → length (vct_loop env tvch n pkt len pos names text).text ≤ length text + n * 256
unfolding vct_loop
length-vct_loop env tvch zero pkt len pos names text = omega arith
length-vct_loop env tvch (suc n) pkt len pos names text =
    let text' = text ++ channel_line env tvch names pkt pos in
    ground (
      arith,
      length-channel_line env tvch names pkt pos,
      length-append text (channel_line env tvch names pkt pos),
      length-vct_loop env tvch n pkt len (pos + names * 2 + 18 + descriptors_len names pkt pos)
          names text',
    )

-- Whatever a channel table holds whose count is a byte, the text that parse_vct leaves takes less than
-- the 65536 characters allocated for it, which leaves room for the NUL.
pub parse_vct_fits :
    (env : Env) (pkt : Memory) (len pos : ℕ) (satellite : Bool) (s : Atsc) (text : List ℕ)
    → IsByte (pkt pos)
    → (parse_vct env pkt len pos satellite s).0.vctstr ≡ some text
    → length text < 65536
unfolding parse_vct
parse_vct_fits env pkt len pos satellite s text b e =
    ground (
      arith,
      length-vct_loop env s.tvch (pkt pos) pkt len (pos + 1) (if satellite then 16 else 7) [],
    )
