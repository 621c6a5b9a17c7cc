-- ===== src/Atsc/Channels.antt =====
-- The virtual channel tables: `parse_vct` and `parse_descriptors` (mpgatsc.cpp). A text is a list of
-- character codes.
pub mod Descriptors
pub mod Text
use seztuner.Prelude.{
  ℕ, zero, suc, ◌+◌, ◌-◌, ◌*◌, ◌/◌, ◌%◌, ◌^◌, bit_and, List, [], ◌∷◌, ◌++◌, Option, none, some,
  Bool, ◌&&◌, not, ltb, leb, ◌==◌, if◌then◌else◌, take, length,
}
use seztuner.Atsc.Memory.{Memory, be16, Atsc, Env, Ret, done, failed, runaway}

-- Where the loop over the descriptors ends, with the bytes that are left over. `len` is a `u32`, and
-- `len -= dlen` wraps when a descriptor claims more than is left. `none` is out of fuel.
unfoldable pub parse_descriptors : ℕ → Memory → ℕ → ℕ → Option (ℕ × ℕ)
parse_descriptors zero pkt pos len = none
parse_descriptors (suc fuel) pkt pos len =
    let dlen = pkt (pos + 1) in
    let rest = parse_descriptors fuel pkt (pos + 2 + dlen) ((len - 2 + 2 ^ 32 - dlen) % 2 ^ 32) in
    if ltb len 2 then some (pos, len) else rest

-- The `n` code units of a short name.
unfoldable pub code_units : ℕ → Memory → ℕ → List ℕ
code_units zero pkt pos = []
code_units (suc n) pkt pos = be16 pkt pos ∷ code_units n pkt (pos + 2)

-- `modulation_str`; 8-VSB is expected and not named.
unfoldable pub modulation_str : Env → ℕ → List ℕ
modulation_str env m =
    if m == 0
    then b'b' ∷ b'a' ∷ b'd' ∷ b':' ∷ b'0' ∷ []
    else if m == 1
    then b'a' ∷ b'n' ∷ b'a' ∷ b'l' ∷ b'o' ∷ b'g' ∷ []
    else if m == 2
    then b's' ∷ b'c' ∷ b't' ∷ b'e' ∷ b'1' ∷ []
    else if m == 3
    then b's' ∷ b'c' ∷ b't' ∷ b'e' ∷ b'2' ∷ []
    else if m == 4
    then []
    else if m == 5
    then b'1' ∷ b'6' ∷ b'v' ∷ b's' ∷ b'b' ∷ []
    else take 31 (env.format_modulation m)

-- `shortname_ascii` with its room for 63 characters. After a failed conversion "err" is appended if
-- `dstlen`, the room that is left, is below 60.
unfoldable pub shortname_ascii : Env → List ℕ → List ℕ
shortname_ascii env units =
    let out = take 63 (env.convert units).text in
    if not (env.convert units).complete && ltb (63 - length out) 60
    then out ++ b'e' ∷ b'r' ∷ b'r' ∷ []
    else out

-- `vline`, and the newline behind it. `entry` is where the short name begins.
unfoldable pub channel_line : Env → ℕ → ℕ → Memory → ℕ → List ℕ
channel_line env tvch names pkt entry =
    let pos = entry + names * 2 in
    let ch_no = bit_and (pkt pos * 2 ^ 16 + pkt (pos + 1) * 256 + pkt (pos + 2)) 0xfffff in
    take 255 (
      env.format_line tvch (ch_no / 2 ^ 10) (bit_and ch_no 1023)
        (modulation_str env (pkt (pos + 3))) (shortname_ascii env (code_units names pkt entry)))
    ++ b'\n' ∷ []

-- `tbldesclen` of the entry: the short name is followed by 16 bytes of fields.
unfoldable pub descriptors_len : ℕ → Memory → ℕ → ℕ
descriptors_len names pkt entry = bit_and (be16 pkt (entry + names * 2 + 16)) 0x3ff

-- The rounds of `parse_vct`, with the text so far. Fuel for the descriptors is one round for each byte and
-- one more, which is enough when they stay within `tbldesclen`.
unfoldable pub vct_loop :
    Env → ℕ → ℕ → Memory → ℕ → ℕ → ℕ → List ℕ → record { text : List ℕ; ret : Ret }
vct_loop env tvch zero pkt len pos names text = record { text = text; ret = done }
vct_loop env tvch (suc n) pkt len pos names text =
    let text' = text ++ channel_line env tvch names pkt pos in
    let tbldesclen = descriptors_len names pkt pos in
    let start = pos + names * 2 + 18 in
    let rest = vct_loop env tvch n pkt len (start + tbldesclen) names text' in
    elim (parse_descriptors (tbldesclen + 1) pkt start tbldesclen) [
      | none ↦ record { text = text'; ret = runaway }
      | some e ↦ if ltb len (start + tbldesclen) then record { text = text'; ret = done } else rest
    ]

-- `vctstr` is allocated on first use and then emptied. `satellite` tells the table SVCT, whose short
-- names have 16 code units and not 7.
unfoldable pub parse_vct : Env → Memory → ℕ → ℕ → Bool → Atsc → Atsc × Ret
parse_vct env pkt len pos satellite s =
    let names : ℕ = if satellite then 16 else 7 in
    let out = vct_loop env s.tvch (pkt pos) pkt len (pos + 1) names [] in
    let stored : Atsc × Ret = (record s { vctstr = some out.text }, out.ret) in
    elim s.vctstr [ some old ↦ stored | none ↦ if env.malloc_vct_ok then stored else (s, failed) ]
