-- ===== src/Tests/Tables.antt =====
-- The table parsers at concrete sections.
use seztuner.Prelude.{
  ℕ, ◌+◌, ◌-◌, ◌≤◌, ◌<◌, ◌≡◌, ◌≢◌, ◌↔◌, refl, arith, inl, List, [], ◌∷◌, none, some, true, false,
  bit_and, All, IsByte, length,
}
use seztuner.Crc.{xor_selected, mpeg2_crc_byte, mpeg2_crc_loop, mpeg2_crc}
use seztuner.Atsc.Memory.{Memory, Atsc, done}
use seztuner.Atsc.Section.{
  check_room, check_numbers, version_field, check_version, crc_correct, parse_long, mpg_parse_hdr,
}
use seztuner.Atsc.Section.Accepted.{Intact, Current, mpg_parse_hdr_iff}
use seztuner.Atsc.Section.Versions.{mpg_parse_hdr_stuck, mpg_parse_hdr_repeated}
use seztuner.Atsc.Pat.{scan_programs, regrow_pat, store_programs, load_programs}
use seztuner.Atsc.Pat.Programs.{last_pid, load_programs_lem}
use seztuner.Atsc.Channels.{
  parse_descriptors, code_units, modulation_str, shortname_ascii, channel_line, descriptors_len,
  vct_loop, parse_vct,
}
use seztuner.Atsc.Channels.Descriptors.{
  Chain, end, next, parse_descriptors-Chain, parse_descriptors_overrun,
}
use seztuner.Atsc.Channels.Text.{parse_vct_fits}
use seztuner.Tests.Inputs.{
  all_bytes, all_bytes-All, buffer, buffer-IsByte, pat_bytes, vct_bytes, library, fresh_state,
}

abbrev pat : Memory
pat = buffer pat_bytes

are_bytes : All IsByte pat_bytes
unfolding all_bytes
are_bytes = all_bytes-All pat_bytes refl

long : bit_and (pat 1) 0x80 ≢ 0
long e = absurd (omega (arith, e))

accepted : (mpg_parse_hdr pat 20 0 0 32 0).accepted ≡ true
unfolding mpg_parse_hdr parse_long crc_correct check_version check_numbers check_room version_field
    mpeg2_crc mpeg2_crc_loop mpeg2_crc_byte xor_selected
accepted = refl

mpg_parse_hdr_iff_example :
    ((mpg_parse_hdr pat 20 0 0 32 0).accepted ≡ true) ↔ (Intact pat 20 0 0 × Current pat 20 0 32)
mpg_parse_hdr_iff_example = mpg_parse_hdr_iff pat 20 0 0 32 0 long

mpg_parse_hdr_stuck_example :
    ((mpg_parse_hdr pat 20 0 0 7 0).accepted ≡ false) × ((mpg_parse_hdr pat 20 0 0 7 0).ver ≡ 7)
mpg_parse_hdr_stuck_example =
    mpg_parse_hdr_stuck pat 20 0 0 7 0 (buffer-IsByte pat_bytes are_bytes) (omega arith) refl long

mpg_parse_hdr_repeated_example :
    let next = mpg_parse_hdr pat 20 0 0 (mpg_parse_hdr pat 20 0 0 32 0).ver 0 in
    (next.accepted ≡ false) × (next.pos ≡ 0) × (next.ver ≡ (mpg_parse_hdr pat 20 0 0 32 0).ver)
mpg_parse_hdr_repeated_example =
    mpg_parse_hdr_repeated pat 20 0 0 0 32 0 (buffer-IsByte pat_bytes are_bytes) long accepted

abbrev loaded : Atsc
loaded = (load_programs library pat 2 8 fresh_state).0

loads : load_programs library pat 2 8 fresh_state ≡ (loaded, done)
unfolding load_programs scan_programs regrow_pat store_programs
loads = refl

load_programs_lem_example :
    (m : Memory) × (loaded.pat ≡ some m)
    × (loaded.pat_block ≡ loaded.pat_max)
    × (loaded.pat_use ≤ loaded.pat_block)
    × ((prog p : ℕ) → last_pid 2 pat 8 prog ≡ some p → (prog < loaded.pat_use) × (m prog ≡ p))
load_programs_lem_example = load_programs_lem library pat 2 8 fresh_state loaded (inl refl) loads

-- Two descriptors, of one byte and of none, and a byte that is left over.
abbrev descriptors : Memory
descriptors = buffer (0xa0 ∷ 1 ∷ 7 ∷ 0xa1 ∷ 0 ∷ 9 ∷ [])

two_descriptors : Chain descriptors 0 6 1
two_descriptors = next (next (end (omega arith)))

parse_descriptors-Chain_example : parse_descriptors 7 descriptors 0 6 ≡ some (0 + (6 - 1), 1)
parse_descriptors-Chain_example =
    parse_descriptors-Chain 7 descriptors two_descriptors (omega arith) (omega arith)

long_bytes : All IsByte (0xa0 ∷ 200 ∷ [])
unfolding all_bytes
long_bytes = all_bytes-All (0xa0 ∷ 200 ∷ []) refl

parse_descriptors_overrun_example : parse_descriptors 9 (buffer (0xa0 ∷ 200 ∷ [])) 0 6 ≡ none
parse_descriptors_overrun_example =
    parse_descriptors_overrun 9 (buffer (0xa0 ∷ 200 ∷ [])) 0 6
      (buffer-IsByte (0xa0 ∷ 200 ∷ []) long_bytes) (omega arith) (omega arith) (omega arith)

abbrev channels : List ℕ
channels = 0x4b ∷ 0x54 ∷ 0x4c ∷ 0x41 ∷ 0 ∷ 0 ∷ 0 ∷ 10 ∷ []

parses : (parse_vct library (buffer vct_bytes) 60 0 false fresh_state).0.vctstr ≡ some channels
unfolding parse_vct vct_loop channel_line shortname_ascii code_units descriptors_len modulation_str
    parse_descriptors
parses = refl

parse_vct_fits_example : length channels < 65536
parse_vct_fits_example =
    parse_vct_fits library (buffer vct_bytes) 60 0 false fresh_state channels (omega arith) parses
