-- ===== src/Atsc/Mgt.antt =====
-- The master guide table: `parse_mgt` (mpgatsc.cpp). Its only effects are messages and the result, so
-- the classification of table types that chooses the message is left out.
use seztuner.Prelude.{ℕ, zero, suc, ◌+◌, bit_and, leb, if◌then◌else◌}
use seztuner.Atsc.Memory.{Memory, be16, Ret, done, failed}

-- The round at `pos` reads 11 bytes and steps over the descriptors that the last two announce.
unfoldable pub mgt_next : Memory → ℕ → ℕ
mgt_next pkt pos = pos + 11 + bit_and (be16 pkt (pos + 9)) 0xfff

unfoldable pub mgt_loop : ℕ → Memory → ℕ → ℕ → Ret
mgt_loop zero pkt len pos = done
mgt_loop (suc n) pkt len pos =
    let rest = mgt_loop n pkt len (mgt_next pkt pos) in
    if leb len (mgt_next pkt pos) then failed else rest

unfoldable pub parse_mgt : Memory → ℕ → ℕ → Ret
parse_mgt pkt len pos = mgt_loop (be16 pkt pos) pkt len (pos + 2)
