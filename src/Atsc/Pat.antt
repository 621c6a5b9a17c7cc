-- ===== src/Atsc/Pat.antt =====
-- The program association table: the loops of `parse_tbl` for PID 0 (mpgatsc.cpp).
pub mod Programs
use seztuner.Prelude.{
  ℕ, zero, suc, ◌+◌, ◌-◌, ◌*◌, ◌/◌, ◌%◌, ◌^◌, bit_and, Option, none, some, Bool, ◌&&◌, not, ltb,
  leb, ◌==◌, if◌then◌else◌,
}
use seztuner.Atsc.Memory.{Memory, be16, update, Atsc, Env, Ret, done, failed}
use seztuner.Atsc.Section.{Header}

-- One round's `childpid`.
abbrev pub child_pid : Memory → ℕ → ℕ
child_pid pkt pos = bit_and (be16 pkt (pos + 2)) 0x1fff

-- The first loop: the highest program number, and the PID of program 3, which carries the PMT.
unfoldable pub scan_programs : ℕ → Memory → ℕ → ℕ → ℕ → record { pat_use : ℕ; pmt_pid : ℕ }
scan_programs zero pkt pos pat_use pmt_pid = record { pat_use = pat_use; pmt_pid = pmt_pid }
scan_programs (suc n) pkt pos pat_use pmt_pid =
    let prog = be16 pkt pos in
    scan_programs n pkt (pos + 4) (if ltb pat_use prog then prog else pat_use)
      (if prog == 3 && not (child_pid pkt pos == 0) then child_pid pkt pos else pmt_pid)

-- The second loop: `pat[prog] = childpid`, unless `prog` is not below `pat_use`.
unfoldable pub fill_pat : ℕ → Memory → ℕ → ℕ → Memory → Memory
fill_pat zero pkt pos pat_use pat = pat
fill_pat (suc n) pkt pos pat_use pat =
    let prog = be16 pkt pos in
    fill_pat n pkt (pos + 4) pat_use
      (if leb pat_use prog then pat else update pat prog (child_pid pkt pos))

-- `count = (len - pos) >> 2; count--;` in `u32`.
unfoldable pub entry_count : ℕ → ℕ → ℕ
entry_count len pos = ((len + 2 ^ 32 - pos) % 2 ^ 32 / 4 + 2 ^ 32 - 1) % 2 ^ 32

-- `if (pat_use >= pat_max) { free(pat); pat = 0; pat_max = pat_use; }`
unfoldable pub regrow_pat : Atsc → Atsc
regrow_pat s = if leb s.pat_max s.pat_use then record s { pat = none; pat_max = s.pat_use } else s

-- `if (!pat) pat = calloc(sizeof(*pat), pat_max)`, and the second loop.
unfoldable pub store_programs : Env → Memory → ℕ → ℕ → Atsc → Atsc × Ret
store_programs env pkt count pos s = elim s.pat [
  | some p ↦ (record s { pat = some (fill_pat count pkt pos s.pat_use p) }, done)
  | none ↦
      if env.calloc_pat_ok
      then (
        record s { pat = some (fill_pat count pkt pos s.pat_use (λ _. 0)); pat_block = s.pat_max },
        done,
      )
      else (s, failed)
]

-- Both loops over `count` entries from `pos` on.
unfoldable pub load_programs : Env → Memory → ℕ → ℕ → Atsc → Atsc × Ret
load_programs env pkt count pos s =
    let seen = scan_programs count pkt pos 0 s.pmt_pid in
    store_programs env pkt count pos
      (regrow_pat (record s { pat_use = seen.pat_use + 1; pmt_pid = seen.pmt_pid }))

-- After the header was accepted.
unfoldable pub parse_pat : Env → Memory → ℕ → Header → Atsc → Atsc × Ret
parse_pat env pkt len h s =
    let s' = if h.id == 0 then s else record s { pat_tsid = h.id } in
    if not (bit_and (h.pos + len) 3 == 0)
    then (s', failed)
    else load_programs env pkt (entry_count len h.pos) h.pos s'
