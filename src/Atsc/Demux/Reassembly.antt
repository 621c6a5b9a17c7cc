-- ===== src/Atsc/Demux/Reassembly.antt =====
-- What `thread_demux` (mpgatsc.cpp) hands to the table parser, in terms of the payloads of the packets
-- of one PID.
use seztuner.Prelude.{
  ℕ, zero, suc, ◌+◌, ◌*◌, ◌≤◌, ◌<◌, List, [], ◌∷◌, ◌++◌, ◌≡◌, refl, sym, ap, ap₂, ◌∙◌, arith, true,
  false, bit_and, get_or, take, length, leb, ltb, ◌==◌, length-append, inl, inr, Bool-cases, ltb→lt,
}
use seztuner.Bits.Masks.{and_mask}
use seztuner.Atsc.Memory.{Memory, bytes, memcpy, Atsc, Env, Ret, done}
use seztuner.Atsc.Table.{parse_tbl}
use seztuner.Atsc.Demux.{max_pkt_len, section_len, store_bytes, after_table, try_section, fill}
use seztuner.Atsc.Demux.Contents.{length-bytes, get_or-bytes, take-bytes, bytes-memcpy}

-- The length that the first bytes of a section announce, header included.
unfoldable pub announced : List ℕ → ℕ
announced b = bit_and (get_or b 1 0 * 256 + get_or b 2 0) 0xfff + 3

-- The parser is called in state `t` on a block that begins with `b`, for as many bytes as announced.
pub record Parses (env : Env) (pid : ℕ) (b : List ℕ) (t : Atsc) (r : Atsc × Ret) : Type 0 where
  pub block : Memory
  pub called : r ≡ after_table pid (parse_tbl env block (announced b) pid t)
  pub begins : bytes block 0 (announced b) ≡ take (announced b) b

pub announced_bounds : (b : List ℕ) → (3 ≤ announced b) × (announced b < max_pkt_len)
unfolding announced
announced_bounds b = omega (arith, and_mask 12 (get_or b 1 0 * 256 + get_or b 2 0))

section_len-announced : (buf : Memory) (n : ℕ) → 3 ≤ n → section_len buf ≡ announced (bytes buf 0 n)
unfolding section_len announced
section_len-announced buf n h =
    ap₂ (λ (x y : ℕ). bit_and (x * 256 + y) 0xfff + 3) (sym (get_or-bytes buf 0 n 1 (omega arith)))
      (sym (get_or-bytes buf 0 n 2 (omega arith)))

section_len-ge : (buf : Memory) → 3 ≤ section_len buf
unfolding section_len
section_len-ge buf = omega arith

-- While fewer bytes than announced are there, the parser waits.
not_full : (buf : Memory) (n : ℕ) → n < announced (bytes buf 0 n) → n < section_len buf
not_full buf n h = elim (Bool-cases (ltb n 3)) [
  | inl few ↦ omega (arith, section_len-ge buf, ltb→lt n 3 few)
  | inr enough ↦
      let three : 3 ≤ n = ground arith in omega (arith, section_len-announced buf n three)
]

try_section_waits :
    (env : Env) (pid : ℕ) (buf : Memory) (n : ℕ) (s : Atsc)
    → s.pktlen pid ≡ n
    → n < announced (bytes buf 0 n)
    → try_section env pid buf s ≡ (s, done)
unfolding try_section
try_section_waits env pid buf n s e h = ground (arith, not_full buf n h)

try_section_parses :
    (env : Env) (pid : ℕ) (buf : Memory) (n : ℕ) (s : Atsc)
    → s.pktlen pid ≡ n
    → announced (bytes buf 0 n) ≤ n
    → try_section env pid buf s
      ≡ after_table pid (parse_tbl env buf (announced (bytes buf 0 n)) pid s)
unfolding try_section
try_section_parses env pid buf n s e h =
    let three : 3 ≤ n = omega (arith, announced_bounds (bytes buf 0 n)) in
    let len = section_len-announced buf n three in
    let some_bytes : (s.pktlen pid == 0) ≡ false = ground arith in
    let full : leb (section_len buf) (s.pktlen pid) ≡ true = ground (arith, len) in
    rw (some_bytes, full, len)

-- The state in which a packet with these bytes leaves a PID's buffer, before any parsing.
abbrev pub stored : Atsc → Memory → ℕ → ℕ → ℕ → ℕ → Memory → Atsc
stored s pkt pid pos at len buf = store_bytes pid (memcpy buf at pkt pos len) (at + len) s

pub stored_len :
    (s : Atsc) (pkt : Memory) (pid pos at len : ℕ) (buf : Memory)
    → (stored s pkt pid pos at len buf).pktlen pid ≡ at + len
unfolding store_bytes
stored_len s pkt pid pos at len buf = ground arith

-- `fill` in terms of the bytes `b` that the buffer then holds.
pub fill_waits :
    (env : Env) (pkt : Memory) (pid pos at len : ℕ) (buf : Memory) (s : Atsc)
    → let b = bytes buf 0 at ++ bytes pkt pos len in
      length b < announced b
      → fill env pkt pid pos at len buf s ≡ (stored s pkt pid pos at len buf, done)
unfolding fill
fill_waits env pkt pid pos at len buf s h =
    let e = bytes-memcpy buf pkt at pos len in
    try_section_waits env pid (memcpy buf at pkt pos len) (at + len) _
      (stored_len s pkt pid pos at len buf)
      (rw e (
        omega (
          arith,
          h,
          length-append (bytes buf 0 at) (bytes pkt pos len),
          length-bytes buf 0 at,
          length-bytes pkt pos len,
        )))

pub fill-Parses :
    (env : Env) (pkt : Memory) (pid pos at len : ℕ) (buf : Memory) (s : Atsc)
    → let b = bytes buf 0 at ++ bytes pkt pos len in
      announced b ≤ length b
      → Parses env pid b (stored s pkt pid pos at len buf) (fill env pkt pid pos at len buf s)
unfolding fill
fill-Parses env pkt pid pos at len buf s h =
    let buf' = memcpy buf at pkt pos len in
    let b = bytes buf 0 at ++ bytes pkt pos len in
    let e : bytes buf' 0 (at + len) ≡ b = bytes-memcpy buf pkt at pos len in
    let n : length b ≡ at + len = sym (ap length e) ∙ length-bytes buf' 0 (at + len) in
    record {
      block = buf';
      called =
          try_section_parses env pid buf' (at + len) _ (stored_len s pkt pid pos at len buf)
            (rw e (omega (arith, h, n)))
          ∙ ap
              (λ l.
                after_table pid
                  (parse_tbl env buf' (announced l) pid (stored s pkt pid pos at len buf)))
              e;
      begins =
          sym (take-bytes buf' 0 (at + len) (announced b) (omega (arith, h, n)))
          ∙ ap (take (announced b)) e;
    }

get_or-append_left : (b x : List ℕ) (i : ℕ) → i < length b → get_or (b ++ x) i 0 ≡ get_or b i 0
get_or-append_left [] x i h = elim h [ ]
get_or-append_left (c ∷ b) x zero h = refl
get_or-append_left (c ∷ b) x (suc i) h = get_or-append_left b x i (omega arith)

take-append_left : (n : ℕ) (b x : List ℕ) → n ≤ length b → take n (b ++ x) ≡ take n b
take-append_left zero b x h = refl
take-append_left (suc n) [] x h = elim h [ ]
take-append_left (suc n) (c ∷ b) x h = ap (λ l. c ∷ l) (take-append_left n b x (omega arith))

-- Once its three first bytes are there, what follows does not change a section's length.
announced-append : (b x : List ℕ) → 3 ≤ length b → announced (b ++ x) ≡ announced b
unfolding announced
announced-append b x h =
    ap₂ (λ (p q : ℕ). bit_and (p * 256 + q) 0xfff + 3) (get_or-append_left b x 1 (omega arith))
      (get_or-append_left b x 2 (omega arith))

pub Parses-append :
    (env : Env) (pid : ℕ) (b x : List ℕ) (t : Atsc) (r : Atsc × Ret)
    → announced b ≤ length b
    → Parses env pid b t r
    → Parses env pid (b ++ x) t r
Parses-append env pid b x t r h p =
    let e : announced (b ++ x) ≡ announced b =
      announced-append b x (omega (arith, announced_bounds b, h)) in
    record {
      block = p.block;
      called = p.called ∙ ap (λ n. after_table pid (parse_tbl env p.block n pid t)) (sym e);
      begins =
          ap (bytes p.block 0) e
          ∙ p.begins
          ∙ sym (take-append_left (announced b) b x h)
          ∙ ap (λ n. take n (b ++ x)) (sym e);
    }

-- A part of an unfinished section is unfinished.
pub unfinished_prefix :
    (b x : List ℕ) → length (b ++ x) < announced (b ++ x) → length b < announced b
unfinished_prefix b x h = elim (Bool-cases (ltb (length b) 3)) [
  | inl few ↦ omega (arith, announced_bounds b, ltb→lt (length b) 3 few)
  | inr three ↦
      let enough : 3 ≤ length b = ground arith in
      omega (arith, h, announced-append b x enough, length-append b x)
]
