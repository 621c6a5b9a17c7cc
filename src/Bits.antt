-- ===== src/Bits.antt =====
-- Laws of `&`, `|` and `^` on native numbers. The recursion on binary digits is in Bits/Digits, the
-- group laws of `^` in Bits/Xor, masks and single-bit tests in Bits/Masks,
-- fields of several bits in Bits/Fields, and one bit in Bits/Single.
pub mod Digits
pub mod Xor
pub mod Masks
pub mod Fields
pub mod Single
