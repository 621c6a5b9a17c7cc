-- ===== src/Mpgts.antt =====
-- Reception in a thread of its own (mpgts.h, mpgts.cpp): the thread hands datagrams to the two receivers' `mpgatsc`,
-- and the program asks it for a reset by `want_reset`.
pub mod Thread
pub mod Invariant
pub mod Buffers
pub mod Pieces
pub mod Control
pub mod Handshake
