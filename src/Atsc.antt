-- ===== src/Atsc.antt =====
-- The ATSC demultiplexer of mpgatsc.h and mpgatsc.cpp: its state, and what one call of it may meet in
-- the C library. Memory is a function from offsets to bytes, so that a read behind the end of a
-- buffer yields some byte and not a made-up zero. The dump file's name serves messages only and is
-- left out, as is all output to stderr.
pub mod Memory
pub mod Section
pub mod Pat
pub mod Mgt
pub mod Channels
pub mod Table
pub mod Demux
