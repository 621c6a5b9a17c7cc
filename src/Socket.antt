-- ===== src/Socket.antt =====
-- The connection to a tuner (socket.h, socket.cpp). The kernel is a parameter: `Socket.Stream` has the
-- loops of `socket::write` and `socket::read` over it and `write_then_read`; `Socket.Registers` has the
-- requests that are made of one `write_then_read` each, over the interface `Bus`.
pub mod Bus
pub mod Link
pub mod Stream
pub mod Registers
