-- ===== src/Command.antt =====
-- The program (main.cpp): its arguments, and what it does with a tuner.
pub mod Arguments
pub mod Session
