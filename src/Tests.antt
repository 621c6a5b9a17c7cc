-- ===== src/Tests.antt =====
-- Runs of the theorems at concrete inputs, and the inputs.
mod Inputs
mod Checks
mod Tables
mod Packets
mod Registers
mod Connection
mod Receivers
mod Channels
mod Threads
mod Network
mod Strong
mod Merge
mod Program
mod Trial
mod Watching
