-- ===== src/Tests.antt =====
-- Concrete runs, and the theorems at concrete inputs.
mod Samples
mod Archive
mod Names
mod Commands
mod Readers
mod Buffers
