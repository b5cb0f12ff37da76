-- ===== src/Go.antt =====
-- The parts of the Go runtime that the program's code rests on: panics, slices, strings.
pub mod Outcome
pub mod Path
pub mod Slice
pub mod Text
