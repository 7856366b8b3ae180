-- ===== src/Emulator.antt =====
-- cpm/cpm.go: the emulator as a whole, from its tables of calls to the run of a program.
pub mod Table
pub mod Options
pub mod Patch
pub mod Load
pub mod Start
pub mod Sound
pub mod Returns
pub mod Loop
