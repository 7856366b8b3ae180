-- ===== src/Bdos.antt =====
-- cpm/cpm_bdos.go: the system calls.
pub mod Console
pub mod Block
pub mod Files
pub mod Records
pub mod Sequential
pub mod Random
pub mod Drives
pub mod Directory
pub mod Strings
pub mod Stream
pub mod Writes
pub mod Kept
pub mod Session
