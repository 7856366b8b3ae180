-- ===== src/Tests.antt =====
-- The theorems at concrete inputs.
mod Blocks
mod Console
mod Disk
mod Calls
mod Emulated
mod Ended
mod Devices
mod Renamed
mod Session
mod Returns
mod Sound
