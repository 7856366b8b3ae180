-- ===== src/Emulator/Load.antt =====
-- cpm/cpm.go, `LoadBinary` and `LoadCCP`: a program goes to RAM.
pub mod Loaded
use cpmulator.Base.{ℕ, true, false, Option, none, some, Text}
use cpmulator.Memory
use cpmulator.Memory.{Memory}
use cpmulator.Host
use cpmulator.FilePath.{clean}
use cpmulator.Ccp
use cpmulator.Cpm.{Cpm, Error, Result, done, fails}
use cpmulator.Env.{Env}
use cpmulator.Bdos.Block.{with_stored}
use cpmulator.Emulator.Patch.{fixup_ram}

-- No arguments: the DMA area is empty, and the two control blocks have no names.
unfoldable pub default_area : Memory → Memory
unfolding Memory.set Memory.fill_range
default_area m =
    let m1 = Memory.fill_range (Memory.set m 0x80 0) 0x81 31 0 in
    let m2 = Memory.fill_range (Memory.set m1 0x5c 0) 0x5d 11 b' ' in
    Memory.fill_range (Memory.set m2 0x6c 0) 0x6d 11 b' '

-- What follows the load of a program.
abbrev pub prepared : Cpm → Cpm
prepared s = record s { memory = fixup_ram s.bios_address s.bdos_address (default_area s.memory) }

unfoldable pub load_binary : Text → Cpm → Result
unfolding Memory.load_file clean default_area fixup_ram
load_binary filename s =
    elim (Memory.load_file s.memory s.start (Host.read_file (clean filename) s.host)) [
      | none ↦ Result.panic
      | some (m, true) ↦ fails Error.other (record s { memory = m })
      | some (m, false) ↦ done (prepared (record s { memory = m }))
    ]

unfoldable pub load_ccp : Env → Cpm → Result
unfolding default_area fixup_ram
load_ccp env s = elim (Ccp.get env.dr env.ccpz s.ccp) [
  | none ↦ fails Error.other s
  | some helper ↦
      with_stored helper.start helper.bytes s
        (λ t. done (prepared (record t { start = helper.start })))
]
