-- ===== src/Tests/Emulated.antt =====
-- cpm/cpm.go at a concrete state: programs are loaded and started.
use cpmulator.Base.{
  ℕ, ◌+◌, ◌≤◌, ◌<◌, ◌≡◌, ◌≢◌, ◌⊎◌, arith, false, none, some, List, [], ◌∷◌, Text, codes, length,
  All,
}
use cpmulator.FilePath.{clean}
use cpmulator.Memory
use cpmulator.Memory.{empty, get, get_range}
use cpmulator.Host
use cpmulator.Ccp
use cpmulator.Cpm.{Cpm, Error, Result, done, fails, user_drive}
use cpmulator.Env.{Env}
use cpmulator.Emulator.Options.{zero_cpu}
use cpmulator.Emulator.Patch.{fixup_ram}
use cpmulator.Emulator.Patch.Entries.{IsEntry, IsLow, fixup_ram_lem}
use cpmulator.Emulator.Load.{load_binary, load_ccp}
use cpmulator.Emulator.Load.Loaded.{IsSetUp, load_binary_lem, load_ccp_lem}
use cpmulator.Text.Ascii.{IsAscii}
use cpmulator.Emulator.Start.{command_line, start_up}
use cpmulator.Emulator.Start.Arguments.{IsTold, start_up_lem}
use cpmulator.Tests.Disk.{s}
use cpmulator.Tests.Calls.{pairs, prints, as_it_is, set_z, reset_z}

abbrev pub env : Env
env = record {
  pairs = pairs;
  set_z = set_z;
  reset_z = reset_z;
  perform = prints;
  sort = as_it_is;
  elapsed = 0;
  version = codes "v1";
  width = 80;
  height = 24;
  no_size = false;
  drivers = [];
  dr = 0xc3 ∷ 0 ∷ 0 ∷ [];
  ccpz = 0xc9 ∷ [];
}

fixup_ram_lem_example :
    ((i : ℕ) → i < 30 → IsEntry 0xce00 i (fixup_ram 0xce00 0xc000 empty))
    × IsLow 0xce00 0xc000 (get empty 4) (fixup_ram 0xce00 0xc000 empty)
    × ((b : ℕ)
        → 8 ≤ b
        → (b < 0xce00) ⊎ (0xce00 + 240 ≤ b)
        → get (fixup_ram 0xce00 0xc000 empty) b ≡ get empty b)
fixup_ram_lem_example = fixup_ram_lem 0xce00 0xc000 empty (omega arith) (omega arith) (omega arith)

abbrev program : Text
program = codes "hello"

abbrev name : Text
name = codes "A/X"

load_binary_lem_example :
    (Host.read_file (clean name) s.host ≡ none
      → load_binary name s ≡ fails Error.other (record s { memory = empty }))
    × (Host.read_file (clean name) s.host ≡ some program
        → 65536 < s.start + length program
        → load_binary name s ≡ Result.panic)
    × (Host.read_file (clean name) s.host ≡ some program
        → s.start < s.bios_address
        → s.start + length program ≤ s.bios_address
        → (m : Memory.Memory) × (load_binary name s ≡ done (record s { memory = m }))
          × (get_range m s.start (length program) ≡ program)
          × IsSetUp s.bios_address s.bdos_address 0 m)
load_binary_lem_example =
    load_binary_lem name program s (omega arith, omega arith, omega arith) (omega arith)

load_ccp_lem_example :
    (Ccp.get env.dr env.ccpz s.ccp ≡ none → load_ccp env s ≡ fails Error.other s)
    × ((helper : Ccp.Flavour)
        → Ccp.get env.dr env.ccpz s.ccp ≡ some helper
        → 0x100 ≤ helper.start
        → helper.start < 65536
        → helper.start + length helper.bytes ≤ 65536
        → (helper.start + length helper.bytes ≤ s.bios_address)
          ⊎ (s.bios_address + 240 ≤ helper.start)
        → (m : Memory.Memory) × (load_ccp env s
            ≡ done (record s { memory = m; start = helper.start }))
          × (get_range m helper.start (length helper.bytes) ≡ helper.bytes)
          × IsSetUp s.bios_address s.bdos_address (get s.memory 4) m
          × ((b : ℕ)
              → 0x100 ≤ b
              → b < 65536
              → (b < helper.start) ⊎ (helper.start + length helper.bytes ≤ b)
              → (b < s.bios_address) ⊎ (s.bios_address + 240 ≤ b)
              → get m b ≡ get s.memory b))
load_ccp_lem_example = load_ccp_lem env s (omega arith, omega arith, omega arith)

abbrev args : List Text
args = codes "x.y" ∷ codes "b" ∷ []

args-IsAscii : All IsAscii (command_line args)
unfolding command_line
args-IsAscii = (omega arith, (omega arith, (omega arith, (omega arith, (omega arith, tt)))))

length-args : length (command_line args) ≤ 65000
unfolding command_line
length-args = omega arith

start_up_lem_example :
    (t : Cpm) × (start_up args s ≡ done t)
    × (t.cpu ≡ record zero_cpu { pc = s.start; bc = record { hi = 0; lo = user_drive s } })
    × (t.files ≡ [])
    × (get t.memory 4 ≡ user_drive s)
    × (0 < length (command_line args) → IsTold (command_line args) t.memory)
    × ((b : ℕ)
        → ((b < 0x5c) × (b ≢ 4)) ⊎ ((0x90 ≤ b) × (0x81 + length (command_line args) ≤ b))
        → get t.memory b ≡ get s.memory b)
start_up_lem_example = start_up_lem args s args-IsAscii length-args
