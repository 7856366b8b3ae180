-- ===== src/Cpm.antt =====
-- cpm/cpm.go: the state of the emulator, and how a handler of a system call ends.
use cpmulator.Base.{
  ℕ, ◌+◌, ◌*◌, ◌≡◌, Bool, Option, none, some, List, Text, IsByte, text_eq, u8, [], bit_or,
}
use cpmulator.Text.{utf8}
use cpmulator.Memory
use cpmulator.Fcb.{FcbFind}
use cpmulator.ConsoleIn
use cpmulator.ConsoleOut
use cpmulator.Host
use cpmulator.Assoc.{lookup}

-- A register pair of the Z80.
pub record Register : Type 0 where
  pub hi : ℕ
  pub lo : ℕ

-- `FileCache`; a file without a handle is one of the embedded file system.
pub record FileCache : Type 0 where
  pub name : Text
  pub handle : Option ℕ

-- `ErrExit`, `ErrHalt`, `ErrBoot`, `ErrUnimplemented`, and any other error.
pub data Error : Type 0 where
  exit halt boot unimplemented other : Error

-- What of the processor of `github.com/koron-go/z80` the handlers read and write.
pub record Cpu : Type 0 where
  pub af : Register
  pub bc : Register
  pub de : Register
  pub hl : Register
  pub pc : ℕ
  pub sp : ℕ
  pub halt : Bool

-- `CPM`, and the host that it runs on. Of the tables of handlers see `Bdos` and `Bios`.
pub record Cpm : Type 0 where
  pub cpu : Cpu
  pub memory : Memory.Memory
  pub input : ConsoleIn.ConsoleIn
  pub output : ConsoleOut.ConsoleOut
  pub dma : ℕ
  pub start : ℕ
  pub bios_address : ℕ
  pub bdos_address : ℕ
  pub bios_err : Option Error
  pub ccp : Text
  pub files : List (ℕ × FileCache)
  pub static : List (Text × Text)
  pub drives : List (Text × Text)
  pub current_drive : ℕ
  pub user_number : ℕ
  pub find_first_results : List FcbFind
  pub find_offset : ℕ
  pub simple_debug : Bool
  pub printer : Text
  pub host : Host.Host

-- How a call ends: it returns, with an error or none, or it panics, or it never returns.
pub data Result : Type 0 where
  returns : Option Error → Cpm → Result
  panic : Result
  hang : Result

-- `return nil`
abbrev pub done : Cpm → Result
done s = Result.returns none s

abbrev pub fails : Error → Cpm → Result
fails e s = Result.returns (some e) s

-- The pair's 16 bits, `Register.U16` of the processor, and its inverse `SetU16`.
pub record Pairs : Type 0 where
  pub to_u16 : Register → ℕ
  pub of_u16 : ℕ → Register
  pub to_u16_lem : (r : Register) → IsByte r.hi → IsByte r.lo → to_u16 r ≡ r.hi * 256 + r.lo

-- Registers are set through these.
abbrev pub set_af : ℕ → ℕ → Cpm → Cpm
set_af hi lo s = record s { cpu = record (s.cpu) { af = record { hi = hi; lo = lo } } }

abbrev pub set_hl : ℕ → ℕ → Cpm → Cpm
set_hl hi lo s = record s { cpu = record (s.cpu) { hl = record { hi = hi; lo = lo } } }

abbrev pub set_a : ℕ → Cpm → Cpm
set_a a s = record s { cpu = record (s.cpu) { af = record (s.cpu.af) { hi = a } } }

abbrev pub set_b : ℕ → Cpm → Cpm
set_b b s = record s { cpu = record (s.cpu) { bc = record (s.cpu.bc) { hi = b } } }

-- `cpm.drives[string(drive)]`, which is empty for a drive that is not in the map.
unfoldable pub drive_path : Cpm → ℕ → Text
unfolding utf8
drive_path s letter = elim (lookup text_eq (utf8 letter) s.drives) [ none ↦ [] | some p ↦ p ]

-- `cpm.userNumber<<4 | cpm.currentDrive`, a `uint8`.
unfoldable pub user_drive : Cpm → ℕ
user_drive s = bit_or (u8 (s.user_number * 16)) s.current_drive
