-- ===== src/Emulator/Options.antt =====
-- cpm/cpm.go: `New`, its options, and the settings of an emulator.
use cpmulator.Base.{
  ℕ, ◌%◌, Bool, Option, none, some, List, [], ◌∷◌, Text, text_eq, if◌then◌else◌, codes, false, ◌++◌,
}
use cpmulator.Assoc.{store}
use cpmulator.FilePath.{join_path}
use cpmulator.Memory
use cpmulator.Host
use cpmulator.Host.{Host, opened, not_exist, failed}
use cpmulator.ConsoleIn
use cpmulator.ConsoleIn.{ConsoleIn}
use cpmulator.ConsoleIn.Drivers
use cpmulator.ConsoleOut
use cpmulator.Cpm.{Cpm, Register, Cpu, drive_path}
use cpmulator.Env.{Env}
use cpmulator.Bdos.Block.{drive_letter}
use cpmulator.Bdos.Random.{close_quietly}

-- An option changes the emulator, or fails.
abbrev pub CpmOption : Type 0
CpmOption = Cpm → Option Cpm

unfoldable pub with_ccp : Text → CpmOption
with_ccp name c = some (record c { ccp = name })

unfoldable pub with_printer_path : Text → CpmOption
with_printer_path path c = some (record c { printer = path })

unfoldable pub with_output_driver : Text → CpmOption
with_output_driver name c = elim (ConsoleOut.new ConsoleOut.handlers name) [
  | none ↦ none
  | some driver ↦ some (record c { output = driver })
]

unfoldable pub with_input_driver : Env → Text → CpmOption
with_input_driver env name c = elim (Drivers.new env.drivers name c.input) [
  | none ↦ none
  | some driver ↦ some (record c { input = driver })
]

unfoldable pub with_host_exec : Text → CpmOption
with_host_exec prefix c =
    some (record c { input = ConsoleIn.set_system_command_prefix prefix c.input })

-- The loop over the options; `none` is the error of one of them.
unfoldable pub apply_options : List CpmOption → Cpm → Option Cpm
apply_options [] c = some c
apply_options (option ∷ options) c = elim (option c) [
  | none ↦ none
  | some c' ↦ apply_options options c'
]

-- `envNumber`: a number in the environment, as `strconv.ParseInt` reads it, where it is there.
unfoldable pub env_number : Option ℕ → ℕ → ℕ
env_number none def_value = def_value
env_number (some num) def_value = num % 65536

abbrev no_bits : Register
no_bits = record { hi = 0; lo = 0 }

-- A processor with all registers zero.
abbrev pub zero_cpu : Cpu
zero_cpu = record {
  af = no_bits;
  bc = no_bits;
  de = no_bits;
  hl = no_bits;
  pc = 0;
  sp = 0;
  halt = false;
}

-- The emulator that `New` makes, before its options.
unfoldable pub fresh_cpm : ConsoleIn → ConsoleOut.ConsoleOut → ℕ → ℕ → Host → Cpm
fresh_cpm input output bios bdos host = record {
  cpu = zero_cpu;
  memory = Memory.empty;
  input = input;
  output = output;
  dma = 0x80;
  start = 0x100;
  bios_address = bios;
  bdos_address = bdos;
  bios_err = none;
  ccp = codes "ccp";
  files = [];
  static = [];
  drives = [];
  current_drive = 0;
  user_number = 0;
  find_first_results = [];
  find_offset = 0;
  simple_debug = false;
  printer = codes "printer.log";
  host = host;
}

-- `New`, given the variables of the package `consolein`, the numbers of `BIOS_ADDRESS` and of
-- `BDOS_ADDRESS` in the environment, and the host; `none` is an error.
unfoldable pub new_cpm : Env → ConsoleIn → Option ℕ → Option ℕ → Host → List CpmOption → Option Cpm
unfolding apply_options fresh_cpm env_number
new_cpm env input bios bdos host options =
    elim (ConsoleOut.new ConsoleOut.handlers (codes "adm-3a")) [
      | none ↦ none
      | some o ↦ elim (Drivers.new env.drivers (codes "term") input) [
        | none ↦ none
        | some i ↦
            apply_options options
              (fresh_cpm i o (env_number bios 0xce00) (env_number bdos 0xc000) host)
      ]
    ]

-- The letters of the drives.
abbrev pub letters : List ℕ
letters =
    b'A' ∷ b'B' ∷ b'C' ∷ b'D' ∷ b'E' ∷ b'F' ∷ b'G' ∷ b'H' ∷ b'I' ∷ b'J' ∷ b'K' ∷ b'L' ∷ b'M' ∷ b'N'
    ∷ b'O' ∷ b'P' ∷ []

-- The loop of `SetDrives`.
unfoldable pub set_drives_of : Bool → List ℕ → List (Text × Text) → List (Text × Text)
set_drives_of enabled [] m = m
set_drives_of enabled (c ∷ cs) m =
    set_drives_of enabled cs (store text_eq (c ∷ []) (if enabled then c ∷ [] else b'.' ∷ []) m)

unfoldable pub set_drives : Bool → Cpm → Cpm
unfolding set_drives_of
set_drives enabled s = record s { drives = set_drives_of enabled letters s.drives }

unfoldable pub set_drive_path : Text → Text → Cpm → Cpm
set_drive_path drive path s = record s { drives = store text_eq drive path s.drives }

unfoldable pub set_static_filesystem : List (Text × Text) → Cpm → Cpm
set_static_filesystem fs s = record s { static = fs }

-- `StuffText`
unfoldable pub stuff_text : Text → Cpm → Cpm
stuff_text input s = record s { input = ConsoleIn.stuff_input input s.input }

-- The loop of `RunAutoExec`, over the names of the files that must be there.
unfoldable pub auto_exec : List Text → Cpm → Cpm
auto_exec [] s = record s {
  input = ConsoleIn.stuff_input (codes "SUBMIT AUTOEXEC" ++ 10 ∷ []) s.input;
}
auto_exec (name ∷ names) s =
    elim (Host.open_file (join_path (drive_path s (drive_letter s)) name) s.host) [
      | opened fd h ↦ auto_exec names (record s { host = close_quietly fd h })
      | not_exist ↦ s
      | failed ↦ s
    ]

unfoldable pub run_auto_exec : Cpm → Cpm
unfolding auto_exec
run_auto_exec s = auto_exec (codes "SUBMIT.COM" ∷ codes "AUTOEXEC.SUB" ∷ []) s
