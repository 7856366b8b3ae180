-- ===== src/Bios.antt =====
-- cpm/cpm_bios.go: the calls of the BIOS for the console and for boot, and the handler of all calls.
-- The flags of the processor are set by the library of it: `set_z` and `reset_z` are parameters.
pub mod Errors
pub mod Reserved
use cpmulator.Base.{ℕ, true, Option, none, some, if◌then◌else◌, ◌==◌}
use cpmulator.ConsoleIn
use cpmulator.ConsoleIn.{Read}
use cpmulator.ConsoleOut
use cpmulator.Cpm.{Cpm, Error, Result, done, fails, set_a}

-- The next instruction is at 0, the trap for a boot.
unfoldable pub cold_boot : Cpm → Result
cold_boot s = done (record s { cpu = record (s.cpu) { pc = 0 } })

unfoldable pub warm_boot : Cpm → Result
warm_boot s = done (record s { cpu = record (s.cpu) { pc = 0 } })

unfoldable pub bios_console_status : Cpm → Result
unfolding ConsoleIn.pending_input
bios_console_status s =
    if ConsoleIn.pending_input s.input then done (set_a 0xff s) else done (set_a 0 s)

-- With its error a driver returns the character 0.
unfoldable pub bios_console_input : Cpm → Result
unfolding ConsoleIn.block_no_echo
bios_console_input s = elim (ConsoleIn.block_no_echo s.input) [
  | Read.key c co ↦ done (set_a c (record s { input = co }))
  | Read.error co ↦ fails Error.other (set_a 0 (record s { input = co }))
  | Read.wait ↦ Result.hang
]

unfoldable pub bios_console_output : Cpm → Result
unfolding ConsoleOut.put
bios_console_output s = done (record s { output = ConsoleOut.put s.cpu.bc.lo s.output })

unfoldable pub printer_status : Cpm → Result
printer_status s = done (set_a 0xff s)

unfoldable pub screen_output_status : Cpm → Result
screen_output_status s = done (set_a 0xff s)

unfoldable pub aux_input_status : Cpm → Result
aux_input_status s = done (set_a 0xff s)

unfoldable pub aux_output_status : Cpm → Result
aux_output_status s = done (set_a 0xff s)

-- The error is recorded for later notice, and processing is halted.
abbrev pub record_error : Error → Cpm → Cpm
record_error e s = record s { bios_err = some e; cpu = record (s.cpu) { halt = true } }

module _ (set_z reset_z : ℕ → ℕ) where
  -- The zero flag, by A.
  abbrev pub with_zero_flag : Cpm → Cpm
  with_zero_flag s =
      if s.cpu.af.hi == 0
      then record s { cpu = record (s.cpu) { af = record (s.cpu.af) { lo = set_z s.cpu.af.lo } } }
      else record s { cpu = record (s.cpu) { af = record (s.cpu.af) { lo = reset_z s.cpu.af.lo } } }

  -- What follows the call of a handler.
  unfoldable pub after_handler : Result → Result
  after_handler (Result.returns none t) = done (with_zero_flag t)
  after_handler (Result.returns (some e) t) = done (with_zero_flag (record_error e t))
  after_handler Result.panic = Result.panic
  after_handler Result.hang = Result.hang

  -- `BiosHandler`, with the table of the calls.
  unfoldable pub bios_handler : (ℕ → Option (Cpm → Result)) → ℕ → Cpm → Result
  unfolding after_handler
  bios_handler calls val s = elim (calls val) [
    | none ↦ done (record_error Error.unimplemented s)
    | some handler ↦ after_handler (handler s)
  ]
