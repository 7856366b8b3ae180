-- ===== src/Printer.antt =====
-- cpm/prnc.go: the printer, which is a file of the host, and the calls that print.
pub mod Printed
use cpmulator.Base.{ℕ, none, some, [], ◌∷◌, Text}
use cpmulator.FilePath.{clean}
use cpmulator.Host
use cpmulator.Host.{opened, not_exist, failed}
use cpmulator.Cpm.{Cpm, Error, Result, done, fails}

-- The file at `prnPath`; the host knows it by its clean path.
abbrev pub printer_path : Cpm → Text
printer_path s = clean s.printer

-- `prnC`
unfoldable pub prn_c : ℕ → Cpm → Result
prn_c char s = elim (Host.create_file (printer_path s) s.host) [
  | opened fd h ↦ elim (Host.append fd (char ∷ []) h) [
    | none ↦ fails Error.other (record s { host = h })
    | some h' ↦ elim (Host.close fd h') [
      | none ↦ fails Error.other (record s { host = Host.closed fd h' })
      | some h'' ↦ done (record s { host = h'' })
    ]
  ]
  | not_exist ↦ fails Error.other s
  | failed ↦ fails Error.other s
]

-- `BdosSysCallPrinterWrite`
unfoldable pub printer_write : Cpm → Result
unfolding prn_c
printer_write s = prn_c s.cpu.de.lo s

-- `BiosSysCallPrintChar`
unfoldable pub print_char : Cpm → Result
unfolding prn_c
print_char s = prn_c s.cpu.bc.lo s
