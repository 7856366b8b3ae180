-- ===== src/Emulator/Table.antt =====
-- cpm/cpm.go, `New`: the tables of the calls of BDOS and BIOS.
pub mod Numbers
use cpmulator.Base.{
  ℕ, Bool, true, false, Option, none, some, List, [], ◌∷◌, ◌++◌, Text, ◌==◌, codes, if◌then◌else◌,
}
use cpmulator.Assoc.{lookup}
use cpmulator.Cpm.{Cpm, Result}
use cpmulator.Env.{Env}
use cpmulator.Printer.{printer_write, print_char}
use cpmulator.Bdos.Console
use cpmulator.Bdos.Files
use cpmulator.Bdos.Drives
use cpmulator.Bdos.Directory
use cpmulator.Bdos.Random
use cpmulator.Bios
use cpmulator.Bios.Reserved

-- `CPMHandler`
pub record CpmHandler : Type 0 where
  pub desc : Text
  pub call : Cpm → Result
  pub fake : Bool
  pub noisy : Bool

abbrev pub Calls : Type 0
Calls = List (ℕ × CpmHandler)

abbrev real : Text → (Cpm → Result) → CpmHandler
real desc call = record { desc = desc; call = call; fake = false; noisy = false }

abbrev noisily : CpmHandler → CpmHandler
noisily h = record h { noisy = true }

abbrev faked : CpmHandler → CpmHandler
faked h = record h { fake = true }

-- The handler of a call.
abbrev pub call_of : Calls → ℕ → Option (Cpm → Result)
call_of calls n = elim (lookup ◌==◌ n calls) [ none ↦ none | some h ↦ some h.call ]

module _ (env : Env) where
  open env use {pairs}

  -- `bdos[0]` to `bdos[12]`
  unfoldable pub console_calls : Calls
  console_calls =
      (0, real (codes "P_TERMCPM") Console.exit)
      ∷ (1, noisily (real (codes "C_READ") Console.read_char))
      ∷ (2, noisily (real (codes "C_WRITE") Console.write_char))
      ∷ (3, noisily (real (codes "A_READ") Console.aux_read))
      ∷ (4, noisily (real (codes "A_WRITE") Console.aux_write))
      ∷ (5, noisily (faked (real (codes "L_WRITE") printer_write)))
      ∷ (6, noisily (real (codes "C_RAWIO") Console.raw_io))
      ∷ (7, real (codes "GET_IOBYTE") Console.get_io_byte)
      ∷ (8, real (codes "SET_IOBYTE") Console.set_io_byte)
      ∷ (9, real (codes "C_WRITESTRING") (Console.write_string pairs))
      ∷ (10, real (codes "C_READSTRING") (Console.read_string pairs env.perform))
      ∷ (11, noisily (real (codes "C_STAT") Console.console_status))
      ∷ (12, real (codes "S_BDOSVER") Console.bdos_version)
      ∷ []

  -- `bdos[13]` to `bdos[23]`
  unfoldable pub file_calls : Calls
  file_calls =
      (13, real (codes "DRV_ALLRESET") Drives.drive_all_reset)
      ∷ (14, real (codes "DRV_SET") Drives.drive_set)
      ∷ (15, real (codes "F_OPEN") (Files.file_open pairs))
      ∷ (16, real (codes "F_CLOSE") (Files.file_close pairs))
      ∷ (17, real (codes "F_SFIRST") (Directory.find_first pairs env.sort))
      ∷ (18, real (codes "F_SNEXT") Directory.find_next)
      ∷ (19, real (codes "F_DELETE") (Directory.delete_file pairs))
      ∷ (20, real (codes "F_READ") (Files.read pairs))
      ∷ (21, real (codes "F_WRITE") (Files.write pairs))
      ∷ (22, real (codes "F_MAKE") (Files.make_file pairs))
      ∷ (23, real (codes "F_RENAME") (Directory.rename_file pairs))
      ∷ []

  -- `bdos[24]` to `bdos[36]`
  unfoldable pub drive_calls : Calls
  drive_calls =
      (24, faked (real (codes "DRV_LOGINVEC") Console.login_vec))
      ∷ (25, real (codes "DRV_GET") Console.drive_get)
      ∷ (26, real (codes "F_DMAOFF") (Console.set_dma pairs))
      ∷ (27, faked (real (codes "DRV_ALLOCVEC") Console.drive_alloc))
      ∷ (28, faked (real (codes "DRV_SETRO") Console.drive_set_ro))
      ∷ (29, faked (real (codes "DRV_ROVEC") Console.drive_ro_vec))
      ∷ (30, faked (real (codes "F_ATTRIB") Console.set_file_attributes))
      ∷ (31, faked (real (codes "DRV_DPB") Console.get_drive_dpb))
      ∷ (32, real (codes "F_USERNUM") Drives.user_number)
      ∷ (33, real (codes "F_READRAND") (Random.read_rand pairs))
      ∷ (34, real (codes "F_WRITERAND") (Random.write_rand pairs))
      ∷ (35, real (codes "F_SIZE") (Random.file_size pairs))
      ∷ (36, real (codes "F_RANDREC") (Random.rand_record pairs))
      ∷ []

  -- `bdos[37]` and those after it
  unfoldable pub late_calls : Calls
  late_calls =
      (37, faked (real (codes "DRV_RESET") Console.drive_reset))
      ∷ (40, faked (real (codes "F_WRITEZF") (Random.write_rand pairs)))
      ∷ (45, faked (real (codes "F_ERRMODE") Console.error_mode))
      ∷ (105, faked (real (codes "T_GET") Console.time))
      ∷ (113, faked (real (codes "DirectScreenFunctions") Console.direct_screen_functions))
      ∷ (248, faked (real (codes "F_UPTIME") (Console.uptime pairs env.elapsed)))
      ∷ []

  -- The map `bdos`.
  unfoldable pub bdos_calls : Calls
  unfolding console_calls file_calls drive_calls late_calls
  bdos_calls = console_calls ++ (file_calls ++ (drive_calls ++ late_calls))

  -- The map `bios`.
  unfoldable pub bios_calls : Calls
  bios_calls =
      (0, real (codes "BOOT") Bios.cold_boot)
      ∷ (1, real (codes "WBOOT") Bios.warm_boot)
      ∷ (2, noisily (real (codes "CONST") Bios.bios_console_status))
      ∷ (3, noisily (real (codes "CONIN") Bios.bios_console_input))
      ∷ (4, noisily (real (codes "CONOUT") Bios.bios_console_output))
      ∷ (5, faked (real (codes "LIST") print_char))
      ∷ (15, faked (real (codes "LISTST") Bios.printer_status))
      ∷ (17, noisily (faked (real (codes "CONOST") Bios.screen_output_status)))
      ∷ (18, faked (real (codes "AUXIST") Bios.aux_input_status))
      ∷ (19, faked (real (codes "AUXOST") Bios.aux_output_status))
      ∷ (31, faked (real (codes "RESERVE1") (Reserved.reserved1 env)))
      ∷ []

  -- `Out`: port 0xFF is for the calls of the BIOS.
  unfoldable pub out : ℕ → ℕ → Cpm → Result
  unfolding bios_calls
  out addr val s =
      if addr == 0xff
      then Bios.bios_handler env.set_z env.reset_z (call_of bios_calls) val s
      else Result.returns none s

-- `In`
unfoldable pub in_port : ℕ → ℕ
in_port addr = 0

-- `LogNoisy`, of one table.
unfoldable pub log_noisy : Calls → Calls
log_noisy [] = []
log_noisy ((n, h) ∷ calls) = (n, record h { noisy = false }) ∷ log_noisy calls
