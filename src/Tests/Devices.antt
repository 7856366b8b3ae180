-- ===== src/Tests/Devices.antt =====
-- The printer, the input drivers, and the settings of the emulator at concrete states.
use cpmulator.Base.{
  ℕ, ◌+◌, ◌<◌, ◌≡◌, ◌⊎◌, inl, inr, refl, arith, true, false, some, List, [], ◌∷◌, codes, All,
}
use cpmulator.FilePath.{clean}
use cpmulator.Text.{to_lower}
use cpmulator.Memory.{Memory, get}
use cpmulator.Cpm.{Cpm, done}
use cpmulator.Printer.{printer_path}
use cpmulator.Host.Opening.{IsFile}
use cpmulator.Printer.Printed.{By, Printed, Prints, characters, print_by-Printed}
use cpmulator.ConsoleIn.Stty.{EchoStatus, Stty, stty_block_no_echo, tear_down}
use cpmulator.ConsoleIn.Stty.Echo.{IsInStep, stty_block_no_echo_lem}
use cpmulator.ConsoleIn.Termbox.{Termbox}
use cpmulator.ConsoleIn.Tty.{
  Gui, Console, TermboxInput, new_term, started, term_setup, term_tear_down,
}
use cpmulator.ConsoleIn.Tty.Restored.{Restores, term_tear_down-Restores}
use cpmulator.Bios.Reserved.{get_string_from_memory, reserved1}
use cpmulator.Bios.Reserved.Settings.{IsWord, reserved1-told}
use cpmulator.Tests.Disk.{s}
use cpmulator.Tests.Emulated.{env}

-- The file of the host is the printer.
abbrev printing : Cpm
printing = record s { printer = codes "A/X" }

printing-IsFile : IsFile printing.host (printer_path printing) 1
unfolding clean
printing-IsFile = (λ c. refl, refl, refl)

abbrev letters : List (By × ℕ)
letters = (By.bdos, b'O') ∷ (By.bios, b'K') ∷ []

print_by-Printed_example :
    (t : Cpm) × Prints letters printing t × Printed 1 (characters letters) printing.host t.host
print_by-Printed_example = print_by-Printed letters printing 1 printing-IsFile

abbrev tty : Stty
tty = record {
  state = EchoStatus.unknown;
  terminal = record {
    settings = record { echoes = true; raw = false };
    can_raw = true;
    byte = some b'A';
    can_restore = true;
    ready = true;
    can_stty = true;
  };
}

stty_block_no_echo_lem_example :
    let r = stty_block_no_echo tty in
    (IsInStep r.0
      × (r.0.terminal.settings.echoes ≡ false)
      × ((tear_down r.0).terminal.settings.echoes ≡ true))
    × ((r.1 ≡ some b'A') × (r.0.terminal.settings.raw ≡ false))
stty_block_no_echo_lem_example =
    ((stty_block_no_echo_lem tty).0 tt refl, (stty_block_no_echo_lem tty).2 b'A' (refl, refl, refl))

-- What termbox makes of the settings.
abbrev gui : Gui
gui = record { init = λ x. some (record x { echoes = true }); close = λ x. x }

abbrev console : Console
console = record { terminal = tty.terminal; contexts = []; next = 0 }

abbrev set_up : TermboxInput × Console
set_up = started (record { echoes = true; raw = true }) new_term console

abbrev with_keys : Termbox
with_keys = record { key_buffer = 13 ∷ [] }

set_up_lem : term_setup gui new_term console ≡ some set_up
unfolding term_setup
set_up_lem = refl

term_tear_down-Restores_example :
    Restores set_up.0 console (term_tear_down gui (record (set_up.0) { keys = with_keys }) set_up.1)
term_tear_down-Restores_example =
    term_tear_down-Restores gui new_term set_up.0 console set_up.1 with_keys set_up_lem refl

-- The command processor is asked for.
abbrev asking : Cpm
asking = record s {
  cpu = record (s.cpu) { de = record { hi = 0; lo = 0 }; hl = record { hi = 0; lo = 3 } };
}

ccp-IsWord : All IsWord (codes "ccp")
ccp-IsWord =
    ((omega arith, omega arith), ((omega arith, omega arith), ((omega arith, omega arith), tt)))

reserved1-told_example :
    (m : Memory) × (reserved1 env asking ≡ done (record asking { memory = m }))
    × (get_string_from_memory m asking.dma ≡ some (to_lower (codes "ccp")))
    × ((b : ℕ) → (b < asking.dma) ⊎ (asking.dma + 127 < b) → get m b ≡ get asking.memory b)
reserved1-told_example =
    reserved1-told env asking (codes "ccp") refl (inr (inl (refl, refl))) ccp-IsWord (omega arith)
      (omega arith) (omega arith)
