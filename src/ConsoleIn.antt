-- ===== src/ConsoleIn.antt =====
-- consolein/consolein.go: console input by characters, over whichever driver is in use.
pub mod Line
pub mod Drivers
pub mod Termbox
pub mod Stty
pub mod Tty
use cpmulator.Base.{
  ℕ, zero, suc, ◌+◌, Bool, true, false, Option, none, some, List, [], ◌∷◌, ◌++◌, if◌then◌else◌,
  length, Text, text_eq, codes, leb, ◌==◌,
}
use cpmulator.Text.{to_lower, utf8}

-- A driver. `keys` is what it will deliver, in order: a byte, or `none` for an error of reading;
-- when that is used up it blocks. `pending` is its answer to `PendingInput`.
pub record Driver : Type 0 where
  pub name : Text
  pub keys : List (Option ℕ)
  pub pending : Bool

-- `ConsoleIn`, with the variables of the package: `stuffed`, `history`, `interruptCount`. `screen`
-- is what has been printed.
pub record ConsoleIn : Type 0 where
  pub driver : Driver
  pub system_prefix : Text
  pub stuffed : Text
  pub history : List Text
  pub interrupt_count : ℕ
  pub screen : Text

-- A read of one character: it comes, or the driver fails, or the call never returns.
pub data Read : Type 0 where
  key : ℕ → ConsoleIn → Read
  error : ConsoleIn → Read
  wait : Read

-- The driver's `BlockForCharacterNoEcho`.
unfoldable pub driver_read : List (Option ℕ) → ConsoleIn → Read
driver_read [] co = Read.wait
driver_read (none ∷ keys) co =
    Read.error (record co { driver = record (co.driver) { keys = keys } })
driver_read (some c ∷ keys) co =
    Read.key c (record co { driver = record (co.driver) { keys = keys } })

unfoldable pub read_from : Text → ConsoleIn → Read
unfolding driver_read
read_from [] co = driver_read co.driver.keys co
read_from (c ∷ rest) co = Read.key c (record co { stuffed = rest })

unfoldable pub block_no_echo : ConsoleIn → Read
unfolding read_from
block_no_echo co = read_from co.stuffed co

abbrev pub print : Text → ConsoleIn → ConsoleIn
print t co = record co { screen = co.screen ++ t }

-- `BlockForCharacterWithEcho`
unfoldable pub block_with_echo : ConsoleIn → Read
unfolding block_no_echo
block_with_echo co = elim (block_no_echo co) [
  | key c co' ↦ Read.key c (print (utf8 c) co')
  | error co' ↦ Read.error co'
  | wait ↦ Read.wait
]

unfoldable pub pending_input : ConsoleIn → Bool
pending_input co = if leb 1 (length co.stuffed) then true else co.driver.pending

unfoldable pub stuff_input : Text → ConsoleIn → ConsoleIn
stuff_input input co = record co { stuffed = input }

unfoldable pub set_interrupt_count : ℕ → ConsoleIn → ConsoleIn
set_interrupt_count val co = record co { interrupt_count = val }

unfoldable pub get_interrupt_count : ConsoleIn → ℕ
get_interrupt_count co = co.interrupt_count

unfoldable pub set_system_command_prefix : Text → ConsoleIn → ConsoleIn
set_system_command_prefix str co = record co { system_prefix = str }

unfoldable pub get_system_command_prefix : ConsoleIn → Text
get_system_command_prefix co = co.system_prefix

unfoldable pub get_name : ConsoleIn → Text
get_name co = co.driver.name

-- The characters that can still be read before the driver blocks.
abbrev pub available : ConsoleIn → ℕ
available co = length co.stuffed + length co.driver.keys
