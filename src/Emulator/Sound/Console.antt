-- ===== src/Emulator/Sound/Console.antt =====
-- cpm/cpm_bdos.go: the calls for the console, and the small calls, keep the invariant.
use cpmulator.Base.{ℕ, Text, ◌==◌, arith}
use cpmulator.ConsoleIn
use cpmulator.ConsoleIn.{Read}
use cpmulator.ConsoleIn.Line
use cpmulator.ConsoleIn.Line.{Outcome, Action}
use cpmulator.Memory
use cpmulator.Cpm.{Cpm, Result, Pairs, done}
use cpmulator.Bdos.Console.{
  on_read, return_char, read_char, aux_read, raw_io, console_status, write_string, write_from,
  after_line, read_string, line_buffer,
}
use cpmulator.Bdos.Drives.{drive_all_reset, drive_set, user_number, store_user_drive}
use cpmulator.Emulator.Sound.{IsSound, EndsSound, Keeps, if-EndsSound, option-EndsSound}

on_read-EndsSound :
    (s : Cpm) (k : ℕ → Cpm → Result) (r : Read)
    → IsSound s
    → ((c : ℕ) (co : ConsoleIn.ConsoleIn) → EndsSound (k c (record s { input = co })))
    → EndsSound (on_read s k r)
on_read-EndsSound s k (Read.key c co) v w = w c co
on_read-EndsSound s k (Read.error co) v w = v
on_read-EndsSound s k Read.wait v w = tt

pub read_char-Keeps : Keeps read_char
unfolding read_char
read_char-Keeps s v =
    on_read-EndsSound s (λ c t. done (return_char c t)) (ConsoleIn.block_with_echo s.input) v
      (λ c co. v)

pub aux_read-Keeps : Keeps aux_read
unfolding aux_read
aux_read-Keeps s v =
    on_read-EndsSound s (λ c t. done (return_char c t)) (ConsoleIn.block_no_echo s.input) v
      (λ c co. v)

pub raw_io-Keeps : Keeps raw_io
unfolding raw_io
raw_io-Keeps s v =
    let reads =
      on_read-EndsSound s (λ c t. done (return_char c t)) (ConsoleIn.block_no_echo s.input) v
        (λ c co. v) in
    let reads0 =
      on_read-EndsSound (return_char 0 s) (λ c t. done (return_char c t))
        (ConsoleIn.block_no_echo s.input) v (λ c co. v) in
    if-EndsSound (s.cpu.de.lo == 0xff) _ _
      (if-EndsSound (ConsoleIn.pending_input s.input) _ _ reads0 v)
      (if-EndsSound (s.cpu.de.lo == 0xfe) _ _
        (if-EndsSound (ConsoleIn.pending_input s.input) _ _ v v)
        (if-EndsSound (s.cpu.de.lo == 0xfd) _ _ reads v))

pub console_status-Keeps : Keeps console_status
unfolding console_status
console_status-Keeps s v = if-EndsSound (ConsoleIn.pending_input s.input) _ _ v v

module _ (pairs : Pairs) where
  pub write_string-Keeps : Keeps (write_string pairs)
  unfolding write_string
  write_string-Keeps s v =
      option-EndsSound (write_from 65536 s.memory (pairs.to_u16 s.cpu.de) s.output) Result.hang _ tt
        (λ out e. v)

  after_line-EndsSound :
      (addr : ℕ) (s : Cpm) (x : Outcome) → IsSound s → EndsSound (after_line pairs addr s x)
  unfolding after_line
  after_line-EndsSound addr s (Outcome.line text co) v = v
  after_line-EndsSound addr s (Outcome.interrupted co) v = v
  after_line-EndsSound addr s (Outcome.failed co) v = v
  after_line-EndsSound addr s Outcome.panicked v = tt
  after_line-EndsSound addr s Outcome.blocked v = tt
  after_line-EndsSound addr s Outcome.spent v = tt

  pub read_string-Keeps : (perform : Action → Text) → Keeps (read_string pairs perform)
  unfolding read_string
  read_string-Keeps perform s v =
      after_line-EndsSound (line_buffer pairs s) s
        (Line.read_line perform (Memory.get s.memory (line_buffer pairs s)) s.input) v

pub drive_all_reset-Keeps : Keeps drive_all_reset
unfolding drive_all_reset store_user_drive
drive_all_reset-Keeps s (files, drv, user) = (files, omega arith, user)

pub drive_set-Keeps : Keeps drive_set
unfolding drive_set store_user_drive
drive_set-Keeps s (files, drv, user) = (files, ground arith, user)

pub user_number-Keeps : Keeps user_number
unfolding user_number store_user_drive
user_number-Keeps s v = if-EndsSound (s.cpu.de.lo == 0xff) _ _ v (v.0, v.1, omega arith)
