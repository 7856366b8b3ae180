-- ===== src/Bdos/Console.antt =====
-- cpm/cpm_bdos.go: the calls for the console, and the small calls.
use cpmulator.Base.{
  ◌%◌, ◌/◌, ℕ, zero, suc, ◌+◌, Option, none, some, [], ◌∷◌, if◌then◌else◌, length, Text, ◌==◌, u8,
  u16,
}
use cpmulator.Memory
use cpmulator.Memory.{Memory}
use cpmulator.ConsoleIn
use cpmulator.ConsoleIn.{Read}
use cpmulator.ConsoleIn.Line
use cpmulator.ConsoleIn.Line.{Outcome, Action}
use cpmulator.ConsoleOut
use cpmulator.ConsoleOut.{ConsoleOut}
use cpmulator.Cpm.{Cpm, Error, Result, Pairs, done, fails, set_af, set_hl, set_a, set_b}

unfoldable pub exit : Cpm → Result
exit s = fails Error.exit s

-- A character in A and in L, with H and the flags cleared.
abbrev pub return_char : ℕ → Cpm → Cpm
return_char c s = set_af c 0 (set_hl 0 c s)

-- What a read of the console leads to: the rest of the call, or its error.
abbrev pub on_read : Cpm → (ℕ → Cpm → Result) → Read → Result
on_read s k (Read.key c co) = k c (record s { input = co })
on_read s k (Read.error co) = fails Error.other (record s { input = co })
on_read s k Read.wait = Result.hang

unfoldable pub read_char : Cpm → Result
unfolding ConsoleIn.block_with_echo
read_char s = on_read s (λ c s'. done (return_char c s')) (ConsoleIn.block_with_echo s.input)

abbrev pub put_character : ℕ → Cpm → Cpm
put_character c s = record s { output = ConsoleOut.put c s.output }

unfoldable pub write_char : Cpm → Result
write_char s = done (put_character s.cpu.de.lo s)

unfoldable pub aux_read : Cpm → Result
unfolding ConsoleIn.block_no_echo
aux_read s = on_read s (λ c s'. done (return_char c s')) (ConsoleIn.block_no_echo s.input)

unfoldable pub aux_write : Cpm → Result
aux_write s = done (put_character s.cpu.bc.lo s)

unfoldable pub raw_io : Cpm → Result
unfolding ConsoleIn.block_no_echo ConsoleIn.pending_input
raw_io s =
    if s.cpu.de.lo == 0xff
    then (if ConsoleIn.pending_input s.input
        then on_read (return_char 0 s) (λ c s'. done (return_char c s'))
            (ConsoleIn.block_no_echo s.input)
        else done (return_char 0 s))
    else if s.cpu.de.lo == 0xfe
    then (if ConsoleIn.pending_input s.input
        then done (return_char 0xff s)
        else done (return_char 0 s))
    else if s.cpu.de.lo == 0xfd
    then on_read s (λ c s'. done (return_char c s')) (ConsoleIn.block_no_echo s.input)
    else done (return_char 0 (put_character s.cpu.de.lo s))

unfoldable pub get_io_byte : Cpm → Result
unfolding Memory.get
get_io_byte s = done (return_char (Memory.get s.memory 3) s)

unfoldable pub set_io_byte : Cpm → Result
unfolding Memory.set
set_io_byte s = done (record s { memory = Memory.set s.memory 3 s.cpu.de.lo })

-- The loop of `BdosSysCallWriteString`; `none` means that no end of the string was met.
unfoldable pub write_from : ℕ → Memory → ℕ → ConsoleOut → Option ConsoleOut
unfolding Memory.get
write_from zero m addr out = none
write_from (suc fuel) m addr out =
    let rest = write_from fuel m (u16 (addr + 1)) (ConsoleOut.put (Memory.get m addr) out) in
    if Memory.get m addr == b'$' then some out else rest

-- HL, B and A cleared, as many calls do.
abbrev pub return_zero : Cpm → Cpm
return_zero s = set_a 0 (set_b 0 (set_hl 0 0 s))

unfoldable pub console_status : Cpm → Result
unfolding ConsoleIn.pending_input
console_status s =
    if ConsoleIn.pending_input s.input then done (return_char 0xff s) else done (return_char 0 s)

unfoldable pub bdos_version : Cpm → Result
bdos_version s = done (set_b 0 (return_char 0x22 s))

-- The loop that stores the text of a line; addresses wrap.
unfoldable pub store_text : ℕ → Text → Memory → Memory
unfolding Memory.set
store_text addr [] m = m
store_text addr (c ∷ t) m = store_text (u16 (addr + 1)) t (Memory.set m addr c)

module _ (pairs : Pairs) where
  open pairs use {to_u16}

  -- A string with no end in the whole RAM is written for ever.
  unfoldable pub write_string : Cpm → Result
  unfolding write_from
  write_string s = elim (write_from 65536 s.memory (to_u16 s.cpu.de) s.output) [
    | none ↦ Result.hang
    | some out ↦ done (return_zero (record s { output = out }))
  ]

  -- The address of the buffer: DE, or the DMA area.
  abbrev pub line_buffer : Cpm → ℕ
  line_buffer s = if to_u16 s.cpu.de == 0 then s.dma else to_u16 s.cpu.de

  unfoldable pub after_line : ℕ → Cpm → Outcome → Result
  unfolding store_text Memory.set
  after_line addr s (Outcome.line text co) = done (
      return_zero (record s {
        input = co;
        memory =
            store_text (u16 (addr + 2)) text
              (Memory.set s.memory (u16 (addr + 1)) (u8 (length text)));
      }))
  after_line addr s (Outcome.interrupted co) = fails Error.boot (record s { input = co })
  after_line addr s (Outcome.failed co) = fails Error.other (record s { input = co })
  after_line addr s Outcome.panicked = Result.panic
  after_line addr s _ = Result.hang

  unfoldable pub read_string : (Action → Text) → Cpm → Result
  unfolding after_line
  read_string perform s =
      after_line (line_buffer s) s
        (Line.read_line perform (Memory.get s.memory (line_buffer s)) s.input)

  -- The argument is the time since the start, in nanoseconds.
  unfoldable pub uptime : ℕ → Cpm → Result
  uptime timer s = done (record s {
    cpu = record (s.cpu) {
      hl = pairs.of_u16 (timer % 65536);
      de = pairs.of_u16 (timer / 65536 % 65536);
    };
  })

  unfoldable pub set_dma : Cpm → Result
  set_dma s = done (return_zero (record s { dma = to_u16 s.cpu.de }))

unfoldable pub login_vec : Cpm → Result
login_vec s = done (set_hl 0xff 0xff s)

unfoldable pub drive_get : Cpm → Result
drive_get s = done (set_a s.current_drive s)

unfoldable pub drive_alloc : Cpm → Result
drive_alloc s = done (set_hl 0 0 s)

unfoldable pub drive_set_ro : Cpm → Result
drive_set_ro s = done (set_a 0 s)

unfoldable pub drive_ro_vec : Cpm → Result
drive_ro_vec s = done (set_hl 0 0 s)

unfoldable pub set_file_attributes : Cpm → Result
set_file_attributes s = done (set_a 0 s)

unfoldable pub get_drive_dpb : Cpm → Result
get_drive_dpb s = done (set_hl 0xcd 0xcd s)

unfoldable pub drive_reset : Cpm → Result
drive_reset s = done (set_a 0 s)

unfoldable pub error_mode : Cpm → Result
error_mode s = done s

unfoldable pub time : Cpm → Result
time s = done s

unfoldable pub direct_screen_functions : Cpm → Result
direct_screen_functions s = done s
