-- ===== src/Bios/Reserved.antt =====
-- cpm/cpm_bios.go, `BiosSysCallReserved1`: the calls by which a program asks for, and changes, what
-- the emulator is set to. Messages to the user are left out.
pub mod Settings
use cpmulator.Base.{
  ℕ, zero, suc, ◌+◌, ◌-◌, ◌*◌, Bool, true, false, Option, none, some, [], ◌∷◌, ◌++◌, if◌then◌else◌,
  ◌||◌, Text, codes, ◌==◌, ltb, u8, u16,
}
use cpmulator.Text.{to_lower, utf8}
use cpmulator.Memory
use cpmulator.Memory.{Memory}
use cpmulator.ConsoleIn
use cpmulator.ConsoleIn.Drivers
use cpmulator.ConsoleOut
use cpmulator.Ccp
use cpmulator.Cpm.{Cpm, Error, Result, done, fails, set_hl, set_a}
use cpmulator.Env.{Env}

-- `GetVersionBanner` of version/version.go.
unfoldable pub get_version_banner : Text → Text
get_version_banner version =
    codes "cpmulator " ++ version ++ 10 ∷ codes "https://github.com/skx/cpmulator/" ++ 10 ∷ []

-- `strings.ReplaceAll(vers, "\n", "\n\r")`
unfoldable pub add_returns : Text → Text
add_returns [] = []
add_returns (c ∷ s) = let rest = add_returns s in if c == 10 then 10 ∷ 13 ∷ rest else c ∷ rest

-- The loop of `getStringFromMemory`; `none` is that no end was met.
unfoldable pub string_from : ℕ → Memory → ℕ → Option Text
unfolding Memory.get utf8
string_from zero m addr = none
string_from (suc fuel) m addr =
    let x : ℕ = Memory.get m addr in
    let rest = string_from fuel m (u16 (addr + 1)) in
    if x == 32 || x == 0 then some [] else (elim rest [ none ↦ none | some t ↦ some (utf8 x ++ t) ])

-- `getStringFromMemory`: after 65536 addresses the loop is back where it was.
unfoldable pub get_string_from_memory : Memory → ℕ → Option Text
unfolding string_from to_lower
get_string_from_memory m addr = elim (string_from 65536 m addr) [
  | none ↦ none
  | some t ↦ some (to_lower t)
]

-- The loop that stores zeros, from `addr + n` down to the cell after `addr`.
unfoldable pub clear_down : ℕ → ℕ → Memory → Memory
unfolding Memory.set
clear_down addr zero m = m
clear_down addr (suc n) m = clear_down addr n (Memory.set m (addr + suc n) 0)

-- "Fill the DMA area with NULL bytes": nothing, where the end of the area wraps.
unfoldable pub clear_dma : ℕ → Memory → Memory
unfolding clear_down
clear_dma addr m = clear_down addr (u16 (addr + 127) - addr) m

-- A loop over the characters of a string, each stored at its index: of one that takes two bytes the
-- `uint8` of its code is stored. The strings here have no character of more bytes.
unfoldable pub store_string : ℕ → Text → Memory → Memory
unfolding Memory.set
store_string addr [] m = m
store_string addr (b ∷ []) m = Memory.set m addr b
store_string addr (b ∷ c ∷ s) m = elim (ltb b 0xc0) [
  | true ↦ store_string (u16 (addr + 1)) (c ∷ s) (Memory.set m addr b)
  | false ↦ store_string (u16 (addr + 2)) s (Memory.set m addr (u8 ((b - 0xc0) * 64 + (c - 0x80))))
]

-- A setting goes to the DMA area.
unfoldable pub tell : Text → Cpm → Result
unfolding clear_dma store_string
tell str s = done (record s { memory = store_string s.dma str (clear_dma s.dma s.memory) })

module _ (env : Env) where
  -- What a string in RAM is used for; a string with no end in the whole RAM is read for ever.
  abbrev pub with_string : Cpm → (Text → Result) → Result
  with_string s k = elim (get_string_from_memory s.memory (env.pairs.to_u16 s.cpu.de)) [
    | none ↦ Result.hang
    | some str ↦ k str
  ]

  -- A setting is told where DE is 0, and else is changed by the string that DE points to.
  abbrev pub tell_or : Text → (Text → Result) → Cpm → Result
  tell_or str change s = if env.pairs.to_u16 s.cpu.de == 0 then tell str s else with_string s change

  -- HL = 0: the magic values, and the version.
  unfoldable pub tell_version : Cpm → Result
  unfolding tell get_version_banner add_returns
  tell_version s =
      tell (add_returns (get_version_banner env.version)) (set_a b'X' (set_hl b'S' b'K' s))

  -- HL = 1: the number of Ctrl-Cs.
  unfoldable pub interrupts : Cpm → Result
  interrupts s =
      if s.cpu.bc.lo == 0xff
      then done (set_a (u8 (ConsoleIn.get_interrupt_count s.input)) s)
      else done (record s { input = ConsoleIn.set_interrupt_count s.cpu.bc.lo s.input })

  -- HL = 2: the output driver.
  unfoldable pub output_driver : Cpm → Result
  unfolding tell
  output_driver s =
      tell_or (ConsoleOut.get_name s.output)
        (λ str. elim (ConsoleOut.new ConsoleOut.handlers str) [
          | none ↦ done s
          | some driver ↦ done (record s { output = driver })
        ])
        s

  -- HL = 3: the command processor.
  unfoldable pub command_processor : Cpm → Result
  unfolding tell
  command_processor s =
      tell_or s.ccp
        (λ str. elim (Ccp.get env.dr env.ccpz str) [
          | none ↦ done s
          | some entry ↦ done (record s { ccp = str })
        ])
        s

  -- HL = 5: the size of the terminal.
  unfoldable pub terminal_size : Cpm → Result
  terminal_size s =
      let t = set_hl (u8 env.height) (u8 env.width) s in
      if env.no_size then fails Error.other t else done t

  -- HL = 6: the debug flag.
  unfoldable pub debug_flag : Cpm → Result
  debug_flag s =
      if s.cpu.bc.lo == 0
      then done (record s { simple_debug = false })
      else if s.cpu.bc.lo == 1
      then done (record s { simple_debug = true })
      else if s.cpu.bc.lo == 0xff
      then done (record s {
        cpu = record (s.cpu) { bc = record (s.cpu.bc) { lo = if s.simple_debug then 1 else 0 } };
      })
      else done s

  -- HL = 7: the input driver. For what its setup does to the terminal see `ConsoleIn.Tty`.
  unfoldable pub input_driver : Cpm → Result
  unfolding tell
  input_driver s =
      tell_or (ConsoleIn.get_name s.input)
        (λ str. elim (Drivers.new env.drivers str s.input) [
          | none ↦ done s
          | some driver ↦ done (record s { input = driver })
        ])
        s

  -- HL = 8: the prefix of commands for the host.
  unfoldable pub host_prefix : Cpm → Result
  unfolding tell
  host_prefix s =
      tell_or (ConsoleIn.get_system_command_prefix s.input)
        (λ str. done (record s { input = ConsoleIn.set_system_command_prefix str s.input })) s

  unfoldable pub reserved1 : Cpm → Result
  unfolding tell_version interrupts output_driver command_processor terminal_size debug_flag
      input_driver host_prefix
  reserved1 s =
      let hl : ℕ = env.pairs.to_u16 s.cpu.hl in
      if hl == 0
      then tell_version s
      else if hl == 1
      then interrupts s
      else if hl == 2
      then output_driver s
      else if hl == 3
      then command_processor s
      else if hl == 4
      then done s
      else if hl == 5
      then terminal_size s
      else if hl == 6
      then debug_flag s
      else if hl == 7
      then input_driver s
      else if hl == 8
      then host_prefix s
      else done s
