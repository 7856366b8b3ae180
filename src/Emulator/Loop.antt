-- ===== src/Emulator/Loop.antt =====
-- cpm/cpm.go, the loop of `Execute`: the processor runs to a break point, and a call of the BDOS is
-- carried out. What the processor does is a parameter.
pub mod Rounds
pub mod Branches
use cpmulator.Base.{
  ℕ, zero, suc, ◌+◌, Option, none, some, List, [], ◌∷◌, if◌then◌else◌, ◌==◌, Text, u16,
}
use cpmulator.Memory
use cpmulator.Cpm.{Cpm, Error, Result, done, fails}
use cpmulator.Env.{Env}
use cpmulator.Bios.{with_zero_flag}
use cpmulator.Emulator.Table.{bdos_calls, call_of}
use cpmulator.Emulator.Start.{start_up}

-- What `Run` of the processor returns: nil after a HALT, `ErrBreakPoint`, or another error.
pub data Stop : Type 0 where
  halted at_break_point : Stop
  failed : Error → Stop

-- A run ends, or a handler that it calls panics or never returns, or it goes on for ever.
pub data Run : Type 0 where
  stopped : Stop → Cpm → Run
  crashed endless : Run

-- A round of the loop, of `Execute`: it goes on, or `Execute` ends.
pub data Round : Type 0 where
  again : Cpm → Round
  ends : Result → Round

abbrev pub break_points : Cpm → List ℕ
break_points s =
    s.bios_address ∷ u16 (s.bios_address + 3) ∷ s.bdos_address ∷ u16 (s.bdos_address + 6) ∷ 5 ∷ []

-- The error of a handler of the BIOS stands in place of that of the processor.
unfoldable pub take_bios_err : Stop → Cpm → Stop × Cpm
take_bios_err stop s = elim s.bios_err [
  | none ↦ (stop, s)
  | some e ↦ (Stop.failed e, record s { bios_err = none })
]

abbrev pub at_zero : Cpm → Cpm
at_zero s = record s { cpu = record (s.cpu) { pc = 0 } }

-- The return address is taken from the stack.
unfoldable pub return_from_call : Cpm → Cpm
unfolding Memory.get_u16
return_from_call s = record s {
  cpu = record (s.cpu) { pc = Memory.get_u16 s.memory s.cpu.sp; sp = u16 (s.cpu.sp + 2) };
}

module _ (env : Env) where
  -- What follows a handler of the BDOS.
  unfoldable pub after_call : Result → Round
  unfolding return_from_call
  after_call (Result.returns none s) =
      Round.again (return_from_call (with_zero_flag env.set_z env.reset_z s))
  after_call (Result.returns (some Error.exit) s) = Round.ends (done s)
  after_call (Result.returns (some Error.boot) s) = Round.again (at_zero s)
  after_call (Result.returns (some Error.halt) s) = Round.ends (fails Error.halt s)
  after_call (Result.returns (some Error.unimplemented) s) =
      Round.ends (fails Error.unimplemented s)
  after_call (Result.returns (some Error.other) s) = Round.ends (fails Error.other s)
  after_call Result.panic = Round.ends Result.panic
  after_call Result.hang = Round.ends Result.hang

  -- The call whose number is in C.
  unfoldable pub call_bdos : Cpm → Round
  unfolding after_call bdos_calls
  call_bdos s = elim (call_of (bdos_calls env) s.cpu.bc.lo) [
    | none ↦ Round.ends (fails Error.unimplemented s)
    | some handler ↦ after_call (handler s)
  ]

  -- By the error, where the processor is not at 0.
  unfoldable pub by_error : Stop → Cpm → Round
  unfolding call_bdos
  by_error Stop.halted s = Round.ends (fails Error.halt s)
  by_error (Stop.failed Error.exit) s = Round.ends (done s)
  by_error (Stop.failed Error.halt) s = Round.ends (fails Error.other s)
  by_error (Stop.failed Error.boot) s = Round.ends (fails Error.other s)
  by_error (Stop.failed Error.unimplemented) s = Round.ends (fails Error.other s)
  by_error (Stop.failed Error.other) s = Round.ends (fails Error.other s)
  by_error Stop.at_break_point s = call_bdos s

  unfoldable pub after_run : Run → Round
  unfolding take_bios_err by_error
  after_run (Run.stopped stop s) =
      let (err, t) = take_bios_err stop s in
      if t.cpu.pc == 0 then Round.ends (fails Error.boot t) else by_error err t
  after_run Run.crashed = Round.ends Result.panic
  after_run Run.endless = Round.ends Result.hang

  module _ (run : List ℕ → Cpm → Run) where
    abbrev pub round : Cpm → Round
    round s = after_run (run (break_points s) s)

    -- "Run forever": `none` is that the rounds were too few.
    unfoldable pub run_forever : ℕ → Cpm → Option Result
    unfolding after_run
    run_forever zero s = none
    run_forever (suc fuel) s = elim (round s) [
      | Round.again t ↦ run_forever fuel t
      | Round.ends r ↦ some r
    ]

    -- What follows the start.
    unfoldable pub go_on : ℕ → Result → Option Result
    unfolding run_forever
    go_on fuel (Result.returns none s) = run_forever fuel s
    go_on fuel (Result.returns (some e) s) = some (Result.returns (some e) s)
    go_on fuel Result.panic = some Result.panic
    go_on fuel Result.hang = some Result.hang

    unfoldable pub execute : ℕ → List Text → Cpm → Option Result
    unfolding start_up go_on
    execute fuel args s = go_on fuel (start_up args s)
