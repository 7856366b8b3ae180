-- ===== src/Emulator/Loop/Branches.antt =====
-- cpm/cpm.go, the loop of `Execute`: what a round does.
use cpmulator.Base.{
  ◌+◌, ◌≡◌, ◌≢◌, refl, sym, Bool-cases, inl, inr, none, some, ◌==◌, ne→not_eq, u16,
}
use mathlib.Core.Path.{subst}
use cpmulator.Memory
use cpmulator.Cpm.{Cpm, Error, Result, done, fails}
use cpmulator.Env.{Env}
use cpmulator.Bios.Errors.{HasZero, with_zero_flag-HasZero}
use cpmulator.Emulator.Table.{bdos_calls, call_of}
use cpmulator.Emulator.Loop.{
  Stop, Run, Round, after_run, by_error, call_bdos, after_call, at_zero, return_from_call,
}

module _ (env : Env) where
  -- What a round makes of the result of a handler.
  abbrev pub HandledBy : Result → Round → Type 0
  HandledBy (Result.returns none t) x =
      (u : Cpm) × (x ≡ Round.again u)
      × (u.cpu.pc ≡ Memory.get_u16 t.memory t.cpu.sp)
      × (u.cpu.sp ≡ u16 (t.cpu.sp + 2))
      × HasZero env.set_z env.reset_z t u
      × (u.memory ≡ t.memory)
  HandledBy (Result.returns (some Error.exit) t) x = x ≡ Round.ends (done t)
  HandledBy (Result.returns (some Error.boot) t) x = x ≡ Round.again (at_zero t)
  HandledBy (Result.returns (some Error.halt) t) x = x ≡ Round.ends (fails Error.halt t)
  HandledBy (Result.returns (some Error.unimplemented) t) x =
      x ≡ Round.ends (fails Error.unimplemented t)
  HandledBy (Result.returns (some Error.other) t) x = x ≡ Round.ends (fails Error.other t)
  HandledBy Result.panic x = x ≡ Round.ends Result.panic
  HandledBy Result.hang x = x ≡ Round.ends Result.hang

  returned : (t : Cpm) → HandledBy (Result.returns none t) (after_call env (Result.returns none t))
  unfolding after_call return_from_call
  returned t = elim (Bool-cases (t.cpu.af.hi == 0)) [
    | inl zero_a ↦ (
      _,
      refl,
      rw zero_a refl,
      rw zero_a refl,
      with_zero_flag-HasZero env.set_z env.reset_z t,
      rw zero_a refl,
    )
    | inr other ↦ (
      _,
      refl,
      rw other refl,
      rw other refl,
      with_zero_flag-HasZero env.set_z env.reset_z t,
      rw other refl,
    )
  ]

  handled : (r : Result) → HandledBy r (after_call env r)
  unfolding after_call
  handled (Result.returns none t) = returned t
  handled (Result.returns (some Error.exit) t) = refl
  handled (Result.returns (some Error.boot) t) = refl
  handled (Result.returns (some Error.halt) t) = refl
  handled (Result.returns (some Error.unimplemented) t) = refl
  handled (Result.returns (some Error.other) t) = refl
  handled Result.panic = refl
  handled Result.hang = refl

  -- At a break point the call whose number is in C is carried out; no error of the BIOS is recorded,
  -- and the program counter is not at 0. Without a handler for the number, `Execute` ends with
  -- `ErrUnimplemented`. A handler without an error returns to the address on the stack, which is
  -- taken off it, with the zero flag set by A, and A and the RAM as the handler left them. `ErrBoot`
  -- goes on at 0, `ErrExit` ends without an error, and every other error ends with itself; a handler
  -- that panics or never returns ends all.
  pub call_bdos_lem :
      (s : Cpm)
      → s.bios_err ≡ none
      → s.cpu.pc ≢ 0
      → (call_of (bdos_calls env) s.cpu.bc.lo ≡ none
          → after_run env (Run.stopped Stop.at_break_point s)
            ≡ Round.ends (fails Error.unimplemented s))
        × ((handler : Cpm → Result)
            → call_of (bdos_calls env) s.cpu.bc.lo ≡ some handler
            → HandledBy (handler s) (after_run env (Run.stopped Stop.at_break_point s)))
  unfolding after_run call_bdos
  call_bdos_lem s h k = (
    λ e. rw (h, ne→not_eq s.cpu.pc 0 k, e, after_run, by_error, call_bdos),
    λ handler e.
        let r : after_run env (Run.stopped Stop.at_break_point s) ≡ after_call env (handler s) =
          rw (h, ne→not_eq s.cpu.pc 0 k, e, after_run, by_error, call_bdos) in
        subst (HandledBy (handler s)) (sym r) (handled (handler s)),
  )
