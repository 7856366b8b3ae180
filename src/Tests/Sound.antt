-- ===== src/Tests/Sound.antt =====
-- cpm/cpm.go at a concrete state: a program chooses drive D: in every round.
use cpmulator.Base.{ℕ, ◌≡◌, refl, ap, arith, List, []}
use mathlib.Core.Path.{subst}
use cpmulator.Cpm.{Cpm, Cpu, done}
use cpmulator.Bios.{with_zero_flag}
use cpmulator.Bdos.Console.{return_zero}
use cpmulator.Bdos.Drives.{store_user_drive, drive_set}
use cpmulator.Emulator.Table
use cpmulator.Emulator.Start.{start_up, fresh_start, poke_line, command_line}
use cpmulator.Emulator.Loop
use cpmulator.Emulator.Loop.{Run, Round, Stop, round, return_from_call, break_points}
use cpmulator.Emulator.Sound.{IsSound}
use cpmulator.Emulator.Sound.Rounds.{Works, IsProcessor, Reaches, RoundSound, execute-IsSound}
use cpmulator.Tests.Disk.{s}
use cpmulator.Tests.Calls.{set_z, reset_z}
use cpmulator.Tests.Emulated.{env}

-- The registers of the call `DRV_SET` with 3 in A.
abbrev chooses : Cpm → Cpu
chooses x = record (x.cpu) {
  pc = 5;
  af = record { hi = 3; lo = 0 };
  bc = record { hi = 0; lo = 14 };
}

-- The call, after a write to port 0.
abbrev run : List ℕ → Cpm → Run
run points x = Run.stopped Stop.at_break_point (record x { cpu = chooses x })

run-IsProcessor : IsProcessor env run
unfolding Table.out
run-IsProcessor points x t stop e =
    subst (λ y. Works env x y)
      (ap (λ r. elim r [ Run.stopped _ y ↦ y | Run.crashed ↦ t | Run.endless ↦ t ]) e)
      (Works.writes 0 0 refl (Works.computes (chooses x) x.memory Works.rests))

abbrev begun : Cpm
begun = poke_line (command_line []) (fresh_start s)

started : start_up [] s ≡ done begun
unfolding start_up
started = refl

-- The state after the first round.
abbrev chosen : Cpm → Cpm
chosen x = return_from_call (
    with_zero_flag set_z reset_z
      (return_zero (store_user_drive (record x { cpu = chooses x; current_drive = 3 }))))

first_round : round env run begun ≡ Round.again (chosen begun)
unfolding Loop.after_run poke_line command_line fresh_start drive_set
first_round = refl

execute-IsSound_example :
    IsSound (chosen begun)
    × IsSound (record (chosen begun) { cpu = chooses (chosen begun) })
    × RoundSound (round env run (chosen begun))
execute-IsSound_example =
    execute-IsSound env run [] s begun (chosen begun)
      (record (chosen begun) { cpu = chooses (chosen begun) }) Stop.at_break_point run-IsProcessor
      (omega arith) (omega arith) (λ p. refl) started (Reaches.next first_round Reaches.here) refl
