-- ===== src/Main/Reboot.antt =====
-- main.go: what becomes of a program, and of the command processor, that ends.
use cpmulator.Base.{ℕ, suc, ◌+◌, ◌≡◌, ◌≢◌, ◌∙◌, refl, ap, Option, none, some, List, Text}
use cpmulator.Cpm.{Cpm, Result, done}
use cpmulator.Env.{Env}
use cpmulator.Emulator.Load.{load_binary, load_ccp}
use cpmulator.Emulator.Start.{start_up}
use cpmulator.Emulator.Loop.{
  Run, Stop, Round, round, execute, go_on, run_forever, break_points, after_run,
}
use cpmulator.Emulator.Loop.Rounds.{Ends, now, later, run_forever-Ends}
use cpmulator.Emulator.Loop.Branches.{call_bdos_lem}
use cpmulator.Emulator.Table.{bdos_calls, call_of}
use cpmulator.Main.{run_program, run_ccp, after_ccp}
use cpmulator.Bdos.Console

-- A run that stops with the call of the BDOS to end the program.
abbrev pub Terminates : (List ℕ → Cpm → Run) → Cpm → Cpm → Type 0
Terminates run s t =
    (run (break_points s) s ≡ Run.stopped Stop.at_break_point t)
    × (t.bios_err ≡ none)
    × (t.cpu.pc ≢ 0)
    × (t.cpu.bc.lo ≡ 0)

-- From a state to another by rounds of the loop of `Execute`.
pub data Follows (env : Env) (run : List ℕ → Cpm → Run) : Cpm → Cpm → Type 0 where
  here : {s : Cpm} → Follows env run s s
  next : {s t u : Cpm} → round env run s ≡ Round.again t → Follows env run t u → Follows env run s u

module _ (env : Env) (run : List ℕ → Cpm → Run) where
  call_zero : (t : Cpm) → t.cpu.bc.lo ≡ 0 → call_of (bdos_calls env) t.cpu.bc.lo ≡ some Console.exit
  unfolding bdos_calls
  call_zero t c = rw c refl

  round-Terminates : (s t : Cpm) → Terminates run s t → round env run s ≡ Round.ends (done t)
  unfolding Console.exit
  round-Terminates s t (e, h, k, c) =
      ap (after_run env) e ∙ (call_bdos_lem env t h k).1 Console.exit (call_zero t c)

  Follows-Ends :
      {s t : Cpm} {r : Result} → Follows env run s t → Ends env run t r → Ends env run s r
  Follows-Ends here k = k
  Follows-Ends (next e h) k = later e (Follows-Ends h k)

  execute-started :
      (fuel : ℕ) (args : List Text) (t u : Cpm) (r : Option Result)
      → start_up args t ≡ done u
      → run_forever env run fuel u ≡ r
      → execute env run fuel args t ≡ r
  unfolding execute go_on
  execute-started fuel args t u r h k = ap (go_on env run fuel) h ∙ k

  run_program-done :
      (fuel : ℕ) (program : Text) (args : List Text) (s t v : Cpm)
      → load_binary program s ≡ done t
      → execute env run fuel args t ≡ some (done v)
      → run_program env run fuel program args s ≡ some (done v)
  unfolding run_program
  run_program-done fuel program args s t v l e = rw (l, e, run_program)

  run_ccp-again :
      (runs fuel : ℕ) (args : List Text) (s t v : Cpm)
      → load_ccp env s ≡ done t
      → execute env run fuel args t ≡ some (done v)
      → run_ccp env run (suc runs) fuel args s ≡ run_ccp env run runs fuel args v
  unfolding run_ccp after_ccp
  run_ccp-again runs fuel args s t v l e = rw (l, e, run_ccp)

  -- A program that has been started, and some rounds later calls the BDOS to end it, with no error of
  -- the BIOS recorded: with enough rounds, `main` returns if it was loaded as a program, and if it
  -- was loaded as the command processor, that is loaded and run once more, from the state in which
  -- the program was.
  pub terminated_lem :
      (args : List Text) (t u w v : Cpm)
      → start_up args t ≡ done u
      → Follows env run u w
      → Terminates run w v
      → (fuel : ℕ) × ((more : ℕ) (s : Cpm)
          → ((program : Text)
              → load_binary program s ≡ done t
              → run_program env run (fuel + more) program args s ≡ some (done v))
            × ((runs : ℕ)
                → load_ccp env s ≡ done t
                → run_ccp env run (suc runs) (fuel + more) args s
                  ≡ run_ccp env run runs (fuel + more) args v))
  terminated_lem args t u w v h f k =
      let laws = run_forever-Ends env run u (done v) in
      let (fuel, e) = laws.0.1 (Follows-Ends f (now (round-Terminates w v k))) in
      (
        fuel,
        λ more s.
            let x = execute-started (fuel + more) args t u (some (done v)) h (laws.2 fuel more e) in
            (
              λ program l. run_program-done (fuel + more) program args s t v l x,
              λ runs l. run_ccp-again runs (fuel + more) args s t v l x,
            ),
      )
