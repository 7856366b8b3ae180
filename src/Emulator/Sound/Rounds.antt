-- ===== src/Emulator/Sound/Rounds.antt =====
-- cpm/cpm.go, `Execute`: the invariant in every round of a program, whatever the program is.
use cpmulator.Base.{
  ℕ, ◌≤◌, ◌≡◌, refl, ap, ◌∙◌, none, some, List, [], ◌∷◌, Text, ◌==◌, Option-cases, inl, inr, Bool,
  true, false, if◌then◌else◌,
}
use mathlib.Core.Path.{subst}
use cpmulator.Memory.{Memory}
use cpmulator.Host.{Host, Call, closed}
use cpmulator.Fcb.{as_bytes, from_string}
use cpmulator.Bdos.Block.{with_stored}
use cpmulator.Cpm.{Cpm, Cpu, FileCache, Error, Result, done, fails}
use cpmulator.Env.{Env}
use cpmulator.Emulator.Table.{out, bdos_calls}
use cpmulator.Emulator.Start.{
  start_up, fresh_start, with_blocks, poke_line, command_line, close_all,
}
use cpmulator.Emulator.Loop.{
  Run, Round, Stop, round, after_run, by_error, take_bios_err, call_bdos, after_call, break_points,
  return_from_call,
}
use cpmulator.Emulator.Sound.{IsSound, EndsSound, with_stored-EndsSound}
use cpmulator.Emulator.Sound.Bios.{with_zero_flag-IsSound}
use cpmulator.Emulator.Sound.Calls.{out-EndsSound, bdos_calls-AllKeep, AllKeep-call_of}

-- What the processor does between two stops: it changes its registers and the RAM, and it writes to
-- ports, in any order.
pub data Works (env : Env) : Cpm → Cpm → Type 0 where
  rests : {s : Cpm} → Works env s s
  computes :
      {s t : Cpm} (cpu : Cpu) (m : Memory)
      → Works env (record s { cpu = cpu; memory = m }) t
      → Works env s t
  writes :
      {s t u : Cpm} (addr val : ℕ) → out env addr val s ≡ done t → Works env t u → Works env s u

-- A run of the processor is such a sequence.
abbrev pub IsProcessor : Env → (List ℕ → Cpm → Run) → Type 0
IsProcessor env run =
    (points : List ℕ) (s t : Cpm) (stop : Stop) → run points s ≡ Run.stopped stop t → Works env s t

-- The states in which the rounds begin.
pub data Reaches (env : Env) (run : List ℕ → Cpm → Run) : Cpm → Cpm → Type 0 where
  here : {s : Cpm} → Reaches env run s s
  next : {s t u : Cpm} → round env run s ≡ Round.again t → Reaches env run t u → Reaches env run s u

abbrev pub RoundSound : Round → Type 0
RoundSound (Round.again t) = IsSound t
RoundSound (Round.ends r) = EndsSound r

taken : (stop : Stop) (s : Cpm) → IsSound s → IsSound (take_bios_err stop s).1
unfolding take_bios_err
taken stop s v = elim (Option-cases s.bios_err) [
  | inl e ↦ rw (e, take_bios_err) v
  | inr (b, e) ↦ rw (e, take_bios_err) v
]

-- No file fails to be closed.
abbrev pub NeverFailsClose : Host → Type 0
NeverFailsClose h = (p : Text) → h.faults Call.closing p ≡ false

close_all-faults : (files : List (ℕ × FileCache)) (h : Host) → (close_all files h).faults ≡ h.faults
unfolding close_all
close_all-faults [] h = refl
close_all-faults ((key, obj) ∷ files) h = elim (Option-cases obj.handle) [
  | inl e ↦ rw (e, close_all) (close_all-faults files h)
  | inr (fd, e) ↦ rw (e, close_all) (close_all-faults files (closed fd h))
]

-- Nothing is open in the cache when a program starts.
fresh_start-IsSound :
    (s : Cpm)
    → s.current_drive ≤ 15
    → s.user_number ≤ 15
    → NeverFailsClose s.host
    → IsSound (fresh_start s)
unfolding fresh_start
fresh_start-IsSound s drv user closes = (
  record {
    is_open = λ key fd obj e f. absurd cc;
    apart = λ j k fd x y e f a b. absurd cc;
    closes = λ p. ap (λ faults. faults Call.closing p) (close_all-faults s.files s.host) ∙ closes p;
  },
  drv,
  user,
)

poke_line-IsSound : (cli : Text) (s : Cpm) → IsSound s → IsSound (poke_line cli s)
unfolding poke_line
poke_line-IsSound [] s v = v
poke_line-IsSound (c ∷ cli) s v = v

with_blocks-EndsSound :
    (args : List Text) (s : Cpm) (k : Cpm → Result)
    → IsSound s
    → ((t : Cpm) → IsSound t → EndsSound (k t))
    → EndsSound (with_blocks args s k)
unfolding with_blocks
with_blocks-EndsSound [] s k v w = w s v
with_blocks-EndsSound (a ∷ []) s k v w =
    with_stored-EndsSound 0x5c (as_bytes (from_string a)) s k (λ m. w (record s { memory = m }) v)
with_blocks-EndsSound (a ∷ b ∷ args) s k v w =
    with_stored-EndsSound 0x5c (as_bytes (from_string a)) s
      (λ t. with_stored 0x6c (as_bytes (from_string b)) t k)
      (λ m.
        with_stored-EndsSound 0x6c (as_bytes (from_string b)) (record s { memory = m }) k
          (λ n. w (record s { memory = n }) v))

start_up-EndsSound :
    (args : List Text) (s : Cpm)
    → s.current_drive ≤ 15
    → s.user_number ≤ 15
    → NeverFailsClose s.host
    → EndsSound (start_up args s)
unfolding start_up
start_up-EndsSound args s drv user closes =
    with_blocks-EndsSound args (fresh_start s) _ (fresh_start-IsSound s drv user closes)
      (λ t v. poke_line-IsSound (command_line args) t v)

module _ (env : Env) where
  works-IsSound : {s t : Cpm} → Works env s t → IsSound s → IsSound t
  works-IsSound rests v = v
  works-IsSound (computes cpu m w) v = works-IsSound w v
  works-IsSound (writes {s = s} addr val e w) v =
      works-IsSound w (subst EndsSound e (out-EndsSound env addr val s v))

  after_call-RoundSound : (r : Result) → EndsSound r → RoundSound (after_call env r)
  unfolding after_call return_from_call
  after_call-RoundSound (Result.returns none s) v = with_zero_flag-IsSound env.set_z env.reset_z s v
  after_call-RoundSound (Result.returns (some Error.exit) s) v = v
  after_call-RoundSound (Result.returns (some Error.boot) s) v = v
  after_call-RoundSound (Result.returns (some Error.halt) s) v = v
  after_call-RoundSound (Result.returns (some Error.unimplemented) s) v = v
  after_call-RoundSound (Result.returns (some Error.other) s) v = v
  after_call-RoundSound Result.panic v = tt
  after_call-RoundSound Result.hang v = tt

  call_bdos-RoundSound : (s : Cpm) → IsSound s → RoundSound (call_bdos env s)
  unfolding call_bdos
  call_bdos-RoundSound s v =
      AllKeep-call_of RoundSound (bdos_calls env) s.cpu.bc.lo s
        (Round.ends (fails Error.unimplemented s)) (after_call env) (bdos_calls-AllKeep env) v v
        after_call-RoundSound

  by_error-RoundSound : (stop : Stop) (s : Cpm) → IsSound s → RoundSound (by_error env stop s)
  unfolding by_error
  by_error-RoundSound Stop.halted s v = v
  by_error-RoundSound Stop.at_break_point s v = call_bdos-RoundSound s v
  by_error-RoundSound (Stop.failed Error.exit) s v = v
  by_error-RoundSound (Stop.failed Error.halt) s v = v
  by_error-RoundSound (Stop.failed Error.boot) s v = v
  by_error-RoundSound (Stop.failed Error.unimplemented) s v = v
  by_error-RoundSound (Stop.failed Error.other) s v = v

  if-RoundSound :
      (b : Bool) (x y : Round) → RoundSound x → RoundSound y → RoundSound (if b then x else y)
  if-RoundSound true x y v w = v
  if-RoundSound false x y v w = w

  after_stop-RoundSound :
      (stop : Stop) (s : Cpm) → IsSound s → RoundSound (after_run env (Run.stopped stop s))
  unfolding after_run
  after_stop-RoundSound stop s v =
      if-RoundSound (t.cpu.pc == 0) _ _ sound (by_error-RoundSound (take_bios_err stop s).0 t sound)
    where
      t : Cpm
      t = (take_bios_err stop s).1

      sound : IsSound t
      sound = taken stop s v

  module _ (run : List ℕ → Cpm → Run) (machine : IsProcessor env run) where
    run-RoundSound :
        (r : Run) (s : Cpm) → run (break_points s) s ≡ r → IsSound s → RoundSound (after_run env r)
    unfolding after_run
    run-RoundSound (Run.stopped stop t) s e v =
        after_stop-RoundSound stop t (works-IsSound (machine (break_points s) s t stop e) v)
    run-RoundSound Run.crashed s e v = tt
    run-RoundSound Run.endless s e v = tt

    round-RoundSound : (s : Cpm) → IsSound s → RoundSound (round env run s)
    round-RoundSound s v = run-RoundSound (run (break_points s) s) s refl v

    reaches-IsSound : {s t : Cpm} → Reaches env run s t → IsSound s → IsSound t
    reaches-IsSound here v = v
    reaches-IsSound (next {s = s} e w) v =
        reaches-IsSound w (subst RoundSound e (round-RoundSound s v))

-- In every round of a program, whatever program it is, and wherever the processor stops in it: every
-- handle in the cache of files is open on the host under the name kept with it, no two keys of
-- the cache share a handle, and the drive and the user number are at most 15. So it is also when
-- the round ends the run, with an error or without.
-- The drive and the user number are at most 15 when `Execute` is called, which returns from its start
-- without an error. The host fails to close no file: where it does, the call that closes a file
-- leaves it in the cache with a handle that is closed. The processor changes nothing but its
-- registers and the RAM, and writes to ports.
pub execute-IsSound :
    (env : Env) (run : List ℕ → Cpm → Run) (args : List Text) (s t u v : Cpm) (stop : Stop)
    → IsProcessor env run
    → s.current_drive ≤ 15
    → s.user_number ≤ 15
    → NeverFailsClose s.host
    → start_up args s ≡ done t
    → Reaches env run t u
    → run (break_points u) u ≡ Run.stopped stop v
    → IsSound u × IsSound v × RoundSound (round env run u)
execute-IsSound env run args s t u v stop machine drv user closes begins reached stops =
    let first : IsSound t = subst EndsSound begins (start_up-EndsSound args s drv user closes) in
    let now : IsSound u = reaches-IsSound env run machine reached first in
    (
      now,
      works-IsSound env (machine (break_points u) u v stop stops) now,
      round-RoundSound env run machine u now,
    )
