-- ===== src/Tests/Console.antt =====
-- consoleout/ and consolein/ at concrete inputs.
use cpmulator.Base.{inl, ◌≡◌, refl, inr, false, some, List, [], ◌∷◌, arith, Text, codes}
use cpmulator.Text.{to_lower}
use cpmulator.ConsoleOut.Adm3a.Commands.{Command, Prefix}
use cpmulator.ConsoleOut.{Driver, ConsoleOut, handlers, lookup, store, new, register}
use cpmulator.ConsoleIn.{ConsoleIn}
use cpmulator.ConsoleIn.Line.{Outcome, Action, read_line}
use cpmulator.ConsoleIn.Line.Safety as Safety
use cpmulator.ConsoleIn.Line.Safety.{read_line-IsProper}
use cpmulator.ConsoleIn.Line.Typed.{Entered}
use cpmulator.ConsoleIn.Line.Incoming.{incoming, Same}
use cpmulator.ConsoleIn.Line.Interrupt.{read_line-interrupted, read_line-below_limit}

-- A motion of the cursor, and a character.
abbrev commands : List Command
commands = Command.move Prefix.equals 5 10 ∷ Command.character b'x' ∷ []

abbrev silent : ConsoleOut
silent = record { driver = Driver.null [] }

new_null : new handlers (codes "NULL") ≡ some silent
unfolding new handlers register store lookup to_lower
new_null = refl

-- What a command of the host prints.
abbrev prints : Action → Text
prints a = codes "ok"

abbrev console : ConsoleIn
console = record {
  driver = record { name = codes "term"; keys = some 3 ∷ some 3 ∷ []; pending = false };
  system_prefix = codes "!!";
  stuffed = codes "dir";
  history = codes "pip" ∷ [];
  interrupt_count = 2;
  screen = [];
}

read_line-IsProper_example : Safety.IsProper 20 (read_line prints 20 console)
read_line-IsProper_example = read_line-IsProper prints 20 console

-- A part is stuffed, and the rest is typed.
abbrev some_typed : ConsoleIn
some_typed = record console {
  stuffed = codes "di";
  driver = record (console.driver) { keys = some b'r' ∷ some 13 ∷ some 3 ∷ [] };
}

-- Ctrl-C, Escape and Ctrl-C, with a limit of 2.
abbrev twice : ConsoleIn
twice = record console {
  stuffed = 3 ∷ [];
  driver = record (console.driver) { keys = some 27 ∷ some 3 ∷ [] };
}

read_line-interrupted_example :
    (co : ConsoleIn) × (read_line prints 20 twice ≡ Outcome.interrupted co)
    × (incoming co ≡ [])
    × Same twice co
read_line-interrupted_example =
    read_line-interrupted prints (3 ∷ 27 ∷ []) [] 20 twice (inl refl, (inr (inl refl), tt))
      (omega arith, (omega arith, tt)) refl refl

-- A backspace between the two, and then a return.
abbrev reset : ConsoleIn
reset = record console {
  stuffed = 3 ∷ [];
  driver = record (console.driver) { keys = some 8 ∷ some 3 ∷ some 13 ∷ [] };
}

read_line-below_limit_example :
    (co : ConsoleIn) × (read_line prints 20 reset ≡ Outcome.line [] co) × Entered [] [] [] reset co
read_line-below_limit_example =
    read_line-below_limit prints (3 ∷ 8 ∷ 3 ∷ []) [] 20 reset
      (inl refl, (inr (inr (inr (inl refl))), (inl refl, tt)))
      (omega arith, (omega arith, (omega arith, tt))) refl
