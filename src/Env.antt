-- ===== src/Env.antt =====
-- What the emulator takes from outside of its source.
use cpmulator.Base.{ℕ, Bool, List, Text}
use cpmulator.Fcb.{FcbFind}
use cpmulator.ConsoleIn.Drivers
use cpmulator.ConsoleIn.Line.{Action}
use cpmulator.Cpm.{Pairs}

pub record Env : Type 0 where
  -- The register pairs of the processor, and the setting and resetting of its zero flag.
  pub pairs : Pairs
  pub set_z : ℕ → ℕ
  pub reset_z : ℕ → ℕ
  -- What carrying out a command on the host prints.
  pub perform : Action → Text
  -- `sort.Slice` by the field `Name`.
  pub sort : List FcbFind → List FcbFind
  -- The nanoseconds since the start.
  pub elapsed : ℕ
  -- The variable `version`, which a build sets.
  pub version : Text
  -- The answer of the terminal to a question for its size, and whether it fails.
  pub width : ℕ
  pub height : ℕ
  pub no_size : Bool
  -- The input drivers, and the files DR.BIN and CCPZ.BIN.
  pub drivers : Drivers.Handlers
  pub dr : Text
  pub ccpz : Text
