-- ===== src/ConsoleOut.antt =====
-- consoleout/: the drivers for console output, and the registry that makes them by name.
pub mod Adm3a
pub mod Registry
use cpmulator.Base.{
  ℕ, Bool, true, false, ◌&&◌, not, Option, none, some, List, [], ◌∷◌, ◌++◌, if◌then◌else◌, Text,
  text_eq, codes,
}
use cpmulator.Text.{to_lower, utf8}

-- The objects behind the interface `ConsoleOutput`. A writer is what has been written to it;
-- a logger has its history too.
pub data Driver : Type 0 where
  adm3a : Adm3a.Adm3a → Driver
  ansi : Text → Driver
  null : Text → Driver
  logger : Text → Text → Driver

unfoldable pub put_character : ℕ → Driver → Driver
unfolding Adm3a.put_character utf8
put_character c (Driver.adm3a d) = Driver.adm3a (Adm3a.put_character c d)
put_character c (Driver.ansi w) = Driver.ansi (w ++ utf8 c)
put_character c (Driver.null w) = Driver.null w
put_character c (Driver.logger w history) = Driver.logger w (history ++ utf8 c)

unfoldable pub driver_name : Driver → Text
driver_name (Driver.adm3a d) = codes "adm-3a"
driver_name (Driver.ansi w) = codes "ansi"
driver_name (Driver.null w) = codes "null"
driver_name (Driver.logger w history) = codes "logger"

unfoldable pub set_writer : Text → Driver → Driver
unfolding Adm3a.set_writer
set_writer w (Driver.adm3a d) = Driver.adm3a (Adm3a.set_writer w d)
set_writer w (Driver.ansi v) = Driver.ansi w
set_writer w (Driver.null v) = Driver.null w
set_writer w (Driver.logger v history) = Driver.logger w history

-- `GetOutput` and `Reset` of a `ConsoleRecorder`; only the logger is one.
unfoldable pub get_output : Driver → Option Text
get_output (Driver.logger w history) = some history
get_output _ = none

unfoldable pub reset : Driver → Driver
reset (Driver.logger w history) = Driver.logger w []
reset d = d

-- The map of constructors: what each makes, under its name.
abbrev pub Handlers : Type 0
Handlers = List (Text × Driver)

unfoldable pub lookup : Text → Handlers → Option Driver
lookup k [] = none
lookup k ((j, d) ∷ m) = if text_eq j k then some d else lookup k m

-- `m[name] = obj`
unfoldable pub store : Text → Driver → Handlers → Handlers
store k d [] = (k, d) ∷ []
store k d ((j, e) ∷ m) = if text_eq j k then (k, d) ∷ m else (j, e) ∷ store k d m

unfoldable pub register : Text → Driver → Handlers → Handlers
unfolding store to_lower
register name obj m = store (to_lower name) obj m

-- What the four `init` functions of the package register, in the order of their files.
unfoldable pub handlers : Handlers
unfolding register
handlers = register (codes "null") (Driver.null []) (
    register (codes "logger") (Driver.logger [] []) (
      register (codes "ansi") (Driver.ansi [])
        (register (codes "adm-3a") (Driver.adm3a Adm3a.fresh) [])))

-- `ConsoleOut`, whose one field is the driver.
pub record ConsoleOut : Type 0 where
  pub driver : Driver

-- `none` is the error of a name that is not registered.
unfoldable pub new : Handlers → Text → Option ConsoleOut
unfolding lookup to_lower
new m name = elim (lookup (to_lower name) m) [ none ↦ none | some d ↦ some (record { driver = d }) ]

-- The new state, and whether the call succeeded. The name is looked up as it is given.
unfoldable pub change_driver : Handlers → Text → ConsoleOut → ConsoleOut × Bool
unfolding lookup
change_driver m name co = elim (lookup name m) [
  | none ↦ (co, false)
  | some d ↦ (record { driver = d }, true)
]

unfoldable pub get_name : ConsoleOut → Text
unfolding driver_name
get_name co = driver_name co.driver

-- The names but for the hidden ones. The source ranges over a map: the order is any.
unfoldable pub get_drivers : Handlers → List Text
get_drivers [] = []
get_drivers ((x, d) ∷ m) =
    let rest = get_drivers m in
    if not (text_eq x (codes "null")) && not (text_eq x (codes "logger")) then x ∷ rest else rest

unfoldable pub put : ℕ → ConsoleOut → ConsoleOut
unfolding put_character
put c co = record { driver = put_character c co.driver }
