-- ===== src/ConsoleIn/Drivers.antt =====
-- consolein/consolein.go: the registry of input drivers.
use cpmulator.Base.{Option, none, some, List, [], ◌∷◌, Text, text_eq, codes}
use cpmulator.Text.{to_lower}
use cpmulator.Assoc.{lookup, store}
use cpmulator.ConsoleIn.{Driver, ConsoleIn}

-- The map of constructors: what each makes, under its name.
abbrev pub Handlers : Type 0
Handlers = List (Text × Driver)

unfoldable pub register : Text → Driver → Handlers → Handlers
unfolding to_lower
register name obj m = store text_eq (to_lower name) obj m

-- What the `init` functions of drv_stty.go and drv_term.go register.
unfoldable pub handlers : Driver → Driver → Handlers
unfolding register
handlers stty term = register (codes "term") term (register (codes "stty") stty [])

-- `none` is the error of a name that is not registered. The new object has no system prefix; the
-- variables of the package, which `ConsoleIn` holds too, are not its own, and stay.
unfoldable pub new : Handlers → Text → ConsoleIn → Option ConsoleIn
unfolding to_lower
new m name co = elim (lookup text_eq (to_lower name) m) [
  | none ↦ none
  | some d ↦ some (record co { driver = d; system_prefix = [] })
]

-- The source ranges over a map: the order is any.
unfoldable pub get_drivers : Handlers → List Text
get_drivers [] = []
get_drivers ((x, d) ∷ m) = x ∷ get_drivers m
