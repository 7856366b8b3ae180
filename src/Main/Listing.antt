-- ===== src/Main/Listing.antt =====
-- main.go: the flags that have something listed instead of a program run.
pub mod InOrder
use cpmulator.Base.{
  ℕ, zero, suc, ◌+◌, ◌-◌, ◌/◌, ◌%◌, ◌≡◌, Bool, true, false, Option, none, some, List, [], ◌∷◌, ◌++◌,
  Text, text_eq, codes, if◌then◌else◌, length, map, replicate, ◌==◌, ltb, leb,
}
use cpmulator.Assoc.{lookup}
use cpmulator.Ccp
use cpmulator.Ccp.{Flavour}
use cpmulator.Env.{Env}
use cpmulator.Bios.Reserved
use cpmulator.Cpm.{Cpm}
use cpmulator.Emulator.Table.{CpmHandler, Calls, bdos_calls, bios_calls}
use cpmulator.Main.Sorted.{sort}

abbrev pad_left : ℕ → ℕ → Text → Text
pad_left width c t = replicate (width - length t) c ++ t

-- `%-20s` and the like, of a text in ASCII.
abbrev pad_right : ℕ → Text → Text
pad_right width t = t ++ replicate (width - length t) b' '

-- At most so many digits of a number to a base, the last ones.
unfoldable pub digits : ℕ → ℕ → ℕ → Text
digits zero base n = []
digits (suc fuel) base n =
    let rest = digits fuel base (n / base) in
    let last : ℕ = n % base in
    let c : ℕ = if ltb last 10 then last + b'0' else last - 10 + b'A' in
    if ltb n base then c ∷ [] else rest ++ c ∷ []

-- `%04X` of a number of at most 64 bits.
abbrev hex : ℕ → Text
hex n = pad_left 4 b'0' (digits 16 16 n)

-- `-list-ccp`
unfoldable pub list_ccps : List Flavour → Text
unfolding digits
list_ccps [] = []
list_ccps (x ∷ xs) =
    pad_left 5 b' ' x.name
    ++ codes " "
    ++ pad_right 10 x.description
    ++ codes " "
    ++ hex (length x.bytes)
    ++ codes " bytes, entry-point "
    ++ hex x.start
    ++ 10 ∷ list_ccps xs

-- The order of strings: that of their bytes.
unfoldable pub text_leb : Text → Text → Bool
text_leb [] t = true
text_leb (c ∷ s) [] = false
text_leb (c ∷ s) (d ∷ t) =
    let later = text_leb s t in if ltb c d then true else if c == d then later else false

-- The lines of `-list-input-drivers` and `-list-output-drivers`, from the names in order.
unfoldable pub driver_lines : Text → List Text → Text
driver_lines chosen [] = []
driver_lines chosen (name ∷ names) =
    let rest = driver_lines chosen names in
    name ++ (if text_eq name chosen then 9 ∷ codes "[default]" else []) ++ 10 ∷ rest

-- From the names in the order in which Go's map gives them.
unfoldable pub list_drivers : Text → List Text → Text
unfolding sort text_leb driver_lines
list_drivers chosen valid = driver_lines chosen (sort text_leb valid)

-- A line of `-list-syscalls`; a number from 0 to 255.
unfoldable pub call_line : ℕ → CpmHandler → Text
unfolding digits
call_line id ent =
    9 ∷ pad_left 3 b'0' (digits 3 10 id)
    ++ codes " "
    ++ pad_right 20 ent.desc
    ++ codes " "
    ++ (if ent.fake then codes "FAKE" else [])
    ++ 10 ∷ []

-- The loop of `dumper`; a number that is not in the map would give an empty entry.
unfoldable pub call_lines : List ℕ → Calls → Text
unfolding call_line
call_lines [] calls = []
call_lines (id ∷ ids) calls = elim (lookup ◌==◌ id calls) [
  | none ↦
      9 ∷ pad_left 3 b'0' (digits 3 10 id)
      ++ codes " "
      ++ pad_right 20 []
      ++ codes " "
      ++ 10 ∷ call_lines ids calls
  | some ent ↦ call_line id ent ++ call_lines ids calls
]

-- `dumper`, from the numbers in the order in which Go's map gives them.
unfoldable pub dumper : Text → List ℕ → Calls → Text
unfolding sort call_lines
dumper name order calls = name ++ codes " syscalls:" ++ 10 ∷ call_lines (sort leb order) calls

-- `-list-syscalls`, where `New` makes the emulator.
unfoldable pub list_syscalls : Env → List ℕ → List ℕ → Text
unfolding dumper bdos_calls bios_calls
list_syscalls env bdos_order bios_order =
    dumper (codes "BDOS") bdos_order (bdos_calls env)
    ++ dumper (codes "BIOS") bios_order (bios_calls env)

-- "If we have a program": it and its arguments, from what follows the flags.
unfoldable pub program_of : List Text → Text × List Text
program_of [] = ([], [])
program_of (program ∷ args) = (program, args)

-- The flags that ask for a list.
pub record ListFlags : Type 0 where
  pub list_ccps : Bool
  pub list_input : Bool
  pub list_output : Bool
  pub list_syscalls : Bool
  pub show_version : Bool

-- What is listed, if anything is; the names of the drivers are those of `GetDrivers`.
unfoldable pub listing : Env → ListFlags → List Text → List Text → List ℕ → List ℕ → Option Text
unfolding list_ccps list_drivers list_syscalls Ccp.ccps Reserved.get_version_banner
listing env f inputs outputs bdos_order bios_order =
    if f.list_ccps
    then some (list_ccps (Ccp.ccps env.dr env.ccpz))
    else if f.list_input
    then some (list_drivers (codes "term") inputs)
    else if f.list_output
    then some (list_drivers (codes "adm-3a") outputs)
    else if f.list_syscalls
    then some (list_syscalls env bdos_order bios_order)
    else if f.show_version
    then some (Reserved.get_version_banner env.version)
    else none
