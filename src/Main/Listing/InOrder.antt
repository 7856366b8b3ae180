-- ===== src/Main/Listing/InOrder.antt =====
-- main.go, `-list-syscalls`: what is listed does not depend on the order of Go's maps.
use cpmulator.Base.{ℕ, ◌≡◌, refl, List, [], ◌∷◌, ◌++◌, Text, codes, map}
use mathlib.Core.List.{Permᴰ}
use cpmulator.Env.{Env}
use cpmulator.Emulator.Table.{
  Calls, bdos_calls, bios_calls, console_calls, file_calls, drive_calls, late_calls,
}
use cpmulator.Main.Sorted.{sort, sort-perm}
use cpmulator.Main.Listing.{call_line, call_lines, dumper, list_syscalls}

-- A line for each entry of a table.
abbrev pub table_lines : Calls → Text
table_lines [] = []
table_lines ((n, h) ∷ calls) = call_line n h ++ table_lines calls

-- The numbers of a table.
abbrev pub numbers : Calls → List ℕ
numbers calls = map (λ c. c.0) calls

-- Whatever the orders are in which Go goes through the maps of the calls, the flag for the list of
-- the calls prints a heading and a line for each call of the BDOS, in the order of the table, and
-- then the same for the BIOS.
pub list_syscalls_lem :
    (env : Env) (bdos_order bios_order : List ℕ)
    → Permᴰ bdos_order (numbers (bdos_calls env))
    → Permᴰ bios_order (numbers (bios_calls env))
    → list_syscalls env bdos_order bios_order
      ≡ (codes "BDOS syscalls:" ++ 10 ∷ table_lines (bdos_calls env))
        ++ codes "BIOS syscalls:"
        ++ 10 ∷ table_lines (bios_calls env)
unfolding list_syscalls dumper call_lines sort console_calls file_calls drive_calls late_calls
    bdos_calls bios_calls
list_syscalls_lem env bdos_order bios_order p q =
    rw
      (
        sort-perm bdos_order (numbers (bdos_calls env)) p,
        sort-perm bios_order (numbers (bios_calls env)) q,
        list_syscalls,
      )
      refl
