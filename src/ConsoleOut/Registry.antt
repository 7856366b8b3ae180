-- ===== src/ConsoleOut/Registry.antt =====
-- consoleout/consoleout.go: drivers by name.
use cpmulator.Base.{
  ℕ, true, false, ◌≡◌, refl, some, [], ◌∷◌, Text, text_eq, arith, text_eq→eq, text_eq_refl,
  Option-cases, Bool-cases, inl, inr, ◌⊎◌, if◌then◌else◌,
}
use cpmulator.Text.{to_lower}
use cpmulator.ConsoleOut.{
  Driver, ConsoleOut, Handlers, lookup, store, register, handlers, new, change_driver, get_name,
  driver_name, put, put_character,
}

-- Every registered driver bears the name it is registered under.
abbrev pub IsNamed : Handlers → Type 0
IsNamed [] = Unit
IsNamed ((k, d) ∷ m) = (driver_name d ≡ k) × IsNamed m

lookup-name :
    (k : Text) (m : Handlers) {d : Driver} → IsNamed m → lookup k m ≡ some d → driver_name d ≡ k
unfolding lookup
lookup-name k [] h e = cc
lookup-name k ((j, f) ∷ m) h e = elim (Bool-cases (text_eq j k)) [
  | inl same ↦ cc (rw same at e, h.0, text_eq→eq j k same)
  | inr other ↦ lookup-name k m h.1 (rw other at e)
]

handlers-IsNamed : IsNamed handlers
unfolding handlers store driver_name
handlers-IsNamed = (refl, (refl, (refl, (refl, tt))))

lookup-handlers : (k : Text) {d : Driver} → lookup k handlers ≡ some d → driver_name d ≡ k
lookup-handlers k e = lookup-name k handlers handlers-IsNamed e

-- A name in any case gives an output whose driver bears the name in small letters, or an error.
pub new-name :
    (name : Text) (co : ConsoleOut) → new handlers name ≡ some co → get_name co ≡ to_lower name
unfolding new get_name
new-name name co e = elim (Option-cases (lookup (to_lower name) handlers)) [
  | inl missing ↦ ground arith
  | inr (d, found) ↦ ground (arith, lookup-handlers (to_lower name) found)
]

-- Changing the driver either fails and leaves the output alone, or gives it the driver of that very
-- name.
pub change_driver_lem :
    (name : Text) (co : ConsoleOut)
    → (change_driver handlers name co ≡ (co, false))
      ⊎ ((change_driver handlers name co).1 ≡ true)
        × (get_name (change_driver handlers name co).0 ≡ name)
unfolding change_driver get_name
change_driver_lem name co = elim (Option-cases (lookup name handlers)) [
  | inl missing ↦ inl (rw (missing, change_driver))
  | inr (d, found) ↦
      inr (rw (found, change_driver), rw (found, change_driver) (lookup-handlers name found))
]

-- Output does not change which driver is in use.
pub get_name-put : (c : ℕ) (co : ConsoleOut) → get_name (put c co) ≡ get_name co
unfolding get_name put driver_name put_character
get_name-put c co = ground arith

lookup-store :
    (k j : Text) (d : Driver) (m : Handlers)
    → lookup j (store k d m) ≡ (if text_eq k j then some d else lookup j m)
unfolding lookup store
lookup-store k j d [] = refl
lookup-store k j d ((i, e) ∷ m) =
    ground
      (arith, text_eq→eq i k, text_eq_refl k, text_eq→eq k j, text_eq→eq i j, lookup-store k j d m)

-- A registered driver is found under its name in any case, and the registration touches no other.
pub new-register :
    (k name : Text) (d : Driver) (m : Handlers)
    → new (register k d m) name
      ≡ (if text_eq (to_lower k) (to_lower name) then some (record { driver = d }) else new m name)
unfolding new register
new-register k name d m = rw (lookup-store (to_lower k) (to_lower name) d m, new) (ground arith)
