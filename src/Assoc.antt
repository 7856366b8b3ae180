-- ===== src/Assoc.antt =====
-- Go's maps, as association lists over a test for equality of keys.
use cpmulator.Base.{
  ◌≡◌, refl, Bool, true, ◌↔◌, Option, none, some, List, [], ◌∷◌, if◌then◌else◌, arith, Bool-cases,
  inl, inr,
}

module _ {K V : Type 0} (same : K → K → Bool) where
  abbrev pub lookup : K → List (K × V) → Option V
  lookup k [] = none
  lookup k ((j, v) ∷ m) = if same j k then some v else lookup k m

  abbrev pub store : K → V → List (K × V) → List (K × V)
  store k v [] = (k, v) ∷ []
  store k v ((j, w) ∷ m) = if same j k then (k, v) ∷ m else (j, w) ∷ store k v m

  -- Every entry of the key goes.
  abbrev pub erase : K → List (K × V) → List (K × V)
  erase k [] = []
  erase k ((j, w) ∷ m) = let rest = erase k m in if same j k then rest else (j, w) ∷ rest

module _ {K V : Type 0} (same : K → K → Bool) (eq : (a b : K) → (same a b ≡ true) ↔ (a ≡ b)) where
  pub lookup-store :
      (k j : K) (v : V) (m : List (K × V))
      → lookup same j (store same k v m) ≡ (if same k j then some v else lookup same j m)
  lookup-store k j v [] = refl
  lookup-store k j v ((i, w) ∷ m) = elim (Bool-cases (same i k)) [
    | inl found ↦ rw (found, (eq i k).0 found) (ground arith)
    | inr other ↦ rw other (ground (arith, lookup-store k j v m, eq i j, eq k j, eq i k))
  ]

  pub lookup-erase :
      (k j : K) (m : List (K × V))
      → lookup same j (erase same k m) ≡ (if same k j then none else lookup same j m)
  lookup-erase k j [] = ground arith
  lookup-erase k j ((i, w) ∷ m) = elim (Bool-cases (same i k)) [
    | inl found ↦ rw found (ground (arith, lookup-erase k j m, eq i j, eq k j, eq i k))
    | inr other ↦ rw other (ground (arith, lookup-erase k j m, eq i j, eq k j, eq i k))
  ]
