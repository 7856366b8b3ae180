-- ===== src/Host/Paths.antt =====
-- The paths of the host, after one is added.
use cpmulator.Base.{
  ℕ, ◌≡◌, ◌∙◌, refl, sym, inl, inr, Bool, true, false, some, List, [], ◌∷◌, Text, text_eq,
  text_eq_iff, if◌then◌else◌, Bool-cases,
}
use cpmulator.Assoc.{lookup}
use cpmulator.Host.{add_path, text_le}

-- The name that is added leads to its file, and every other name to what it led.
pub lookup-add_path :
    (p : Text) (i : ℕ) (q : Text) (m : List (Text × ℕ))
    → lookup text_eq q (add_path p i m) ≡ (if text_eq p q then some i else lookup text_eq q m)
lookup-add_path p i q [] = refl
lookup-add_path p i q ((r, j) ∷ m) = elim (Bool-cases (text_eq r p)) [
  | inl e ↦
      let at : r ≡ p = (text_eq_iff r p).0 e in
      rw (e, at) (elim (Bool-cases (text_eq p q)) [ inl f ↦ rw f refl | inr f ↦ rw f refl ])
  | inr e ↦ elim (Bool-cases (text_le p r)) [
    | inl f ↦ rw (e, f) refl
    | inr f ↦
        rw (e, f, lookup-add_path p i q m) (apart (text_eq r q) (text_eq p q) (λ a b. e' e a b))
  ]
]
  where
    apart :
        (a b : Bool)
        → (a ≡ true → b ≡ true → ⊥)
        → (if a then some j else (if b then some i else lookup text_eq q m))
          ≡ (if b then some i else (if a then some j else lookup text_eq q m))
    apart true true h = absurd (h refl refl)
    apart true false h = refl
    apart false b h = refl

    e' : text_eq r p ≡ false → text_eq r q ≡ true → text_eq p q ≡ true → ⊥
    e' e a b =
        let at : r ≡ p = (text_eq_iff r q).0 a ∙ sym ((text_eq_iff p q).0 b) in
        let found : text_eq r p ≡ true = (text_eq_iff r p).1 at in cc
