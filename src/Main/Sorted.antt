-- ===== src/Main/Sorted.antt =====
-- main.go: what sorting gives does not depend on the order of what is sorted.
use cpmulator.Base.{ℕ, ◌≡◌, ◌∙◌, ap, refl, Bool, List, [], ◌∷◌, if◌then◌else◌, leb, arith}
use mathlib.Core.List.{Permᴰ}

module _ {A : Type 0} (le : A → A → Bool) where
  unfoldable pub insert : A → List A → List A
  insert a [] = a ∷ []
  insert a (x ∷ xs) = let rest = insert a xs in if le a x then a ∷ x ∷ xs else x ∷ rest

  -- `sort.Ints` and `slices.Sort`, which sort in ascending order.
  unfoldable pub sort : List A → List A
  unfolding insert
  sort [] = []
  sort (x ∷ xs) = insert x (sort xs)

insert-insert :
    (a b : ℕ) (xs : List ℕ) → insert leb a (insert leb b xs) ≡ insert leb b (insert leb a xs)
unfolding insert
insert-insert a b [] = ground arith
insert-insert a b (x ∷ xs) = ground (arith, insert-insert a b xs)

-- Numbers in any order are sorted alike.
pub sort-perm : (xs ys : List ℕ) → Permᴰ xs ys → sort leb xs ≡ sort leb ys
unfolding sort
sort-perm xs ys Permᴰ.nil = refl
sort-perm xs ys (Permᴰ.cons {a = a} {l₁ = l} {l₂ = m} e p) =
    ap (λ y. insert leb y (sort leb l)) e ∙ ap (insert leb _) (sort-perm l m p)
sort-perm xs ys (Permᴰ.swap {a = a} {b = b} {a' = c} {b' = d} {l = l} e f) =
    insert-insert a b (sort leb l)
    ∙ ap (λ y. insert leb y (insert leb a (sort leb l))) f
    ∙ ap (λ y. insert leb c (insert leb y (sort leb l))) e
sort-perm xs ys (Permᴰ.trans {l₂ = zs} p q) = sort-perm xs zs p ∙ sort-perm zs ys q
