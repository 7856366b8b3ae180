-- ===== src/Memory/Ranges.antt =====
-- Ranges of the RAM after a copy into it.
use cpmulator.Base.{
  ℕ, zero, suc, ◌+◌, ◌≤◌, ◌<◌, ◌≡◌, refl, ap₂, ap, ◌∙◌, List, ◌∷◌, arith, length, u16, ◌⊎◌, inl,
  inr,
}
use mathlib.Core.Path.{subst}
use cpmulator.Memory.{Memory, get, get_range, copy_at}
use cpmulator.Memory.Laws.{set_range_fits, set_range_lem}

-- Ranges agree where their cells do.
pub get_range_cong :
    (m m' : Memory) (a n : ℕ)
    → a < 65536
    → ((i : ℕ) → i < n → get m (u16 (a + i)) ≡ get m' (u16 (a + i)))
    → get_range m a n ≡ get_range m' a n
unfolding get_range
get_range_cong m m' a zero h k = refl
get_range_cong m m' a (suc n) h k =
    ap₂ ◌∷◌
      (ap (get m) {y = u16 (a + 0)} (omega arith)
        ∙ k 0 (omega arith)
        ∙ ap (get m') {x = u16 (a + 0)} (omega arith))
      (get_range_cong m m' (u16 (a + 1)) n (omega arith) (λ i p.
        ap (get m) {y = u16 (a + suc i)} (omega arith)
        ∙ k (suc i) (omega arith)
        ∙ ap (get m') {x = u16 (a + suc i)} (omega arith)))

pub get_range-copy_at_self :
    (m : Memory) (a : ℕ) (xs : List ℕ)
    → a + length xs ≤ 65536
    → get_range (copy_at m a xs) a (length xs) ≡ xs
get_range-copy_at_self m a xs h =
    (set_range_lem m a xs (copy_at m a xs) (set_range_fits m a xs h)).1

-- A copy elsewhere leaves a range alone.
pub get_range-copy_at_apart :
    (m : Memory) (a : ℕ) (xs : List ℕ) (b n : ℕ)
    → a + length xs ≤ 65536
    → b + n ≤ 65536
    → (a + length xs ≤ b) ⊎ (b + n ≤ a)
    → get_range (copy_at m a xs) b n ≡ get_range m b n
unfolding get_range
get_range-copy_at_apart m a xs b zero h k d = refl
get_range-copy_at_apart m a xs b (suc n) h k d =
    get_range_cong (copy_at m a xs) m b (suc n) (omega arith) (λ i p.
      (set_range_lem m a xs (copy_at m a xs) (set_range_fits m a xs h)).2 (u16 (b + i))
        (away i p d))
  where
    away :
        (i : ℕ)
        → i < suc n
        → (a + length xs ≤ b) ⊎ (b + suc n ≤ a)
        → (u16 (b + i) < a) ⊎ (a + length xs ≤ u16 (b + i))
    away i p (inl q) = inr (omega arith)
    away i p (inr q) = inl (omega arith)

-- Two copies apart from one another are both read back.
pub get_range-copies :
    (m : Memory) (a : ℕ) (xs : List ℕ) (b : ℕ) (ys : List ℕ) (j k : ℕ)
    → length xs ≡ j
    → length ys ≡ k
    → a + j ≤ 65536
    → b + k ≤ 65536
    → (b + k ≤ a) ⊎ (a + j ≤ b)
    → (get_range (copy_at (copy_at m a xs) b ys) a j ≡ xs)
      × (get_range (copy_at (copy_at m a xs) b ys) b k ≡ ys)
get_range-copies m a xs b ys j k ej ek h h' d =
    subst
      (λ n.
        (get_range (copy_at (copy_at m a xs) b ys) a n ≡ xs)
        × (get_range (copy_at (copy_at m a xs) b ys) b k ≡ ys))
      ej
      (subst
        (λ n.
          (get_range (copy_at (copy_at m a xs) b ys) a (length xs) ≡ xs)
          × (get_range (copy_at (copy_at m a xs) b ys) b n ≡ ys))
        ek
        (
          get_range-copy_at_apart (copy_at m a xs) b ys a (length xs) (omega arith) (omega arith)
                (omega arith)
              ∙ get_range-copy_at_self m a xs (omega arith),
          get_range-copy_at_self (copy_at m a xs) b ys (omega arith),
        ))
