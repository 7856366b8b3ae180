-- ===== src/Text/Trim.antt =====
-- White space round a text.
use cpmulator.Base.{
  ℕ, zero, suc, ◌≤◌, ◌≡◌, refl, ap, ◌∙◌, Bool, [], ◌∷◌, ◌++◌, append-nil, reverse, arith, replicate,
  Text, All, All-append,
}
use mathlib.Core.List.{reverse-append, reverse-reverse, reverse-cons}
use cpmulator.Text.{is_space, wide_space, trim_front, trim_space}

-- A visible ASCII character.
abbrev pub IsGraph : ℕ → Type 0
IsGraph c = (33 ≤ c) × (c ≤ 126)

-- Visible ASCII is no part of a white space of two bytes.
abbrev IsAsciiSafe : (ℕ → ℕ → Bool) → Type 0
IsAsciiSafe wide = (b c : ℕ) → b ≤ 126 → c ≤ 126 → wide b c ≡ Bool.false

-- `n` spaces.
abbrev pub spaces : ℕ → Text
spaces n = replicate n 32

trim_front-graph :
    (wide : ℕ → ℕ → Bool) (s : Text) → IsAsciiSafe wide → All IsGraph s → trim_front wide s ≡ s
unfolding trim_front
trim_front-graph wide [] k h = refl
trim_front-graph wide (b ∷ []) k h = ground arith
trim_front-graph wide (b ∷ c ∷ s) k h = ground (arith, k b c)

trim_front-graph_append :
    (wide : ℕ → ℕ → Bool) (c : ℕ) (s : Text) (n : ℕ)
    → IsAsciiSafe wide
    → IsGraph c
    → All IsGraph s
    → trim_front wide (c ∷ s ++ spaces n) ≡ c ∷ s ++ spaces n
unfolding trim_front is_space
trim_front-graph_append wide c [] zero k h t = ground arith
trim_front-graph_append wide c [] (suc n) k h t = ground (arith, k c 32)
trim_front-graph_append wide c (d ∷ s) n k h t = ground (arith, k c d)

trim_front-spaces :
    (wide : ℕ → ℕ → Bool) (n : ℕ) (s : Text) → trim_front wide (spaces n ++ s) ≡ trim_front wide s
unfolding trim_front
trim_front-spaces wide zero s = refl
trim_front-spaces wide (suc zero) [] = refl
trim_front-spaces wide (suc zero) (c ∷ s) = refl
trim_front-spaces wide (suc (suc n)) s = trim_front-spaces wide (suc n) s

trim_front_all : (wide : ℕ → ℕ → Bool) (n : ℕ) → trim_front wide (spaces n) ≡ []
unfolding trim_front
trim_front_all wide zero = refl
trim_front_all wide (suc zero) = refl
trim_front_all wide (suc (suc n)) = trim_front_all wide (suc n)

spaces-snoc : (n : ℕ) → spaces n ++ 32 ∷ [] ≡ 32 ∷ spaces n
spaces-snoc zero = refl
spaces-snoc (suc n) = ap (λ l. 32 ∷ l) (spaces-snoc n)

reverse-spaces : (n : ℕ) → reverse (spaces n) ≡ spaces n
reverse-spaces zero = refl
reverse-spaces (suc n) =
    reverse-cons 32 (spaces n) ∙ ap (λ l. l ++ 32 ∷ []) (reverse-spaces n) ∙ spaces-snoc n

All-reverse : (s : Text) → All IsGraph s → All IsGraph (reverse s)
All-reverse [] h = tt
All-reverse (c ∷ s) h =
    rw (reverse-cons c s) (All-append IsGraph (reverse s) (c ∷ []) (All-reverse s h.1) (h.0, tt))

wide_space-safe : IsAsciiSafe wide_space
unfolding wide_space
wide_space-safe b c h k = ground arith

-- Trimming takes the padding off a text of visible characters.
pub trim_space-padded : (s : Text) (n : ℕ) → All IsGraph s → trim_space (s ++ spaces n) ≡ s
unfolding trim_space trim_front
trim_space-padded [] n h = rw (trim_front_all wide_space n)
trim_space-padded (c ∷ s) n h =
    rw
      (
        trim_front-graph_append wide_space c s n wide_space-safe h.0 h.1,
        reverse-append (c ∷ s) (spaces n),
        reverse-spaces n,
        trim_front-spaces (λ x y. wide_space y x) n (reverse (c ∷ s)),
        trim_front-graph (λ x y. wide_space y x) (reverse (c ∷ s))
            (λ x y p q. wide_space-safe y x q p) (All-reverse (c ∷ s) h),
      )
      (reverse-reverse (c ∷ s))

-- A text of visible characters is not trimmed.
pub trim_space-graph : (s : Text) → All IsGraph s → trim_space s ≡ s
trim_space-graph s h = rw append-nil at (trim_space-padded s 0 h)
