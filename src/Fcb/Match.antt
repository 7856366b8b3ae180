-- ===== src/Fcb/Match.antt =====
-- fcb/fcb.go, `DoesMatch`: which file names a pattern fits.
use cpmulator.Base.{
  ℕ, ◌-◌, ◌≤◌, ◌<◌, ◌≡◌, refl, sym, ◌∙◌, true, false, ◌&&◌, ◌⊎◌, ◌↔◌, List, [], ◌∷◌, ◌++◌, arith,
  length, Text, All, All-take, take, length-append, length-replicate, length-take,
}
use cpmulator.Text.Trim.{spaces}
use cpmulator.Fcb.{Fcb, bytes_match, too_long, does_match}
use cpmulator.Fcb.Codec.{IsValid}
use cpmulator.Fcb.Parse.{
  IsFileChar, block, from_string_plain, from_string_suffix, from_string_long, split_once,
  split_none,
}

-- A byte of a name fits the byte of a pattern.
abbrev pub Fits : ℕ → ℕ → Type 0
Fits c a = (a ≡ c) ⊎ (c ≡ b'?')

-- The bytes of a name fit a pattern, one by one.
pub data Matches : List ℕ → List ℕ → Type 0 where
  end : Matches [] []
  next :
      {c a : ℕ} {pattern actual : List ℕ}
      → Fits c a
      → Matches pattern actual
      → Matches (c ∷ pattern) (a ∷ actual)

bytes_match_complete :
    (pattern actual : List ℕ) → Matches pattern actual → bytes_match pattern actual ≡ true
unfolding bytes_match
bytes_match_complete _ _ end = refl
bytes_match_complete _ _ (next {pattern = p} {actual = t} f m) =
    ground (arith, bytes_match_complete p t m)

bytes_match_sound :
    (pattern actual : List ℕ)
    → length pattern ≡ length actual
    → bytes_match pattern actual ≡ true
    → Matches pattern actual
unfolding bytes_match
bytes_match_sound [] [] h e = end
bytes_match_sound [] (a ∷ t) h e = absurd (omega arith)
bytes_match_sound (c ∷ p) [] h e = absurd (omega arith)
bytes_match_sound (c ∷ p) (a ∷ t) h e =
    next (ground arith) (bytes_match_sound p t (omega arith) (ground arith))

length-padded : (s : Text) (n : ℕ) → length s ≤ n → length (s ++ spaces (n - length s)) ≡ n
length-padded s n h =
    omega
      (arith, length-append s (spaces (n - length s)), length-replicate {A = ℕ} (n - length s) 32)

-- Both loops together.
both_match :
    (f : Fcb) (name ext : Text)
    → IsValid f
    → length name ≤ 8
    → length ext ≤ 3
    → let g = block name ext in
      ((bytes_match f.name g.name && bytes_match f.type g.type) ≡ true)
      ↔ (Matches f.name g.name × Matches f.type g.type)
both_match f name ext v h k = (
  λ e. (
    bytes_match_sound f.name _ (v.name_size ∙ sym (length-padded name 8 h)) (ground arith),
    bytes_match_sound f.type _ (v.type_size ∙ sym (length-padded ext 3 k)) (ground arith),
  ),
  λ m. ground (
    arith,
    bytes_match_complete f.name (block name ext).name m.0,
    bytes_match_complete f.type (block name ext).type m.1,
  ),
)

too_long-suffix :
    (name ext : Text) → length name ≤ 8 → length ext ≤ 3 → too_long (name, ext ∷ []) ≡ false
unfolding too_long
too_long-suffix name ext h k = ground arith

-- A pattern fits a file name of CP/M, with or without a suffix, exactly when each byte of its name
-- and of its type is the byte of the padded name, or a question mark.
pub does_match_iff :
    (f : Fcb) (name ext : Text)
    → IsValid f
    → length name ≤ 8
    → length ext ≤ 3
    → All IsFileChar name
    → All IsFileChar ext
    → ((does_match f name ≡ true)
        ↔ (Matches f.name (block name []).name × Matches f.type (block name []).type))
      × ((does_match f (name ++ b'.' ∷ ext) ≡ true)
          ↔ (Matches f.name (block name ext).name × Matches f.type (block name ext).type))
unfolding does_match too_long
does_match_iff f name ext v h k p q = (
  rw (split_none name p, from_string_plain name h p) (both_match f name [] v h (omega arith)),
  rw (split_once name ext p q, too_long-suffix name ext h k, from_string_suffix name ext h k p q)
      (both_match f name ext v h k),
)

-- A name of more than eight characters before a dot, or a suffix of more than three, fits nothing.
pub does_match_too_long :
    (f : Fcb) (name ext : Text)
    → All IsFileChar name
    → All IsFileChar ext
    → (8 < length name) ⊎ (3 < length ext)
    → does_match f (name ++ b'.' ∷ ext) ≡ false
unfolding does_match too_long
does_match_too_long f name ext p q h = rw (split_once name ext p q) (ground arith)

-- Without a dot, a name of more than eight characters fits what its first eight characters fit.
pub does_match_long :
    (f : Fcb) (name : Text)
    → 8 ≤ length name
    → All IsFileChar name
    → does_match f name ≡ does_match f (take 8 name)
unfolding does_match too_long
does_match_long f name h p = rw (
  split_none name p,
  split_none (take 8 name) (All-take IsFileChar 8 name p),
  from_string_long name h p,
  from_string_plain (take 8 name) (omega (arith, length-take 8 name))
      (All-take IsFileChar 8 name p),
)
