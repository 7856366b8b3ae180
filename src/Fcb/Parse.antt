-- ===== src/Fcb/Parse.antt =====
-- fcb/fcb.go, `FromString`: what it makes of a file name of CP/M.
use cpmulator.Base.{
  ℕ, zero, suc, ◌-◌, ◌≤◌, ◌<◌, ◌≡◌, refl, ap, ap₂, ◌∙◌, ◌≢◌, ◌⊎◌, inl, [], ◌∷◌, ◌++◌, arith, length,
  replicate, length-append, length-replicate, length-take, take, append-nil, take_all, Text, All,
  All-append,
}
use cpmulator.Text.{upper_byte, to_upper, split}
use cpmulator.Text.Trim.{spaces}
use cpmulator.Fcb.{Fcb, zero_fcb, pad, expand, copy_into, drive_prefix, from_parts, from_string}
use cpmulator.Fcb.Codec.{copy_into_full}

-- A character of a file name: visible, no separator, no star and no small letter.
pub record IsFileChar (c : ℕ) : Type 0 where
  pub visible : 33 ≤ c
  pub ascii : c ≤ 126
  pub no_dot : c ≢ b'.'
  pub no_colon : c ≢ b':'
  pub no_star : c ≢ b'*'
  pub upper : (c < b'a') ⊎ (b'z' < c)

-- A character that neither the change to capitals nor the test for a drive looks at.
abbrev IsStable : ℕ → Type 0
IsStable c = (c ≢ b':') × ((c < b'a') ⊎ (b'z' < c))

All-IsStable : (s : Text) → All IsFileChar s → All IsStable s
All-IsStable [] h = tt
All-IsStable (c ∷ s) h = ((h.0.no_colon, h.0.upper), All-IsStable s h.1)

to_upper_same : (s : Text) → All IsStable s → to_upper s ≡ s
unfolding to_upper upper_byte
to_upper_same [] h = refl
to_upper_same (c ∷ s) h = ap₂ ◌∷◌ (ground arith) (to_upper_same s h.1)

drive_prefix_none : (s : Text) → All IsStable s → drive_prefix s ≡ (0, s)
unfolding drive_prefix
drive_prefix_none [] h = refl
drive_prefix_none (d ∷ []) h = refl
drive_prefix_none (d ∷ c ∷ []) h = refl
drive_prefix_none (d ∷ c ∷ x ∷ s) h = ground arith

pub split_none : (s : Text) → All IsFileChar s → split b'.' s ≡ (s, [])
unfolding split
split_none [] h = refl
split_none (c ∷ s) h = ground (arith, split_none s h.1)

pub split_once :
    (s t : Text) → All IsFileChar s → All IsFileChar t → split b'.' (s ++ b'.' ∷ t) ≡ (s, t ∷ [])
unfolding split
split_once [] t h k = ground (arith, split_none t k)
split_once (c ∷ s) t h k = ground (arith, split_once s t h.1 k)

pad-nil : (n : ℕ) → pad n [] ≡ spaces n
unfolding pad
pad-nil zero = refl
pad-nil (suc n) = ap (λ l. 32 ∷ l) (pad-nil n)

pub pad_lem : (n : ℕ) (s : Text) → length s ≤ n → pad n s ≡ s ++ spaces (n - length s)
unfolding pad
pad_lem zero [] h = refl
pad_lem zero (c ∷ s) h = absurd (omega arith)
pad_lem (suc n) [] h = pad-nil (suc n) ∙ ap spaces {x = suc n} (omega arith)
pad_lem (suc n) (c ∷ s) h =
    ap (λ l. c ∷ l) (pad_lem n s (omega arith))
    ∙ ap (λ k. c ∷ s ++ spaces k) {x = n - length s} (omega arith)

expand-spaces : (marks : Text) (n : ℕ) → expand marks (spaces n) ≡ spaces n
unfolding expand
expand-spaces marks zero = refl
expand-spaces marks (suc n) = ap (λ l. 32 ∷ l) (expand-spaces marks n)

expand-padded :
    (marks s : Text) (n : ℕ) → All IsFileChar s → expand marks (s ++ spaces n) ≡ s ++ spaces n
unfolding expand
expand-padded marks [] n h = expand-spaces marks n
expand-padded marks (c ∷ s) n h = ground (arith, expand-padded marks s n h.1)

-- What a field of a control block gets from a part of a name that fits it.
field_lem :
    (dst marks s : Text) (n : ℕ)
    → length dst ≡ n
    → length s ≤ n
    → All IsFileChar s
    → copy_into dst (expand marks (pad n s)) ≡ s ++ spaces (n - length s)
field_lem dst marks s n d h k =
    let full : length (s ++ spaces (n - length s)) ≡ n = omega (
      arith,
      length-append s (spaces (n - length s)),
      length-replicate {A = ℕ} (n - length s) 32,
    ) in
    rw (pad_lem n s h, expand-padded marks s (n - length s) k)
      (copy_into_full dst (s ++ spaces (n - length s)) (omega arith)
        ∙ take_all (length dst) (s ++ spaces (n - length s)) (omega arith))

-- The control block that holds a name and a suffix, padded.
abbrev pub block : Text → Text → Fcb
block name ext = record zero_fcb {
  name = name ++ spaces (8 - length name);
  type = ext ++ spaces (3 - length ext);
}

-- A name of at most eight characters, with or without a suffix of at most three, is stored padded
-- with spaces, for the default drive, and all else is zero.
pub from_string_plain :
    (name : Text) → length name ≤ 8 → All IsFileChar name → from_string name ≡ block name []
unfolding from_string from_parts copy_into
from_string_plain name h k =
    rw
      (
        to_upper_same name (All-IsStable name k),
        drive_prefix_none name (All-IsStable name k),
        split_none name k,
      )
      (λ i. record zero_fcb {
        name = field_lem (replicate 8 0) (replicate 9 b'?') name 8 refl h k i;
        type = spaces 3;
      })

pub from_string_suffix :
    (name ext : Text)
    → length name ≤ 8
    → length ext ≤ 3
    → All IsFileChar name
    → All IsFileChar ext
    → from_string (name ++ b'.' ∷ ext) ≡ block name ext
unfolding from_string from_parts copy_into
from_string_suffix name ext h h' k k' =
    rw (to_upper_same _ stable, drive_prefix_none _ stable, split_once name ext k k')
      (λ i. record zero_fcb {
        name = field_lem (replicate 8 0) (replicate 9 b'?') name 8 refl h k i;
        type = field_lem (spaces 3) (replicate 3 b'?') ext 3 refl h' k' i;
      })
  where
    stable : All IsStable (name ++ b'.' ∷ ext)
    stable =
        All-append IsStable name (b'.' ∷ ext) (All-IsStable name k)
          ((omega arith, inl (omega arith)), All-IsStable ext k')

pad_long : (n : ℕ) (s : Text) → n ≤ length s → pad n s ≡ s
unfolding pad
pad_long zero s h = refl
pad_long (suc n) [] h = absurd (omega arith)
pad_long (suc n) (c ∷ s) h = ap (λ l. c ∷ l) (pad_long n s (omega arith))

expand_same : (marks s : Text) → All IsFileChar s → expand marks s ≡ s
unfolding expand
expand_same marks [] h = refl
expand_same marks (c ∷ s) h = ground (arith, expand_same marks s h.1)

-- A longer name without a suffix is cut after eight characters.
pub from_string_long :
    (name : Text)
    → 8 ≤ length name
    → All IsFileChar name
    → from_string name ≡ block (take 8 name) []
unfolding from_string from_parts copy_into
from_string_long name h k =
    rw
      (
        to_upper_same name (All-IsStable name k),
        drive_prefix_none name (All-IsStable name k),
        split_none name k,
      )
      (λ i. record zero_fcb { name = cut i; type = spaces 3 })
  where
    cut :
        copy_into (replicate 8 0) (expand (replicate 9 b'?') (pad 8 name))
        ≡ take 8 name ++ spaces (8 - length (take 8 name))
    cut =
        let full : 8 - length (take 8 name) ≡ 0 = omega (arith, length-take 8 name) in
        rw (pad_long 8 name h, expand_same (replicate 9 b'?') name k, full, append-nil)
          (copy_into_full (replicate 8 0) name h)
