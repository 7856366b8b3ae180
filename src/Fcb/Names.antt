-- ===== src/Fcb/Names.antt =====
-- fcb/fcb.go, `GetName`, `GetType` and `GetFileName`: the name back out of a control block.
use cpmulator.Base.{
  ℕ, zero, suc, ◌-◌, ◌≤◌, ◌≡◌, refl, ap, ◌&&◌, not, if◌then◌else◌, [], ◌∷◌, ◌++◌, arith,
  append_assoc, length, Text, All, All-append, text_eq,
}
use cpmulator.Text.{utf8, is_print}
use cpmulator.Text.Trim.{IsGraph, spaces, trim_space-padded, trim_space-graph}
use cpmulator.Fcb.{name_text, type_text, get_name, get_type, get_file_name, from_string}
use cpmulator.Fcb.Parse.{IsFileChar, block, from_string_plain, from_string_suffix}

pub All-IsGraph : (s : Text) → All IsFileChar s → All IsGraph s
All-IsGraph [] h = tt
All-IsGraph (c ∷ s) h = ((h.0.visible, h.0.ascii), All-IsGraph s h.1)

name_text-spaces : (n : ℕ) → name_text (spaces n) ≡ spaces n
unfolding name_text utf8
name_text-spaces zero = refl
name_text-spaces (suc n) = ap (λ l. 32 ∷ l) (name_text-spaces n)

name_text-padded : (s : Text) (n : ℕ) → All IsGraph s → name_text (s ++ spaces n) ≡ s ++ spaces n
unfolding name_text utf8
name_text-padded [] n h = name_text-spaces n
name_text-padded (c ∷ s) n h = ground (arith, name_text-padded s n h.1)

type_text-spaces : (n : ℕ) → type_text (spaces n) ≡ spaces n
unfolding type_text utf8 is_print
type_text-spaces zero = refl
type_text-spaces (suc n) = ap (λ l. 32 ∷ l) (type_text-spaces n)

type_text-padded : (s : Text) (n : ℕ) → All IsGraph s → type_text (s ++ spaces n) ≡ s ++ spaces n
unfolding type_text utf8 is_print
type_text-padded [] n h = type_text-spaces n
type_text-padded (c ∷ s) n h = ground (arith, type_text-padded s n h.1)

get_file_name-plain : (name : Text) → All IsFileChar name → get_file_name (block name []) ≡ name
unfolding get_file_name get_name get_type type_text
get_file_name-plain name h =
    rw
      (
        name_text-padded name (8 - length name) (All-IsGraph name h),
        trim_space-padded name (8 - length name) (All-IsGraph name h),
      )
      (trim_space-graph name (All-IsGraph name h))

-- A suffix of visible characters, padded, is not taken for an empty one.
suffix_seen :
    (name : Text) (e : ℕ) (ext : Text) (n : ℕ)
    → IsFileChar e
    → (if not (text_eq (e ∷ ext ++ spaces n) [])
          && not (text_eq (e ∷ ext ++ spaces n) (32 ∷ 32 ∷ 32 ∷ []))
        then name ++ b'.' ∷ (e ∷ ext ++ spaces n)
        else name)
      ≡ name ++ b'.' ∷ (e ∷ ext ++ spaces n)
suffix_seen name e ext n h = ground arith

get_file_name-suffix :
    (name : Text) (e : ℕ) (ext : Text)
    → All IsFileChar name
    → All IsFileChar (e ∷ ext)
    → get_file_name (block name (e ∷ ext)) ≡ name ++ b'.' ∷ e ∷ ext
unfolding get_file_name get_name get_type
get_file_name-suffix name e ext h k =
    rw
      (
        name_text-padded name (8 - length name) (All-IsGraph name h),
        trim_space-padded name (8 - length name) (All-IsGraph name h),
        type_text-padded (e ∷ ext) (3 - length (e ∷ ext)) (All-IsGraph (e ∷ ext) k),
        suffix_seen name e ext (3 - length (e ∷ ext)) k.0,
        ← append_assoc name (b'.' ∷ e ∷ ext) (spaces (3 - length (e ∷ ext))),
      )
      (trim_space-padded (name ++ b'.' ∷ e ∷ ext) (3 - length (e ∷ ext)) (
        All-append IsGraph name (b'.' ∷ e ∷ ext) (All-IsGraph name h)
          (omega arith, All-IsGraph (e ∷ ext) k)))

-- The name that `FromString` stores is the one that `GetFileName` gives back: of at most eight
-- characters with no suffix, and of at most eight with a suffix of one to three.
pub get_file_name-from_string :
    (name : Text)
    → length name ≤ 8
    → All IsFileChar name
    → (get_file_name (from_string name) ≡ name)
      × ((e : ℕ) (ext : Text)
          → length ext ≤ 2
          → All IsFileChar (e ∷ ext)
          → get_file_name (from_string (name ++ b'.' ∷ e ∷ ext)) ≡ name ++ b'.' ∷ e ∷ ext)
get_file_name-from_string name h k = (
  rw (from_string_plain name h k) (get_file_name-plain name k),
  λ e ext h' k'.
      rw (from_string_suffix name (e ∷ ext) h (omega arith) k k')
        (get_file_name-suffix name e ext k k'),
)
