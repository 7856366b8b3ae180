-- ===== src/Tests/Blocks.antt =====
-- fcb/fcb.go at concrete inputs.
use cpmulator.Base.{
  ℕ, ◌+◌, ◌*◌, ◌≤◌, ◌≡◌, ◌↔◌, inl, true, false, none, some, List, [], ◌∷◌, ◌++◌, length, replicate,
  arith, Text, codes, All, All-replicate, IsByte, In,
}
use cpmulator.Fcb.{
  Fcb, FcbFind, DirEntry, fields, from_bytes, as_bytes, from_string, get_file_name, does_match,
  get_sequential_offset, get_matches,
}
use cpmulator.Fcb.Codec.{IsValid, from_bytes-IsValid, from_bytes-total, from_bytes-as_bytes}
use cpmulator.Fcb.Offset.{IsPosition, advance, advance-offset}
use cpmulator.Fcb.Parse.{IsFileChar, block}
use cpmulator.Fcb.Names.{get_file_name-from_string}
use cpmulator.Fcb.Match.{Matches, does_match_iff}
use cpmulator.Fcb.Found.{Reported, get_matches_iff}

-- 36 bytes of question marks.
abbrev marks : List ℕ
marks = replicate 36 b'?'

abbrev pub any_block : Fcb
any_block = fields marks

any_block-IsValid : IsValid any_block
any_block-IsValid =
    from_bytes-IsValid marks (All-replicate IsByte 36 b'?' (omega arith))
      (from_bytes-total marks (omega arith))

from_bytes-as_bytes_example : from_bytes (as_bytes any_block) ≡ some any_block
from_bytes-as_bytes_example = from_bytes-as_bytes any_block any_block-IsValid

-- The last record of the first extent.
abbrev at_end : Fcb
at_end = record any_block { s2 = 0; ex = 31; cr = 127 }

advance-offset_example :
    IsPosition (advance 3 at_end)
    × (get_sequential_offset (advance 3 at_end) ≡ get_sequential_offset at_end + 3 * 128)
advance-offset_example =
    advance-offset 3 at_end (record { cr_in = omega arith; ex_in = omega arith }) (omega arith)

letter : (c : ℕ) → (65 ≤ c) × (c ≤ 90) → IsFileChar c
letter c h = record {
  visible = omega arith;
  ascii = omega arith;
  no_dot = omega arith;
  no_colon = omega arith;
  no_star = omega arith;
  upper = inl (omega arith);
}

abbrev name : Text
name = codes "FOO"

abbrev ext : Text
ext = codes "COM"

abbrev long : Text
long = replicate 9 b'A'

name_chars : All IsFileChar name
name_chars = (
  letter b'F' (omega arith, omega arith),
  (letter b'O' (omega arith, omega arith), (letter b'O' (omega arith, omega arith), tt)),
)

ext_chars : All IsFileChar ext
ext_chars = (
  letter b'C' (omega arith, omega arith),
  (letter b'O' (omega arith, omega arith), (letter b'M' (omega arith, omega arith), tt)),
)

long_chars : All IsFileChar long
long_chars = All-replicate IsFileChar 9 b'A' (letter b'A' (omega arith, omega arith))

get_file_name-from_string_example :
    (get_file_name (from_string name) ≡ name)
    × ((e : ℕ) (x : Text)
        → length x ≤ 2
        → All IsFileChar (e ∷ x)
        → get_file_name (from_string (name ++ b'.' ∷ e ∷ x)) ≡ name ++ b'.' ∷ e ∷ x)
get_file_name-from_string_example = get_file_name-from_string name (omega arith) name_chars

does_match_iff_example :
    ((does_match any_block name ≡ true)
      ↔ (Matches any_block.name (block name []).name × Matches any_block.type (block name []).type))
    × ((does_match any_block (name ++ b'.' ∷ ext) ≡ true) ↔ (
        Matches any_block.name (block name ext).name
        × Matches any_block.type (block name ext).type))
does_match_iff_example =
    does_match_iff any_block name ext any_block-IsValid (omega arith) (omega arith) name_chars
      ext_chars

abbrev files : List DirEntry
files =
    record { name = codes "foo.com"; is_dir = false }
    ∷ record { name = codes "SUB"; is_dir = true }
    ∷ []

get_matches_iff_example :
    (get_matches any_block (codes "A") none ≡ none)
    × ((res : List FcbFind)
        → get_matches any_block (codes "A") (some files) ≡ some res
        → (x : FcbFind) → In x res ↔ Reported any_block (codes "A") files x)
get_matches_iff_example = get_matches_iff any_block (codes "A") files
