-- ===== src/Fcb.antt =====
-- fcb/fcb.go: the file control block.
pub mod Codec
pub mod Sized
pub mod Counters
pub mod Offset
pub mod Parse
pub mod Names
pub mod Match
pub mod Found
use cpmulator.Base.{
  ℕ, zero, suc, ◌+◌, ◌-◌, ◌*◌, ◌%◌, Bool, true, false, ◌&&◌, ◌||◌, not, Option, none, some, List,
  [], ◌∷◌, ◌++◌, ltb, leb, ◌==◌, if◌then◌else◌, length, get_or, take, drop, replicate, u8, Text,
  text_eq,
}
use cpmulator.Text.{to_upper, utf8, is_print, split, trim_space}
use cpmulator.FilePath.{join_path}

pub record Fcb : Type 0 where
  pub drive : ℕ
  pub name : List ℕ
  pub type : List ℕ
  pub ex : ℕ
  pub s1 : ℕ
  pub s2 : ℕ
  pub rc : ℕ
  pub al : List ℕ
  pub cr : ℕ
  pub r0 : ℕ
  pub r1 : ℕ
  pub r2 : ℕ

-- `SIZE`
abbrev pub fcb_size : ℕ
fcb_size = 36

pub record FcbFind : Type 0 where
  pub host : Text
  pub name : Text

-- The loop of `GetName`.
unfoldable pub name_text : List ℕ → Text
unfolding utf8
name_text [] = []
name_text (c ∷ cs) = (if c == 0 then [] else utf8 c) ++ name_text cs

unfoldable pub get_name : Fcb → Text
unfolding name_text trim_space
get_name f = trim_space (name_text f.name)

-- The loop of `GetType`.
unfoldable pub type_text : List ℕ → Text
unfolding utf8 is_print
type_text [] = []
type_text (c ∷ cs) = (if is_print c then utf8 c else 32 ∷ []) ++ type_text cs

unfoldable pub get_type : Fcb → Text
unfolding type_text
get_type f = type_text f.type

unfoldable pub get_file_name : Fcb → Text
unfolding get_name get_type trim_space
get_file_name f = trim_space (if has_suffix then get_name f ++ b'.' ∷ get_type f else get_name f)
  where
    has_suffix : Bool
    has_suffix = not (text_eq (get_type f) []) && not (text_eq (get_type f) (32 ∷ 32 ∷ 32 ∷ []))

unfoldable pub as_bytes : Fcb → List ℕ
as_bytes f =
    f.drive
    ∷ (f.name
        ++ (f.type ++ (f.ex ∷ f.s1 ∷ f.s2 ∷ f.rc ∷ (f.al ++ (f.cr ∷ f.r0 ∷ f.r1 ∷ f.r2 ∷ [])))))

-- The offset of the next sequential record; `S2 & 15`, with `BlkS2 = 4096`, `BlkEx = 128`.
unfoldable pub get_sequential_offset : Fcb → ℕ
get_sequential_offset f = (f.s2 % 16) * 4096 * 128 + f.ex * 128 * 128 + f.cr * 128

-- `S2 &= 0x7F; Cr++` and the carry out of `Cr`, with `MaxCR = 128`.
unfoldable pub increase_cr : Fcb → Fcb
increase_cr f =
    if ltb 128 (u8 (f.cr + 1))
    then record f { s2 = f.s2 % 128; cr = 1; ex = u8 (f.ex + 1) }
    else record f { s2 = f.s2 % 128; cr = u8 (f.cr + 1) }

-- The carry out of `Ex`, with `MaxEX = 31`.
unfoldable pub carry_ex : Fcb → Fcb
carry_ex f = if ltb 31 f.ex then record f { ex = 0; s2 = u8 (f.s2 + 1) } else f

unfoldable pub increase_sequential_offset : Fcb → Fcb
unfolding increase_cr carry_ex
increase_sequential_offset f = carry_ex (increase_cr f)

-- `for len(name) < n { name += " " }`
unfoldable pub pad : ℕ → Text → Text
pad zero s = s
pad (suc n) [] = 32 ∷ pad n []
pad (suc n) (c ∷ s) = c ∷ pad n s

-- The loop that changes "*" to question marks and stops there.
unfoldable pub expand : Text → Text → Text
expand marks [] = []
expand marks (c ∷ s) = if c == b'*' then marks else c ∷ expand marks s

-- `copy(dst, src)`: as much as fits.
unfoldable pub copy_into : List ℕ → List ℕ → List ℕ
copy_into dst src = take (length dst) src ++ drop (length src) dst

-- `FCB{}`
abbrev pub zero_fcb : Fcb
zero_fcb = record {
  drive = 0;
  name = replicate 8 0;
  type = replicate 3 0;
  ex = 0;
  s1 = 0;
  s2 = 0;
  rc = 0;
  al = replicate 16 0;
  cr = 0;
  r0 = 0;
  r1 = 0;
  r2 = 0;
}

-- The test for a drive prefix and what it finds: the drive, and the rest of the text.
unfoldable pub drive_prefix : Text → ℕ × Text
drive_prefix (d ∷ c ∷ x ∷ s) =
    if c == b':' then (u8 (d + 256 - b'A'), x ∷ s) else (0, d ∷ c ∷ x ∷ s)
drive_prefix s = (0, s)

-- The name and the suffix by the number of parts.
unfoldable pub from_parts : Fcb → Text × List Text → Fcb
unfolding pad expand copy_into
from_parts f (name, []) = record f {
  name = copy_into f.name (expand (replicate 9 b'?') (pad 8 name));
}
from_parts f (name, ext ∷ []) = record f {
  name = copy_into f.name (expand (replicate 9 b'?') (pad 8 name));
  type = copy_into f.type (expand (replicate 3 b'?') (pad 3 ext));
}
from_parts f (name, ext ∷ other ∷ more) = f

unfoldable pub from_string : Text → Fcb
unfolding from_parts drive_prefix split to_upper
from_string str =
    let (drive, rest) = drive_prefix (to_upper str) in
    from_parts
      (record zero_fcb { drive = drive; type = copy_into (replicate 3 0) (replicate 3 32) })
      (split b'.' rest)

-- The control block that `FromBytes` reads out of 36 bytes.
unfoldable pub fields : List ℕ → Fcb
unfolding copy_into
fields bytes = record {
  drive = get_or bytes 0 0;
  name = copy_into (replicate 8 0) (drop 1 bytes);
  type = copy_into (replicate 3 0) (drop 9 bytes);
  ex = get_or bytes 12 0;
  s1 = get_or bytes 13 0;
  s2 = get_or bytes 14 0;
  rc = get_or bytes 15 0;
  al = copy_into (replicate 16 0) (drop 16 bytes);
  cr = get_or bytes 32 0;
  r0 = get_or bytes 33 0;
  r1 = get_or bytes 34 0;
  r2 = get_or bytes 35 0;
}

-- `none` is the panic of an index out of range, which fewer than 36 bytes cause.
unfoldable pub from_bytes : List ℕ → Option Fcb
unfolding fields
from_bytes bytes = if leb 36 (length bytes) then some (fields bytes) else none

-- The loops of `DoesMatch`: byte by byte, "?" in the pattern fits anything.
unfoldable pub bytes_match : List ℕ → List ℕ → Bool
bytes_match [] actual = true
bytes_match (c ∷ pattern) [] = true
bytes_match (c ∷ pattern) (a ∷ actual) = (a == c || c == b'?') && bytes_match pattern actual

-- "filename is over 8 characters" or "suffix is over 3 characters", of a name in two parts.
unfoldable pub too_long : Text × List Text → Bool
too_long (name, ext ∷ []) = ltb 8 (length name) || ltb 3 (length ext)
too_long (name, parts) = false

unfoldable pub does_match : Fcb → Text → Bool
unfolding too_long bytes_match from_string split
does_match f name =
    if too_long (split b'.' name)
    then false
    else bytes_match f.name (from_string name).name && bytes_match f.type (from_string name).type

-- An entry of a directory of the host: its name, and whether it is a directory itself.
pub record DirEntry : Type 0 where
  pub name : Text
  pub is_dir : Bool

-- The loop of `GetMatches` over the entries of the directory `prefix`.
unfoldable pub matches_in : Fcb → Text → List DirEntry → List FcbFind
unfolding does_match join_path to_upper
matches_in f prefix [] = []
matches_in f prefix (file ∷ files) =
    let rest = matches_in f prefix files in
    if file.is_dir
    then rest
    else if does_match f (to_upper file.name)
    then record { host = join_path prefix file.name; name = to_upper file.name } ∷ rest
    else rest

-- `none` is an error of `os.ReadDir`, whose answer is the argument.
unfoldable pub get_matches : Fcb → Text → Option (List DirEntry) → Option (List FcbFind)
unfolding matches_in
get_matches f prefix none = none
get_matches f prefix (some files) = some (matches_in f prefix files)
