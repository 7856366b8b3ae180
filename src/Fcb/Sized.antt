-- ===== src/Fcb/Sized.antt =====
-- fcb/fcb.go: the sizes of the arrays of a block that `FromString` makes.
use cpmulator.Base.{◌≡◌, ◌∙◌, refl, List, [], ◌∷◌, Text, arith, length, replicate, length-append}
use cpmulator.Text.{split, to_upper}
use cpmulator.Fcb.{Fcb, as_bytes, from_string, from_parts, drive_prefix, zero_fcb, copy_into}
use cpmulator.Fcb.Codec.{length-copy_into}

-- The arrays of a block have their sizes.
pub record IsSized (f : Fcb) : Type 0 where
  pub name_size : length f.name ≡ 8
  pub type_size : length f.type ≡ 3
  pub al_size : length f.al ≡ 16

pub length-sized : (f : Fcb) → IsSized f → length (as_bytes f) ≡ 36
unfolding as_bytes
length-sized f v = omega (arith, v.name_size, v.type_size, v.al_size, length-append {0})

from_parts-IsSized : (f : Fcb) (p : Text × List Text) → IsSized f → IsSized (from_parts f p)
unfolding from_parts
from_parts-IsSized f (name, []) v = record {
  name_size = length-copy_into f.name _ ∙ v.name_size;
  type_size = v.type_size;
  al_size = v.al_size;
}
from_parts-IsSized f (name, ext ∷ []) v = record {
  name_size = length-copy_into f.name _ ∙ v.name_size;
  type_size = length-copy_into f.type _ ∙ v.type_size;
  al_size = v.al_size;
}
from_parts-IsSized f (name, ext ∷ other ∷ more) v = v

pub from_string-IsSized : (str : Text) → IsSized (from_string str)
unfolding from_string copy_into
from_string-IsSized str =
    let prefix = drive_prefix (to_upper str) in
    from_parts-IsSized
      (record zero_fcb { drive = prefix.0; type = copy_into (replicate 3 0) (replicate 3 32) })
      (split b'.' prefix.1) (record { name_size = refl; type_size = refl; al_size = refl })
