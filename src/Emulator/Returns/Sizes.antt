-- ===== src/Emulator/Returns/Sizes.antt =====
-- fcb/fcb.go: the sizes of the arrays of a block, as the calls change it.
use cpmulator.Base.{ℕ, ◌∙◌, ap, List, length, set, drop, replicate, length-set}
use cpmulator.Fcb.{Fcb, fields, increase_sequential_offset}
use cpmulator.Fcb.Codec.{length-copy_into}
use cpmulator.Fcb.Offset.{increase_keeps}
use cpmulator.Fcb.Sized.{IsSized}
use cpmulator.Bdos.Files.{after_write}

pub fields-IsSized : (bs : List ℕ) → IsSized (fields bs)
unfolding fields
fields-IsSized bs = record {
  name_size = length-copy_into (replicate 8 0) (drop 1 bs);
  type_size = length-copy_into (replicate 3 0) (drop 9 bs);
  al_size = length-copy_into (replicate 16 0) (drop 16 bs);
}

pub increase-IsSized : (f : Fcb) → IsSized f → IsSized (increase_sequential_offset f)
increase-IsSized f v =
    let (name, type, drive, al, rc) = increase_keeps f in
    record {
      name_size = ap length name ∙ v.name_size;
      type_size = ap length type ∙ v.type_size;
      al_size = ap length al ∙ v.al_size;
    }

-- The counters, and the bytes of the allocation map, may be set to any.
pub counters-IsSized :
    (f : Fcb) (rc r0 r1 r2 : ℕ)
    → IsSized f
    → IsSized (record f { rc = rc; r0 = r0; r1 = r1; r2 = r2 })
counters-IsSized f rc r0 r1 r2 v = record {
  name_size = v.name_size;
  type_size = v.type_size;
  al_size = v.al_size;
}

pub al-IsSized :
    (f : Fcb) (rc a b : ℕ) → IsSized f → IsSized (record f { rc = rc; al = set (set f.al 0 a) 1 b })
al-IsSized f rc a b v = record {
  name_size = v.name_size;
  type_size = v.type_size;
  al_size = length-set (set f.al 0 a) 1 b ∙ length-set f.al 0 a ∙ v.al_size;
}

pub after_write-IsSized : (f : Fcb) → IsSized f → IsSized (after_write f)
after_write-IsSized f v =
    let g = increase-IsSized f v in
    record { name_size = g.name_size; type_size = g.type_size; al_size = g.al_size }
