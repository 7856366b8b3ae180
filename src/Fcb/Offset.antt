-- ===== src/Fcb/Offset.antt =====
-- fcb/fcb.go, `GetSequentialOffset` and `IncreaseSequentialOffset`: the position of the next record.
use cpmulator.Base.{ℕ, zero, suc, ◌+◌, ◌*◌, ◌%◌, ◌≤◌, ◌<◌, ◌≡◌, ◌∙◌, arith}
use cpmulator.Fcb.{Fcb, get_sequential_offset, increase_sequential_offset}

-- The record counter and the extent are in the range that the carries leave them in.
pub record IsPosition (f : Fcb) : Type 0 where
  pub cr_in : f.cr ≤ 128
  pub ex_in : f.ex ≤ 31

-- The number of the record that a position stands for.
abbrev pub record_number : Fcb → ℕ
record_number f = (f.s2 % 16) * 4096 + f.ex * 128 + f.cr

-- The offset is that of the record, in records of 128 bytes.
pub get_sequential_offset_lem : (f : Fcb) → get_sequential_offset f ≡ record_number f * 128
unfolding get_sequential_offset
get_sequential_offset_lem f = omega arith

pub increase-IsPosition : (f : Fcb) → IsPosition f → IsPosition (increase_sequential_offset f)
unfolding increase_sequential_offset
increase-IsPosition f v = ground arith

-- Below the last record, the carries of the three counters make the next position.
pub record_number-increase :
    (f : Fcb)
    → IsPosition f
    → record_number f < 65536
    → record_number (increase_sequential_offset f) ≡ record_number f + 1
unfolding increase_sequential_offset
record_number-increase f v h = ground arith

-- Only the counters and the flags in `S2` change.
pub increase_keeps :
    (f : Fcb)
    → let g = increase_sequential_offset f in
      (g.name ≡ f.name) × (g.type ≡ f.type) × (g.drive ≡ f.drive) × (g.al ≡ f.al) × (g.rc ≡ f.rc)
unfolding increase_sequential_offset
increase_keeps f = ground arith

-- `n` sequential reads or writes move the position on `n` times.
unfoldable pub advance : ℕ → Fcb → Fcb
advance zero f = f
advance (suc n) f = advance n (increase_sequential_offset f)

pub advance-IsPosition : (n : ℕ) (f : Fcb) → IsPosition f → IsPosition (advance n f)
unfolding advance
advance-IsPosition zero f v = v
advance-IsPosition (suc n) f v =
    advance-IsPosition n (increase_sequential_offset f) (increase-IsPosition f v)

record_number-advance :
    (n : ℕ) (f : Fcb)
    → IsPosition f
    → record_number f + n ≤ 65536
    → record_number (advance n f) ≡ record_number f + n
unfolding advance
record_number-advance zero f v h = omega arith
record_number-advance (suc n) f v h =
    let step = record_number-increase f v (omega arith) in
    record_number-advance n (increase_sequential_offset f) (increase-IsPosition f v) (omega arith)
    ∙ omega arith

-- From a position in range, `n` steps that stay within the 65536 records of a file move the offset
-- by exactly `n` records of 128 bytes, and leave the position in range.
pub advance-offset :
    (n : ℕ) (f : Fcb)
    → IsPosition f
    → record_number f + n ≤ 65536
    → IsPosition (advance n f)
      × (get_sequential_offset (advance n f) ≡ get_sequential_offset f + n * 128)
advance-offset n f v h = (
  advance-IsPosition n f v,
  omega (
    arith,
    get_sequential_offset_lem f,
    get_sequential_offset_lem (advance n f),
    record_number-advance n f v h,
  ),
)
