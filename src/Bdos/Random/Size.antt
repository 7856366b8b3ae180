-- ===== src/Bdos/Random/Size.antt =====
-- cpm/cpm_bdos.go, `BdosSysCallFileSize` and `BdosSysCallRandRecord`: the number in the random record.
use cpmulator.Base.{ℕ, ◌+◌, ◌*◌, ◌/◌, ◌≤◌, ◌<◌, min, ◌≡◌, ◌∙◌, arith, eq_refl}
use cpmulator.Memory
use cpmulator.Fcb.{Fcb, as_bytes, get_sequential_offset}
use cpmulator.Fcb.Codec.{IsValid, length-as_bytes}
use cpmulator.Fcb.Offset.{record_number, get_sequential_offset_lem}
use cpmulator.Cpm.{Cpm, done, set_a}
use cpmulator.Bdos.Records.{with_stored-fits}
use cpmulator.Bdos.Random.{
  random_record, set_random, size_in_records, store_random, rand_record_block,
}

random_record-set_random : (n : ℕ) (f : Fcb) → n < 16777216 → random_record (set_random n f) ≡ n
unfolding set_random
random_record-set_random n f h = omega arith

set_random-IsValid : (n : ℕ) (f : Fcb) → IsValid f → IsValid (set_random n f)
unfolding set_random
set_random-IsValid n f v = record {
  name_size = v.name_size;
  type_size = v.type_size;
  al_size = v.al_size;
  name_bytes = v.name_bytes;
  type_bytes = v.type_bytes;
  al_bytes = v.al_bytes;
  drive_byte = v.drive_byte;
  ex_byte = v.ex_byte;
  s1_byte = v.s1_byte;
  s2_byte = v.s2_byte;
  rc_byte = v.rc_byte;
  cr_byte = v.cr_byte;
  r0_byte = omega arith;
  r1_byte = omega arith;
  r2_byte = omega arith;
}

size_in_records_lem : (size : ℕ) → size_in_records size ≡ min 65536 ((size + 127) / 128)
unfolding size_in_records
size_in_records_lem size = ground arith

-- The state after a number has gone into the random record of the block.
abbrev pub with_random : ℕ → Fcb → ℕ → Cpm → Cpm
with_random ptr f n s =
    set_a 0 (record s { memory = Memory.copy_at s.memory ptr (as_bytes (set_random n f)) })

store_random_lem :
    (ptr : ℕ) (f : Fcb) (n : ℕ) (s : Cpm)
    → IsValid f
    → n < 16777216
    → ptr + 36 ≤ 65536
    → store_random ptr f n s ≡ done (with_random ptr f n s)
unfolding store_random
store_random_lem ptr f n s v h k =
    rw (random_record-set_random n f h, eq_refl n)
      (with_stored-fits ptr (as_bytes (set_random n f)) s (λ t. done (set_a 0 t))
        (omega (arith, length-as_bytes (set_random n f) (set_random-IsValid n f v))))

-- The size of a file goes into the random record of its block as the number of its records, rounded
-- up and at most 65536, and no error is returned. The block is of bytes and lies within the RAM.
pub store_random-size_in_records :
    (ptr : ℕ) (f : Fcb) (size : ℕ) (s : Cpm)
    → IsValid f
    → ptr + 36 ≤ 65536
    → (store_random ptr f (size_in_records size) s
        ≡ done (with_random ptr f (size_in_records size) s))
      × (random_record (set_random (size_in_records size) f) ≡ min 65536 ((size + 127) / 128))
store_random-size_in_records ptr f size s v k =
    let e = size_in_records_lem size in
    let small : size_in_records size < 16777216 = omega (arith, e) in
    (
      store_random_lem ptr f (size_in_records size) s v small k,
      random_record-set_random _ f small ∙ e,
    )

-- For a block of bytes within the RAM the call never returns its error. The random record is set to the
-- offset of the next sequential record in bytes, which is 128 times the number of the record.
pub rand_record_block_lem :
    (ptr : ℕ) (f : Fcb) (s : Cpm)
    → IsValid f
    → ptr + 36 ≤ 65536
    → (rand_record_block ptr f s ≡ done (with_random ptr f (get_sequential_offset f) s))
      × (random_record (set_random (get_sequential_offset f) f) ≡ record_number f * 128)
unfolding rand_record_block
rand_record_block_lem ptr f s v k =
    let e = get_sequential_offset_lem f in
    let small : get_sequential_offset f < 16777216 =
      omega (arith, e, v.s2_byte, v.ex_byte, v.cr_byte) in
    (
      store_random_lem ptr f (get_sequential_offset f) s v small k,
      random_record-set_random (get_sequential_offset f) f small ∙ e,
    )
