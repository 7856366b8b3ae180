-- ===== src/Tests/Calls.antt =====
-- cpm/cpm_bdos.go at a concrete state: random records, drives, searches and strings.
use cpmulator.Base.{
  ℕ, suc, ◌+◌, ◌*◌, ◌/◌, ◌%◌, ◌≤◌, ◌<◌, min, ◌≡◌, ◌≢◌, refl, inr, List, [], ◌∷◌, ◌++◌, length, take,
  drop, bit_or, arith, Text, codes, All,
}
use cpmulator.Memory
use cpmulator.Memory.{get, get_range}
use cpmulator.Fcb.{FcbFind, get_sequential_offset}
use cpmulator.Fcb.Offset.{record_number}
use cpmulator.Host
use cpmulator.Host.{content}
use cpmulator.ConsoleIn.Line.{Action}
use cpmulator.Cpm.{user_drive, Cpm, Result, Pairs, done}
use cpmulator.Bdos.Console.{return_zero, write_string, read_string}
use cpmulator.Bdos.Records.{dma_record}
use cpmulator.Bdos.Random.{
  random_record, set_random, rand_record_block, read_rand_block, write_rand_block,
}
use cpmulator.Bdos.Random.Size.{with_random, rand_record_block_lem}
use cpmulator.Bdos.Random.Access.{random_offset, Wrote, write_rand_block-Wrote}
use cpmulator.Bdos.Random.Reads.{
  random_sector, after_read, after_missing, read_rand_block_delivers,
  read_rand_block-write_rand_block,
}
use cpmulator.Bdos.Drives.{drive_set, drive_all_reset, user_number}
use cpmulator.Bdos.Drives.InStep.{IsInStep, drives-IsInStep}
use cpmulator.Bdos.Strings.{put_all, write_string_lem, Leaves, read_string-Leaves}
use cpmulator.Bdos.Stream.{Stands, times, read-times}
use cpmulator.Bdos.Files.{read}
use cpmulator.Bdos.Sequential.{end_flag}
use cpmulator.Bdos.Block.{sector}
use cpmulator.Fcb.{fields, as_bytes}
use cpmulator.Tests.Disk.{f, f-IsValid, path, o, host, s, ready}

rand_record_block_lem_example :
    (rand_record_block 0x5c f s ≡ done (with_random 0x5c f (get_sequential_offset f) s))
    × (random_record (set_random (get_sequential_offset f) f) ≡ record_number f * 128)
rand_record_block_lem_example = rand_record_block_lem 0x5c f s f-IsValid (omega arith)

write_rand_block-Wrote_example : (t : Cpm) × Wrote 0x5c f 7 path o s t
write_rand_block-Wrote_example = write_rand_block-Wrote 0x5c f 7 path o s ready (omega arith)

read_rand_block_delivers_example :
    (random_offset f ≤ length (content host 1)
      → let t = after_read 0x5c f 7 o s in
        (read_rand_block 0x5c f s ≡ done t)
        × (dma_record t ≡ random_sector f o host)
        × (t.cpu.af.hi ≡ 0))
    × (length (content host 1) < random_offset f
        → let t = after_missing 0x5c f s in
          (read_rand_block 0x5c f s ≡ done t) × (dma_record t ≡ dma_record s) × (t.cpu.af.hi ≡ 6))
read_rand_block_delivers_example = read_rand_block_delivers 0x5c f 7 path o s ready

read_rand_block-write_rand_block_example :
    (t : Cpm) × (u : Cpm) × (write_rand_block 0x5c f s ≡ done t)
    × (read_rand_block 0x5c f t ≡ done u)
    × (dma_record u ≡ dma_record s)
    × (u.cpu.af.hi ≡ 0)
read_rand_block-write_rand_block_example =
    read_rand_block-write_rand_block 0x5c f 7 path o s ready (omega arith)

in_step : IsInStep s
unfolding user_drive get
in_step = record { drive_in = omega arith; user_in = omega arith; told = refl }

drives-IsInStep_example :
    ((t : Cpm) × (drive_set s ≡ done t) × IsInStep t × (t.current_drive ≡ min s.cpu.af.hi 15))
    × ((t : Cpm) × (drive_all_reset s ≡ done t)
        × IsInStep t
        × (t.current_drive ≡ 0)
        × (t.user_number ≡ s.user_number)
        × (t.dma ≡ 0x80))
    × ((t : Cpm) × (user_number s ≡ done t)
        × IsInStep t
        × (s.cpu.de.lo ≢ 0xff → t.user_number ≡ s.cpu.de.lo % 16)
        × (t.cpu.af.hi ≡ t.user_number))
drives-IsInStep_example = drives-IsInStep s in_step

-- One result or none is in order.
abbrev pub as_it_is : List FcbFind → List FcbFind
as_it_is xs = xs

abbrev pub pairs : Pairs
pairs = record {
  to_u16 = λ r. r.hi * 256 + r.lo;
  of_u16 = λ n. record { hi = n / 256 % 256; lo = n % 256 };
  to_u16_lem = λ r h k. refl;
}

abbrev greeting : Text
greeting = codes "Hi"

-- The string stands where DE points.
abbrev spoken : Cpm
spoken = record s { memory = Memory.copy_at s.memory 0x5c (greeting ++ b'$' ∷ []) }

write_string_lem_example :
    (length greeting < 65536
      → get_range spoken.memory 0x5c (suc (length greeting)) ≡ greeting ++ b'$' ∷ []
      → All (λ c. c ≢ b'$') greeting
      → write_string pairs spoken
        ≡ done (return_zero (record spoken { output = put_all greeting spoken.output })))
    × (((a : ℕ) → get spoken.memory a ≢ b'$') → write_string pairs spoken ≡ Result.hang)
write_string_lem_example = write_string_lem pairs spoken greeting

-- What a command of the host prints.
abbrev pub prints : Action → Text
prints a = codes "ok"

-- A buffer for 20 characters where DE points, and a line typed.
abbrev asking : Cpm
asking = record s {
  memory = Memory.copy_at s.memory 0x5c (20 ∷ []);
  input = record (s.input) { stuffed = codes "dir" ++ 13 ∷ [] };
}

read_string-Leaves_example : Leaves asking.memory 0x80 (read_string pairs prints asking)
unfolding get Memory.copy_at Memory.set
read_string-Leaves_example =
    read_string-Leaves pairs prints asking 0x80 (omega arith) (omega arith) (omega arith)
      (inr (omega arith))

pub stands : Stands pairs 7 path f o s
unfolding fields as_bytes get_range get
stands = record { ready = ready; block = refl }

read-times_example :
    let bytes = take 128 (drop (get_sequential_offset f + 2 * 128) (content host 1)) in
    (t : Cpm) × (u : Cpm) × (times 2 (read pairs) s ≡ done t)
    × (read pairs t ≡ done u)
    × (dma_record u ≡ sector 128 bytes)
    × (u.cpu.af.hi ≡ end_flag bytes)
unfolding fields
read-times_example =
    read-times pairs 7 path 2 f o s stands (record { cr_in = omega arith; ex_in = omega arith })
      (omega arith)

-- Bit 6 of the flags.
abbrev pub set_z : ℕ → ℕ
set_z lo = bit_or lo 64

abbrev pub reset_z : ℕ → ℕ
reset_z lo = lo / 128 * 128 + lo % 64
