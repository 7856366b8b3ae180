-- ===== src/Bdos/Random.antt =====
-- cpm/cpm_bdos.go: random records, and the size of a file in records.
pub mod Size
pub mod Access
pub mod Reads
use cpmulator.Base.{
  ℕ, zero, suc, ◌+◌, ◌*◌, ◌/◌, ◌%◌, ◌-◌, Bool, true, false, none, some, [], ◌∷◌, ◌++◌,
  if◌then◌else◌, length, take, drop, replicate, Text, ◌==◌, ltb, leb,
}
use cpmulator.FilePath.{join_path}
use cpmulator.Memory
use cpmulator.Fcb
use cpmulator.Fcb.{Fcb}
use cpmulator.Host
use cpmulator.Host.{Host, opened, not_exist, failed}
use cpmulator.Cpm.{
  Cpm, FileCache, Error, Result, Pairs, done, fails, set_hl, set_a, set_b, drive_path,
}
use cpmulator.Bdos.Console.{return_zero}
use cpmulator.Bdos.Block.{
  with_fcb, with_stored, cache_key, drive_letter, existing_name, static_path, read_static, sector,
  get_cache,
}

-- `R2<<16 | R1<<8 | R0`: the bytes do not overlap, so it is the sum.
abbrev pub random_record : Fcb → ℕ
random_record f = f.r2 * 65536 + f.r1 * 256 + f.r0

-- The three bytes of a number.
unfoldable pub set_random : ℕ → Fcb → Fcb
set_random n f = record f { r0 = n % 256; r1 = n / 256 % 256; r2 = n / 65536 % 256 }

-- H, L and B cleared, and a result in A.
abbrev pub return_result : ℕ → Cpm → Cpm
return_result res s = set_a res (set_b 0 (set_hl 0 0 s))

-- The second half of `sysRead`: the record at an offset goes to the DMA area.
unfoldable pub read_at : ℕ → ℕ → Cpm → (ℕ → Cpm → Result) → Result
unfolding sector
read_at fd offset s k = elim (Host.seek fd offset s.host) [
  | none ↦ k 0xff s
  | some h ↦ elim (Host.read fd 128 h) [
    | none ↦ k 0xff (record s { host = h })
    | some (bytes, h') ↦ with_stored s.dma (sector 128 bytes) (record s { host = h' }) (k 0)
  ]
]

-- `sysRead`, and the rest of the call. Where `Stat` fails, its result is nil, and the use panics.
unfoldable pub sys_read : ℕ → ℕ → Cpm → (ℕ → Cpm → Result) → Result
unfolding read_at
sys_read fd offset s k = elim (Host.stat_size fd s.host) [
  | none ↦ Result.panic
  | some size ↦ if ltb size offset then k 6 s else read_at fd offset s k
]

unfoldable pub read_rand_handle : ℕ → Fcb → ℕ → Cpm → Result
unfolding sys_read
read_rand_handle ptr f fd s =
    sys_read fd (random_record f * 128) s
      (λ res s'. with_stored ptr (Fcb.as_bytes f) s' (λ t. done (return_result res t)))

-- A record of an embedded file: what is missing of it is zeros here.
unfoldable pub read_rand_virtual : Fcb → FileCache → Cpm → Result
read_rand_virtual f obj s =
    with_stored s.dma (take 128 rest ++ replicate (128 - length rest) 0) s
      (λ t. done (return_result (if leb 128 (length rest) then 0 else 1) t))
  where
    file : Text
    file = elim (read_static (static_path obj.name s) s) [ none ↦ [] | some t ↦ t ]

    rest : Text
    rest = drop (random_record f * 128) file

unfoldable pub read_rand_cached : ℕ → Fcb → FileCache → Cpm → Result
unfolding read_rand_handle read_rand_virtual
read_rand_cached ptr f obj s = elim (obj.handle) [
  | none ↦ read_rand_virtual f obj s
  | some fd ↦ read_rand_handle ptr f fd s
]

unfoldable pub read_rand_block : ℕ → Fcb → Cpm → Result
unfolding read_rand_cached
read_rand_block ptr f s = elim (get_cache (cache_key f) s) [
  | none ↦ done (set_a 0xff s)
  | some obj ↦ read_rand_cached ptr f obj s
]

-- The loop that writes the padding, one zero at a time, and whether it has no error.
unfoldable pub pad_file : ℕ → ℕ → Host → Host × Bool
pad_file zero fd h = (h, true)
pad_file (suc n) fd h = elim (Host.write fd (0 ∷ []) h) [
  | none ↦ (h, false)
  | some h' ↦ pad_file n fd h'
]

-- What comes after the padding of a random write.
unfoldable pub write_at : ℕ → Fcb → ℕ → Cpm → Result
write_at ptr f fd s = elim (Host.seek fd (random_record f * 128) s.host) [
  | none ↦ fails Error.other s
  | some h ↦ elim (Host.write fd (Memory.get_range s.memory s.dma 128) h) [
    | none ↦ fails Error.other (record s { host = h })
    | some h' ↦
        with_stored ptr (Fcb.as_bytes (Fcb.increase_sequential_offset f)) (record s { host = h' })
          (λ t. done (return_zero t))
  ]
]

unfoldable pub write_rand_handle : ℕ → Fcb → ℕ → Cpm → Result
unfolding pad_file write_at
write_rand_handle ptr f fd s = elim (Host.stat_size fd s.host) [
  | none ↦ fails Error.other s
  | some size ↦
      let (h, fine) = pad_file (random_record f * 128 - size) fd s.host in
      if fine
      then write_at ptr f fd (record s { host = h })
      else fails Error.other (record s { host = h })
]

unfoldable pub write_rand_cached : ℕ → Fcb → FileCache → Cpm → Result
unfolding write_rand_handle
write_rand_cached ptr f obj s = elim (obj.handle) [
  | none ↦ fails Error.other s
  | some fd ↦ write_rand_handle ptr f fd s
]

unfoldable pub write_rand_block : ℕ → Fcb → Cpm → Result
unfolding write_rand_cached
write_rand_block ptr f s = elim (get_cache (cache_key f) s) [
  | none ↦ done (set_a 0xff s)
  | some obj ↦ write_rand_cached ptr f obj s
]

-- The number of records of a file: rounded up, and capped.
unfoldable pub size_in_records : ℕ → ℕ
size_in_records size =
    let records : ℕ = size / 128 + (if size % 128 == 0 then 0 else 1) in
    if leb 65536 records then 65536 else records

-- A number goes into the random record of the block, with the check that it is read back.
unfoldable pub store_random : ℕ → Fcb → ℕ → Cpm → Result
unfolding set_random
store_random ptr f n s =
    if random_record (set_random n f) == n
    then with_stored ptr (Fcb.as_bytes (set_random n f)) s (λ t. done (set_a 0 t))
    else fails Error.other s

-- The name on the host of the file that a block names, on the current drive whatever the block says.
abbrev pub current_name : Fcb → Cpm → Text
current_name f s =
    let path = drive_path s (drive_letter s) in
    join_path path (existing_name path (Fcb.get_file_name f) s.host)

-- A deferred `Close`, whose error is ignored.
abbrev pub close_quietly : ℕ → Host → Host
close_quietly fd h = Host.closed fd h

unfoldable pub file_size_host : ℕ → Fcb → Text → Cpm → Result
unfolding store_random size_in_records
file_size_host ptr f name s = elim (Host.open_file name s.host) [
  | opened fd h ↦ elim (Host.stat_size fd h) [
    | none ↦ fails Error.other (record s { host = close_quietly fd h })
    | some size ↦ store_random ptr f (size_in_records size) (record s { host = close_quietly fd h })
  ]
  | not_exist ↦ fails Error.other s
  | failed ↦ fails Error.other s
]

unfoldable pub file_size_block : ℕ → Fcb → Cpm → Result
unfolding file_size_host
file_size_block ptr f s = elim (read_static (static_path (current_name f s) s) s) [
  | none ↦ file_size_host ptr f (current_name f s) s
  | some virt ↦ store_random ptr f (size_in_records (length virt)) s
]

unfoldable pub rand_record_block : ℕ → Fcb → Cpm → Result
unfolding store_random
rand_record_block ptr f s = store_random ptr f (Fcb.get_sequential_offset f) s

module _ (pairs : Pairs) where
  open pairs use {to_u16}

  unfoldable pub read_rand : Cpm → Result
  unfolding read_rand_block
  read_rand s = with_fcb (to_u16 s.cpu.de) s (λ f. read_rand_block (to_u16 s.cpu.de) f s)

  unfoldable pub write_rand : Cpm → Result
  unfolding write_rand_block
  write_rand s = with_fcb (to_u16 s.cpu.de) s (λ f. write_rand_block (to_u16 s.cpu.de) f s)

  unfoldable pub file_size : Cpm → Result
  unfolding file_size_block
  file_size s = with_fcb (to_u16 s.cpu.de) s (λ f. file_size_block (to_u16 s.cpu.de) f s)

  unfoldable pub rand_record : Cpm → Result
  unfolding rand_record_block
  rand_record s = with_fcb (to_u16 s.cpu.de) s (λ f. rand_record_block (to_u16 s.cpu.de) f s)
