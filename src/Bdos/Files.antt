-- ===== src/Bdos/Files.antt =====
-- cpm/cpm_bdos.go: opening, making and closing files, and their sequential records.
pub mod Opened
pub mod Made
use cpmulator.Base.{
  ℕ, ◌+◌, ◌*◌, ◌/◌, ◌%◌, Option, none, some, [], if◌then◌else◌, length, drop, set, Text, text_eq,
  ◌==◌, ltb, leb, u8,
}
use cpmulator.Text.{contains}
use cpmulator.FilePath.{join_path}
use cpmulator.Memory
use cpmulator.Fcb
use cpmulator.Fcb.{Fcb}
use cpmulator.Host
use cpmulator.Host.{Host, opened, not_exist, failed}
use cpmulator.Assoc.{store, erase}
use cpmulator.Cpm.{
  Cpm, FileCache, Error, Result, Pairs, done, fails, set_hl, set_a, set_b, drive_path,
}
use cpmulator.Bdos.Console.{return_zero}
use cpmulator.Bdos.Block.{
  with_fcb, with_stored, cache_key, set_key, record_count, block_letter, existing_name, static_path,
  read_static, sector, get_cache,
}

-- "No filename?  That's an error"
abbrev pub no_name : Cpm → Result
no_name s = done (set_b 0 (set_hl 0 0xff (set_a 0xff s)))

abbrev pub add_cache : ℕ → FileCache → Cpm → Cpm
add_cache ptr c s = record s { files = store ◌==◌ ptr c s.files }

-- The end of opening a file of the host, or of making one: its size and the key go into the block.
unfoldable pub opened_file : ℕ → Fcb → Text → ℕ → Cpm → Result
unfolding record_count Host.stat_size
opened_file ptr f name fd s = elim (Host.stat_size fd s.host) [
  | none ↦ fails Error.other s
  | some size ↦
      with_stored ptr (Fcb.as_bytes (set_key ptr (record f { rc = record_count size }))) s
        (λ s'. done (return_zero s'))
]

unfoldable pub open_virtual : ℕ → Fcb → Text → Text → Cpm → Result
unfolding record_count
open_virtual ptr f name virt s =
    with_stored ptr (Fcb.as_bytes (set_key ptr (record f { rc = record_count (length virt) })))
      (add_cache ptr (record { name = name; handle = none }) s) (λ s'. done (set_a 0 s'))

unfoldable pub open_host : ℕ → Fcb → Text → Cpm → Result
unfolding opened_file
open_host ptr f name s = elim (Host.open_file name s.host) [
  | opened fd h ↦
      opened_file ptr f name fd
        (add_cache ptr (record { name = name; handle = some fd }) (record s { host = h }))
  | not_exist ↦ done (set_a 0xff s)
  | failed ↦ fails Error.other s
]

-- The name on the host of the file that a block names, `filepath.Join(path, fileName)`.
abbrev pub host_name : Fcb → Cpm → Text
host_name f s =
    let path = drive_path s (block_letter f s) in
    join_path path (existing_name path (Fcb.get_file_name f) s.host)

unfoldable pub open_block : ℕ → Fcb → Cpm → Result
unfolding open_virtual open_host
open_block ptr f s =
    if text_eq (Fcb.get_file_name f) []
    then no_name s
    else (elim (read_static (static_path (host_name f s) s) s) [
      | none ↦ open_host ptr f (host_name f s) s
      | some virt ↦ open_virtual ptr f (host_name f s) virt s
    ])

-- The end of making a file: it is cached, and its size and the key go into the block.
unfoldable pub made_file : ℕ → Fcb → Text → ℕ → Cpm → Result
unfolding record_count Host.stat_size
made_file ptr f name fd s = elim (Host.stat_size fd s.host) [
  | none ↦ fails Error.other s
  | some size ↦
      with_stored ptr (Fcb.as_bytes (set_key ptr (record f { rc = record_count size })))
        (add_cache ptr (record { name = name; handle = some fd }) s) (λ t. done (return_zero t))
]

unfoldable pub make_block : ℕ → Fcb → Cpm → Result
unfolding made_file
make_block ptr f s =
    if text_eq (Fcb.get_file_name f) []
    then no_name s
    else (elim (Host.create_file (host_name f s) s.host) [
      | opened fd h ↦ made_file ptr f (host_name f s) fd (record s { host = h })
      | not_exist ↦ fails Error.other s
      | failed ↦ fails Error.other s
    ])

-- The size that a file with "$" in its name is cut to on close, from its size on the host.
unfoldable pub cut_size : Fcb → ℕ → Option ℕ
cut_size f size =
    let extent : ℕ = f.ex * 32 + f.s2 % 64 in
    if size / 16384 == extent
    then (if ltb f.rc (size % 16384 / 128) then some (16384 * extent + 128 * f.rc) else none)
    else none

-- A failed `Seek` counts as the size 0.
abbrev pub size_at_end : ℕ → Host → ℕ × Host
size_at_end fd h = elim (Host.seek_end fd h) [ none ↦ (0, h) | some r ↦ r ]

-- The file is cut, if it is to be; `none` is an error of `Truncate`.
unfoldable pub cut : Fcb → ℕ → Host → Option Host
unfolding cut_size
cut f fd h =
    let (size, h') = size_at_end fd h in
    elim (cut_size f size) [ none ↦ some h' | some n ↦ Host.truncate fd n h' ]

unfoldable pub close_handle : ℕ → Fcb → ℕ → Cpm → Result
close_handle ptr f fd s = elim (Host.close fd s.host) [
  | none ↦ fails Error.other (record s { host = Host.closed fd s.host })
  | some h ↦
      with_stored ptr (Fcb.as_bytes (record f { al = set (set f.al 0 0) 1 0 }))
        (record s { host = h; files = erase ◌==◌ (cache_key f) s.files })
        (λ s'. done (return_zero s'))
]

unfoldable pub close_cached : ℕ → Fcb → FileCache → Cpm → Result
unfolding close_handle cut
close_cached ptr f obj s = elim (obj.handle) [
  | none ↦ done (set_a 0 s)
  | some fd ↦
      if contains b'$' obj.name
      then (elim (cut f fd s.host) [
        | none ↦ fails Error.other (record s { host = (size_at_end fd s.host).1 })
        | some h ↦ close_handle ptr f fd (record s { host = h })
      ])
      else close_handle ptr f fd s
]

unfoldable pub close_block : ℕ → Fcb → Cpm → Result
unfolding close_cached
close_block ptr f s = elim (get_cache (cache_key f) s) [
  | none ↦ done (set_a 0 s)
  | some obj ↦ close_cached ptr f obj s
]

-- The end of a sequential read: the record goes to the DMA area, the block moves on, and A is set.
unfoldable pub deliver : ℕ → Fcb → Text → ℕ → Cpm → Result
deliver ptr f bytes a s = with_stored s.dma bytes s (λ s'.
    with_stored ptr (Fcb.as_bytes (Fcb.increase_sequential_offset f)) s' (λ t. done (set_a a t)))

unfoldable pub read_virtual : ℕ → Fcb → FileCache → Cpm → Result
unfolding deliver sector
read_virtual ptr f obj s =
    deliver ptr f (sector 128 rest) (if leb 128 (length rest) then 0 else 1) s
  where
    file : Text
    file = elim (read_static (static_path obj.name s) s) [ none ↦ [] | some t ↦ t ]

    rest : Text
    rest = drop (Fcb.get_sequential_offset f) file

unfoldable pub read_handle : ℕ → Fcb → ℕ → Cpm → Result
unfolding deliver sector
read_handle ptr f fd s = elim (Host.seek fd (Fcb.get_sequential_offset f) s.host) [
  | none ↦ fails Error.other s
  | some h ↦ elim (Host.read fd 128 h) [
    | none ↦ fails Error.other (record s { host = h })
    | some (bytes, h') ↦
        deliver ptr f (sector 128 bytes) (if leb 1 (length bytes) then 0 else 1)
          (record s { host = h' })
  ]
]

unfoldable pub read_cached : ℕ → Fcb → FileCache → Cpm → Result
unfolding read_virtual read_handle
read_cached ptr f obj s = elim (obj.handle) [
  | none ↦ read_virtual ptr f obj s
  | some fd ↦ read_handle ptr f fd s
]

unfoldable pub read_block : ℕ → Fcb → Cpm → Result
unfolding read_cached
read_block ptr f s = elim (get_cache (cache_key f) s) [
  | none ↦ done (set_a 0xff s)
  | some obj ↦ read_cached ptr f obj s
]

-- The block after a sequential write: moved on, and with one more in `RC`.
abbrev pub after_write : Fcb → Fcb
after_write f = let g = Fcb.increase_sequential_offset f in record g { rc = u8 (g.rc + 1) }

unfoldable pub write_handle : ℕ → Fcb → ℕ → Cpm → Result
write_handle ptr f fd s = elim (Host.seek fd (Fcb.get_sequential_offset f) s.host) [
  | none ↦ fails Error.other s
  | some h ↦ elim (Host.write fd (Memory.get_range s.memory s.dma 128) h) [
    | none ↦ fails Error.other (record s { host = h })
    | some h' ↦
        with_stored ptr (Fcb.as_bytes (after_write f)) (record s { host = h' })
          (λ t. done (set_a 0 t))
  ]
]

unfoldable pub write_cached : ℕ → Fcb → FileCache → Cpm → Result
unfolding write_handle
write_cached ptr f obj s = elim (obj.handle) [
  | none ↦ fails Error.other s
  | some fd ↦ write_handle ptr f fd s
]

unfoldable pub write_block : ℕ → Fcb → Cpm → Result
unfolding write_cached
write_block ptr f s = elim (get_cache (cache_key f) s) [
  | none ↦ done (set_a 0xff s)
  | some obj ↦ write_cached ptr f obj s
]

module _ (pairs : Pairs) where
  open pairs use {to_u16}

  unfoldable pub file_open : Cpm → Result
  unfolding open_block
  file_open s = with_fcb (to_u16 s.cpu.de) s (λ f. open_block (to_u16 s.cpu.de) f s)

  unfoldable pub file_close : Cpm → Result
  unfolding close_block
  file_close s = with_fcb (to_u16 s.cpu.de) s (λ f. close_block (to_u16 s.cpu.de) f s)

  unfoldable pub make_file : Cpm → Result
  unfolding make_block
  make_file s = with_fcb (to_u16 s.cpu.de) s (λ f. make_block (to_u16 s.cpu.de) f s)

  unfoldable pub read : Cpm → Result
  unfolding read_block
  read s = with_fcb (to_u16 s.cpu.de) s (λ f. read_block (to_u16 s.cpu.de) f s)

  unfoldable pub write : Cpm → Result
  unfolding write_block
  write s = with_fcb (to_u16 s.cpu.de) s (λ f. write_block (to_u16 s.cpu.de) f s)
