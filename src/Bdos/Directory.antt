-- ===== src/Bdos/Directory.antt =====
-- cpm/cpm_bdos.go: searching the directory, deleting and renaming files.
pub mod Search
pub mod Delete
pub mod Rename
use cpmulator.Base.{
  ℕ, zero, suc, ◌+◌, ◌/◌, Bool, true, false, ◌&&◌, Option, none, some, List, [], ◌∷◌, ◌++◌,
  if◌then◌else◌, Text, u8, u16,
}
use cpmulator.Text.{has_prefix, utf8}
use cpmulator.FilePath.{base, join_path}
use cpmulator.Memory
use cpmulator.Fcb
use cpmulator.Fcb.{Fcb, FcbFind}
use cpmulator.Host
use cpmulator.Host.Renaming
use cpmulator.Host.{Host, opened, not_exist, failed}
use cpmulator.Cpm.{Cpm, Result, Pairs, done, set_a, drive_path}
use cpmulator.Bdos.Console.{return_zero}
use cpmulator.Bdos.Block.{with_fcb, with_stored, drive_letter, block_letter, existing_name}
use cpmulator.Bdos.Random.{close_quietly}

-- The result at an index; `none` is that the index is out of range.
unfoldable pub result_at : ℕ → List FcbFind → Option FcbFind
result_at n [] = none
result_at zero (x ∷ xs) = some x
result_at (suc n) (x ∷ xs) = result_at n xs

-- The size of a file, where it can be opened and has one; the deferred close comes after.
unfoldable pub size_of : Text → Host → Option ℕ × Host
size_of p h = elim (Host.open_file p h) [
  | opened fd h' ↦ (Host.stat_size fd h', close_quietly fd h')
  | not_exist ↦ (none, h)
  | failed ↦ (none, h)
]

-- The block that tells a program of a file: its name, and its size in records as a `uint8`.
unfoldable pub found_block : FcbFind → Option ℕ → Fcb
found_block x none = Fcb.from_string x.name
found_block x (some size) = record (Fcb.from_string x.name) { rc = u8 (size / 128) }

-- What both searches do with a result: its block goes to the DMA area.
unfoldable pub deliver_found : FcbFind → Cpm → Result
unfolding found_block size_of
deliver_found x s =
    with_stored s.dma (Fcb.as_bytes (found_block x (size_of x.host s.host).0))
      (record s { host = (size_of x.host s.host).1 }) (λ t. done (return_zero t))

-- The embedded files below a directory that a pattern fits, in the order of `fs.WalkDir`, which the
-- state keeps them in.
unfoldable pub static_matches : Fcb → Text → List (Text × Text) → List FcbFind
static_matches f dir [] = []
static_matches f dir ((p, t) ∷ files) =
    let rest = static_matches f dir files in
    if has_prefix p (dir ++ b'/' ∷ []) && Fcb.does_match f (base p)
    then record { host = p; name = base p } ∷ rest
    else rest

-- The end of the search, from the results in order.
unfoldable pub first_of : List FcbFind → Cpm → Result
unfolding deliver_found
first_of [] s = Result.panic
first_of (x ∷ rest) s = deliver_found x (record s { find_first_results = rest; find_offset = 0 })

-- `sort` is Go's `sort.Slice` by the field `Name`.
unfoldable pub sorted_results : (List FcbFind → List FcbFind) → List FcbFind → Cpm → Result
unfolding first_of
sorted_results sort [] s = done (set_a 0xff s)
sorted_results sort (x ∷ xs) s = first_of (sort (x ∷ xs)) s

-- The directory that is searched: that of the current drive, whatever the block says.
abbrev pub search_dir : Cpm → Text
search_dir s = drive_path s (drive_letter s)

unfoldable pub find_first_block : (List FcbFind → List FcbFind) → Fcb → Cpm → Result
unfolding sorted_results static_matches
find_first_block sort f s =
    let s' = record s { find_first_results = []; find_offset = 0 } in
    elim (Fcb.get_matches f (search_dir s) (Host.list_dir (search_dir s) s.host)) [
      | none ↦ done (set_a 0xff s')
      | some res ↦ sorted_results sort (res ++ static_matches f (utf8 (drive_letter s)) s.static) s'
    ]

unfoldable pub find_next : Cpm → Result
unfolding result_at deliver_found
find_next s = elim (result_at s.find_offset s.find_first_results) [
  | none ↦ done (set_a 0xff s)
  | some x ↦ deliver_found x (record s { find_offset = s.find_offset + 1 })
]

-- The loop of `BdosSysCallDeleteFile`, which stops at the first file that cannot be removed.
unfoldable pub delete_all : List FcbFind → Cpm → Result
delete_all [] s = done (return_zero s)
delete_all (x ∷ xs) s = elim (Host.remove x.host s.host) [
  | none ↦ done (set_a 0xff s)
  | some h ↦ delete_all xs (record s { host = h })
]

unfoldable pub delete_block : Fcb → Cpm → Result
unfolding delete_all
delete_block f s =
    let path = drive_path s (block_letter f s) in
    elim (Fcb.get_matches f path (Host.list_dir path s.host)) [
      | none ↦ done (set_a 0xff s)
      | some res ↦ delete_all res s
    ]

unfoldable pub rename_block : Fcb → Fcb → Cpm → Result
rename_block f g s =
    let path = search_dir s in
    let src = join_path path (existing_name path (Fcb.get_file_name f) s.host) in
    elim (Renaming.rename src (join_path path (Fcb.get_file_name g)) s.host) [
      | none ↦ done (set_a 0xff s)
      | some h ↦ done (return_zero (record s { host = h }))
    ]

module _ (pairs : Pairs) where
  open pairs use {to_u16}

  unfoldable pub find_first : (List FcbFind → List FcbFind) → Cpm → Result
  unfolding find_first_block
  find_first sort s = with_fcb (to_u16 s.cpu.de) s (λ f. find_first_block sort f s)

  unfoldable pub delete_file : Cpm → Result
  unfolding delete_block
  delete_file s = with_fcb (to_u16 s.cpu.de) s (λ f. delete_block f s)

  unfoldable pub rename_file : Cpm → Result
  unfolding rename_block
  rename_file s =
      with_fcb (to_u16 s.cpu.de) s
        (λ f. with_fcb (u16 (to_u16 s.cpu.de + 16)) s (λ g. rename_block f g s))
