-- ===== src/Bdos/Block.antt =====
-- cpm/cpm_bdos.go: what the calls for files share, the control block in RAM and names of files.
use cpmulator.Base.{
  ℕ, zero, suc, ◌+◌, ◌*◌, ◌/◌, ◌%◌, Option, none, some, List, [], ◌∷◌, if◌then◌else◌, get_or, set,
  Text, text_eq, ◌==◌, ltb, u8, u16,
}
use cpmulator.Text.{to_upper, utf8}
use cpmulator.FilePath.{join_path, base}
use cpmulator.Memory
use cpmulator.Fcb
use cpmulator.Fcb.{Fcb, DirEntry}
use cpmulator.Host
use cpmulator.Host.{Host}
use cpmulator.Assoc.{lookup}
use cpmulator.Cpm.{Cpm, FileCache, Result}

-- `fcb.FromBytes(cpm.Memory.GetRange(ptr, fcb.SIZE))`, and the rest of a call.
abbrev pub with_fcb : ℕ → Cpm → (Fcb → Result) → Result
with_fcb ptr s k = elim (Fcb.from_bytes (Memory.get_range s.memory ptr Fcb.fcb_size)) [
  | none ↦ Result.panic
  | some f ↦ k f
]

-- `cpm.Memory.SetRange(addr, bytes...)`, and the rest of a call.
abbrev pub with_stored : ℕ → List ℕ → Cpm → (Cpm → Result) → Result
with_stored addr bytes s k = elim (Memory.set_range s.memory addr bytes) [
  | none ↦ Result.panic
  | some m ↦ k (record s { memory = m })
]

-- The cache key in the control block: the first two bytes of the allocation map.
abbrev pub cache_key : Fcb → ℕ
cache_key f = u16 (u16 (get_or f.al 1 0 * 256) + get_or f.al 0 0)

-- "Write our cache-key in the FCB"
abbrev pub set_key : ℕ → Fcb → Fcb
set_key ptr f = record f { al = set (set f.al 0 (ptr % 256)) 1 (u8 (ptr / 256)) }

-- The file size in blocks, a `uint8`, capped at `maxRC`.
unfoldable pub record_count : ℕ → ℕ
record_count size = if ltb 128 (u8 (size / 128)) then 128 else u8 (size / 128)

-- `cpm.currentDrive + 'A'`
abbrev pub drive_letter : Cpm → ℕ
drive_letter s = u8 (s.current_drive + b'A')

-- The drive of the control block, or the current one if that is 0.
abbrev pub block_letter : Fcb → Cpm → ℕ
block_letter f s = if f.drive == 0 then drive_letter s else u8 (u8 (f.drive + b'A') + 255)

-- The loop that takes an existing name that differs in case only.
unfoldable pub same_name : Text → List DirEntry → Text
unfolding to_upper
same_name name [] = name
same_name name (n ∷ files) =
    same_name (if text_eq (to_upper n.name) name then n.name else name) files

-- "Run a glob": the name as it is on the host, if the directory can be read.
unfoldable pub existing_name : Text → Text → Host → Text
unfolding same_name
existing_name path name h = elim (Host.list_dir path h) [
  | none ↦ name
  | some files ↦ same_name name files
]

-- The name of a file in the embedded file system: its base name below the current drive.
abbrev pub static_path : Text → Cpm → Text
static_path name s = join_path (utf8 (drive_letter s)) (base name)

-- `cpm.static.ReadFile`
abbrev pub read_static : Text → Cpm → Option Text
read_static p s = lookup text_eq p s.static

-- The 128 bytes of a record: what is there of it, and 0x1A.
unfoldable pub sector : ℕ → Text → Text
sector zero rest = []
sector (suc n) [] = 0x1a ∷ sector n []
sector (suc n) (c ∷ rest) = c ∷ sector n rest

abbrev pub get_cache : ℕ → Cpm → Option FileCache
get_cache key s = lookup ◌==◌ key s.files
