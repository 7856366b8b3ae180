-- ===== src/Bdos/Files/Opened.antt =====
-- cpm/cpm_bdos.go, `BdosSysCallFileOpen`: a file that is opened can be read.
use cpmulator.Base.{
  ℕ, zero, suc, ◌+◌, ◌*◌, ◌/◌, ◌%◌, ◌≤◌, ◌<◌, ◌≡◌, ◌⊎◌, ◌∙◌, refl, sym, ap, false, none, some, List,
  [], ◌∷◌, arith, length, take, drop, set, get_or, All, IsByte, Text, text_eq, u8, u16, ◌==◌,
  length-set,
}
use cpmulator.Assoc.{lookup}
use cpmulator.Memory
use cpmulator.Memory.{get_range}
use cpmulator.Memory.Ranges.{get_range-copy_at_self}
use cpmulator.Fcb
use cpmulator.Fcb.{Fcb, as_bytes, get_sequential_offset}
use cpmulator.Fcb.Codec.{IsValid, length-as_bytes}
use cpmulator.Fcb.Counters.{rc-IsValid}
use cpmulator.Host.{content}
use cpmulator.Host.Records.{stat_size-IsOpen, find-store_self}
use cpmulator.Host.Opening.{IsFile, at_start, with_open, open_file-found, with_open-IsOpen}
use cpmulator.Cpm.{Cpm, FileCache, done}
use cpmulator.Bdos.Console.{return_zero}
use cpmulator.Bdos.Block.{cache_key, set_key, record_count, read_static, static_path, sector}
use cpmulator.Bdos.Files.{open_block, open_host, opened_file, host_name, add_cache, read_block}
use cpmulator.Bdos.Records.{IsReady, with_stored-fits, dma_record, after_reading}
use cpmulator.Bdos.Sequential.{block_bytes, end_flag, read_block_delivers}

All-set : (xs : List ℕ) (i v : ℕ) → All IsByte xs → IsByte v → All IsByte (set xs i v)
All-set [] i v h k = tt
All-set (x ∷ xs) zero v h k = (k, h.1)
All-set (x ∷ xs) (suc i) v h k = (h.0, All-set xs i v h.1 k)

-- The first two bytes of the allocation map may be set to any.
pub al-IsValid :
    (f : Fcb) (a b : ℕ)
    → IsValid f
    → IsByte a
    → IsByte b
    → IsValid (record f { al = set (set f.al 0 a) 1 b })
al-IsValid f a b v h k = record {
  name_size = v.name_size;
  type_size = v.type_size;
  al_size = length-set (set f.al 0 a) 1 b ∙ length-set f.al 0 a ∙ v.al_size;
  name_bytes = v.name_bytes;
  type_bytes = v.type_bytes;
  al_bytes = All-set (set f.al 0 a) 1 b (All-set f.al 0 a v.al_bytes h) k;
  drive_byte = v.drive_byte;
  ex_byte = v.ex_byte;
  s1_byte = v.s1_byte;
  s2_byte = v.s2_byte;
  rc_byte = v.rc_byte;
  cr_byte = v.cr_byte;
  r0_byte = v.r0_byte;
  r1_byte = v.r1_byte;
  r2_byte = v.r2_byte;
}

pub set_key-IsValid : (ptr : ℕ) (f : Fcb) → IsValid f → IsValid (set_key ptr f)
set_key-IsValid ptr f v = al-IsValid f (ptr % 256) (u8 (ptr / 256)) v (omega arith) (omega arith)

key_of : List ℕ → ℕ
key_of al = u16 (u16 (get_or al 1 0 * 256) + get_or al 0 0)

key-set :
    (ptr : ℕ) (al : List ℕ)
    → ptr < 65536
    → length al ≡ 16
    → key_of (set (set al 0 (ptr % 256)) 1 (u8 (ptr / 256))) ≡ ptr
unfolding key_of
key-set ptr [] h k = absurd (omega arith)
key-set ptr (a ∷ []) h k = absurd (omega arith)
key-set ptr (a ∷ b ∷ al) h k = omega arith

-- The key in a block is its address.
pub cache_key-set_key :
    (ptr : ℕ) (f : Fcb) → ptr < 65536 → IsValid f → cache_key (set_key ptr f) ≡ ptr
unfolding key_of
cache_key-set_key ptr f h v = key-set ptr f.al h v.al_size

record_count-IsByte : (size : ℕ) → IsByte (record_count size)
unfolding record_count
record_count-IsByte size = ground arith

-- The block of an open file of a size.
abbrev pub opened_block : ℕ → Fcb → ℕ → Fcb
opened_block ptr f size = set_key ptr (record f { rc = record_count size })

pub opened_block-IsValid :
    (ptr : ℕ) (f : Fcb) (size : ℕ) → IsValid f → IsValid (opened_block ptr f size)
opened_block-IsValid ptr f size v =
    set_key-IsValid ptr (record f { rc = record_count size })
      (rc-IsValid f (record_count size) v (record_count-IsByte size))

-- The state after a file has been opened.
abbrev pub after_opening : ℕ → Fcb → Text → ℕ → Cpm → Cpm
after_opening ptr f name i s =
    let s1 =
      add_cache ptr (record { name = name; handle = some s.host.next })
        (record s { host = with_open s.host name i }) in
    return_zero (record s1 {
      memory =
          Memory.copy_at s1.memory ptr (as_bytes (opened_block ptr f (length (content s.host i))));
    })

-- A file of the host that a block names: the block is in the RAM, has a name that is that of no
-- embedded file, and the file is there and no call of the host fails for it.
pub record IsThere (ptr : ℕ) (f : Fcb) (i : ℕ) (s : Cpm) : Type 0 where
  pub valid : IsValid f
  pub block_in : ptr + 36 ≤ 65536
  pub named : text_eq (Fcb.get_file_name f) [] ≡ false
  pub not_embedded : read_static (static_path (host_name f s) s) s ≡ none
  pub on_host : IsFile s.host (host_name f s) i

open_host-after :
    (ptr : ℕ) (f : Fcb) (name : Text) (i : ℕ) (s : Cpm)
    → IsValid f
    → ptr + 36 ≤ 65536
    → IsFile s.host name i
    → open_host ptr f name s ≡ done (after_opening ptr f name i s)
unfolding open_host opened_file
open_host-after ptr f name i s v h k =
    let s1 : Cpm =
      add_cache ptr (record { name = name; handle = some s.host.next })
        (record s { host = with_open s.host name i }) in
    let g : Fcb = opened_block ptr f (length (content s.host i)) in
    let size = length-as_bytes g (opened_block-IsValid ptr f (length (content s.host i)) v) in
    rw
      (
        open_file-found s.host name i k,
        stat_size-IsOpen (with_open s.host name i) s.host.next (at_start name i)
            (with_open-IsOpen s.host name i k),
        open_host,
        opened_file,
      )
      (with_stored-fits ptr (as_bytes g) s1 (λ s'. done (return_zero s')) (omega (arith, size)))

pub open_block-after :
    (ptr : ℕ) (f : Fcb) (i : ℕ) (s : Cpm)
    → IsThere ptr f i s
    → open_block ptr f s ≡ done (after_opening ptr f (host_name f s) i s)
unfolding open_block
open_block-after ptr f i s v =
    rw (v.named, v.not_embedded, open_block)
      (open_host-after ptr f (host_name f s) i s v.valid v.block_in v.on_host)

pub after_opening-IsReady :
    (ptr : ℕ) (f : Fcb) (i : ℕ) (s : Cpm)
    → IsThere ptr f i s
    → s.dma + 128 ≤ 65536
    → (ptr + 36 ≤ s.dma) ⊎ (s.dma + 128 ≤ ptr)
    → let name = host_name f s in
      IsReady ptr
        (opened_block ptr f (length (content s.host i)))
        s.host.next
        name
        (at_start name i)
        (after_opening ptr f name i s)
after_opening-IsReady ptr f i s v h k =
    let name : Text = host_name f s in
    let size : ℕ = length (content s.host i) in
    let cache : FileCache = record { name = name; handle = some s.host.next } in
    record {
      cached =
          ap (λ key. lookup ◌==◌ key (add_cache ptr cache s).files)
            (cache_key-set_key ptr (record f { rc = record_count size }) (omega (arith, v.block_in))
              (rc-IsValid f (record_count size) v.valid (record_count-IsByte size)))
          ∙ find-store_self ptr cache s.files;
      is_open = with_open-IsOpen s.host name i v.on_host;
      valid = opened_block-IsValid ptr f size v.valid;
      block_in = v.block_in;
      dma_in = h;
      apart = k;
    }

pub after_opening-block :
    (ptr : ℕ) (f : Fcb) (i : ℕ) (s : Cpm)
    → IsThere ptr f i s
    → block_bytes ptr (after_opening ptr f (host_name f s) i s)
      ≡ as_bytes (opened_block ptr f (length (content s.host i)))
after_opening-block ptr f i s v =
    let g : Fcb = opened_block ptr f (length (content s.host i)) in
    let size = length-as_bytes g (opened_block-IsValid ptr f (length (content s.host i)) v.valid) in
    ap (get_range (after_opening ptr f (host_name f s) i s).memory ptr) (sym size)
    ∙ get_range-copy_at_self s.memory ptr (as_bytes g) (omega (arith, size, v.block_in))

-- A block in the RAM and apart from the DMA area, with a name that is that of no embedded file but of
-- a file that is there and for which no call of the host fails: the call to open it returns no error
-- and sets A to 0, and the block in RAM is as it was but for its count of records and its key. A
-- sequential read by that block then delivers what the file holds at the offset of the block, filled
-- up with 0x1A, in the DMA area, without an error, and sets A to 0 exactly if the file has a byte
-- there.
pub open_block-read_block :
    (ptr : ℕ) (f : Fcb) (i : ℕ) (s : Cpm)
    → IsThere ptr f i s
    → s.dma + 128 ≤ 65536
    → (ptr + 36 ≤ s.dma) ⊎ (s.dma + 128 ≤ ptr)
    → let g = opened_block ptr f (length (content s.host i)) in
      let bytes = take 128 (drop (get_sequential_offset f) (content s.host i)) in
      (t : Cpm) × (u : Cpm) × (open_block ptr f s ≡ done t)
      × (t.cpu.af.hi ≡ 0)
      × (block_bytes ptr t ≡ as_bytes g)
      × (read_block ptr g t ≡ done u)
      × (dma_record u ≡ sector 128 bytes)
      × (u.cpu.af.hi ≡ end_flag bytes)
unfolding get_sequential_offset
open_block-read_block ptr f i s v h k =
    let name : Text = host_name f s in
    let g : Fcb = opened_block ptr f (length (content s.host i)) in
    let t : Cpm = after_opening ptr f name i s in
    let (reads, delivered, block, flag) =
      read_block_delivers ptr g s.host.next name (at_start name i) t
        (after_opening-IsReady ptr f i s v h k) in
    (
      t,
      after_reading ptr g s.host.next (at_start name i) t,
      open_block-after ptr f i s v,
      refl,
      after_opening-block ptr f i s v,
      reads,
      delivered,
      flag,
    )
