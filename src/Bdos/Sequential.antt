-- ===== src/Bdos/Sequential.antt =====
-- cpm/cpm_bdos.go, `BdosSysCallRead` and `BdosSysCallWrite`: what a program sees of them.
use cpmulator.Base.{
  ℕ, ◌+◌, ◌≡◌, refl, ap, ◌∙◌, ◌≢◌, length, Text, arith, leb, if◌then◌else◌, take, drop,
}
use mathlib.Core.Path.{subst}
use cpmulator.Memory
use cpmulator.Memory.Laws.{length-get_range}
use cpmulator.Memory.Ranges.{get_range-copy_at_self, get_range-copies}
use cpmulator.Fcb.{Fcb, as_bytes, get_sequential_offset, increase_sequential_offset}
use cpmulator.Fcb.Codec.{length-as_bytes}
use cpmulator.Fcb.Counters.{increase-IsValid}
use cpmulator.Host.{Handle, content, written}
use cpmulator.Host.Records.{seek-IsOpen, write-IsOpen, take-drop-written}
use cpmulator.Cpm.{Cpm, done}
use cpmulator.Bdos.Block.{sector}
use cpmulator.Bdos.Files.{read_block, write_block, after_write}
use cpmulator.Bdos.Records.{
  IsReady, dma_record, after_reading, after_writing, record_of_file, read_block_lem,
  write_block_lem, length-sector, sector_full, sought, at_offset, after_write-IsValid,
}

-- The block in the RAM and the record in the DMA area.
abbrev pub block_bytes : ℕ → Cpm → Text
block_bytes ptr s = Memory.get_range s.memory ptr 36

-- What A says of a record that was read.
abbrev pub end_flag_of : ℕ → ℕ
end_flag_of n = if leb 1 n then 0 else 1

abbrev pub end_flag : Text → ℕ
end_flag b = end_flag_of (length b)

-- The record of a file, filled up, and the block after it.
read_ranges :
    (ptr : ℕ) (f : Fcb) (fd : ℕ) (name : Text) (o : Handle) (s : Cpm)
    → IsReady ptr f fd name o s
    → let t = after_reading ptr f fd o s in
      (dma_record t ≡ sector 128 (record_of_file f o s.host))
      × (block_bytes ptr t ≡ as_bytes (increase_sequential_offset f))
read_ranges ptr f fd name o s r =
    get_range-copies s.memory s.dma (sector 128 (record_of_file f o s.host)) ptr
      (as_bytes (increase_sequential_offset f)) 128 36
      (length-sector 128 (record_of_file f o s.host))
      (length-as_bytes (increase_sequential_offset f) (increase-IsValid f r.valid)) r.dma_in
      r.block_in r.apart

-- A sequential read of an open file returns no error. The DMA area holds the record at the offset
-- of the block, filled up with 0x1A; the block has moved on to the next record; and A is 0 if the
-- file has a byte at the offset, and 1 if not.
-- The file is open and no call of the host on it fails, the block is of bytes, and block and DMA area
-- lie within the RAM and apart.
pub read_block_delivers :
    (ptr : ℕ) (f : Fcb) (fd : ℕ) (name : Text) (o : Handle) (s : Cpm)
    → IsReady ptr f fd name o s
    → let t = after_reading ptr f fd o s in
      (read_block ptr f s ≡ done t)
      × (dma_record t ≡ sector 128 (record_of_file f o s.host))
      × (block_bytes ptr t ≡ as_bytes (increase_sequential_offset f))
      × (t.cpu.af.hi ≡ end_flag (record_of_file f o s.host))
read_block_delivers ptr f fd name o s r =
    let ranges = read_ranges ptr f fd name o s r in
    (read_block_lem ptr f fd name o s r, ranges.0, ranges.1, refl)

-- A sequential write to an open file returns no error and sets A to 0. The content of the file is
-- the old one with the record of the DMA area written at the offset of the block, no other file has
-- changed, and the block has moved on, with one more in its record count.
-- The file is open and no call of the host on it fails, the block is of bytes, and block and DMA area
-- lie within the RAM and apart.
pub write_block_stores :
    (ptr : ℕ) (f : Fcb) (fd : ℕ) (name : Text) (o : Handle) (s : Cpm)
    → IsReady ptr f fd name o s
    → let t = after_writing ptr f fd o s in
      (write_block ptr f s ≡ done t)
      × (t.cpu.af.hi ≡ 0)
      × (content t.host o.inode
          ≡ written (get_sequential_offset f) (dma_record s) (content s.host o.inode))
      × ((i : ℕ) → o.inode ≢ i → content t.host i ≡ content s.host i)
      × (block_bytes ptr t ≡ as_bytes (after_write f))
write_block_stores ptr f fd name o s r =
    let went = seek-IsOpen s.host fd o r.is_open (get_sequential_offset f) in
    let wrote = write-IsOpen (sought f fd o s.host) fd (at_offset f o) went.1 (dma_record s) in
    let size = length-as_bytes (after_write f) (after_write-IsValid f r.valid) in
    (
      write_block_lem ptr f fd name o s r,
      refl,
      wrote.2,
      wrote.3,
      subst
          (λ n.
            Memory.get_range (Memory.copy_at s.memory ptr (as_bytes (after_write f))) ptr n
            ≡ as_bytes (after_write f))
          size
          (get_range-copy_at_self s.memory ptr (as_bytes (after_write f))
            (omega (arith, r.block_in))),
    )

pub after_writing-IsReady :
    (ptr : ℕ) (f : Fcb) (fd : ℕ) (name : Text) (o : Handle) (s : Cpm)
    → IsReady ptr f fd name o s
    → IsReady ptr f fd name
        (record o { position = get_sequential_offset f + length (dma_record s) })
        (after_writing ptr f fd o s)
after_writing-IsReady ptr f fd name o s r = record {
  cached = r.cached;
  is_open =
      (write-IsOpen (sought f fd o s.host) fd (at_offset f o)
        (seek-IsOpen s.host fd o r.is_open (get_sequential_offset f)).1 (dma_record s)).1;
  valid = r.valid;
  block_in = r.block_in;
  dma_in = r.dma_in;
  apart = r.apart;
}

-- A record that is written and then read by the same block comes back into the DMA area as it was,
-- with A set to 0; neither call returns an error.
-- The file is open and no call of the host on it fails, the block is of bytes, and block and DMA area
-- lie within the RAM and apart.
pub read_block-write_block :
    (ptr : ℕ) (f : Fcb) (fd : ℕ) (name : Text) (o : Handle) (s : Cpm)
    → IsReady ptr f fd name o s
    → (t : Cpm) × (u : Cpm) × (write_block ptr f s ≡ done t)
      × (read_block ptr f t ≡ done u)
      × (dma_record u ≡ dma_record s)
      × (u.cpu.af.hi ≡ 0)
read_block-write_block ptr f fd name o s r =
    (t, u, stored.0, delivered.0, delivered.1 ∙ same, delivered.3 ∙ some_byte)
  where
    t : Cpm
    t = after_writing ptr f fd o s

    o' : Handle
    o' = record o { position = get_sequential_offset f + length (dma_record s) }

    u : Cpm
    u = after_reading ptr f fd o' t

    stored :
        (write_block ptr f s ≡ done t)
        × (t.cpu.af.hi ≡ 0)
        × (content t.host o.inode
            ≡ written (get_sequential_offset f) (dma_record s) (content s.host o.inode))
        × ((i : ℕ) → o.inode ≢ i → content t.host i ≡ content s.host i)
        × (block_bytes ptr t ≡ as_bytes (after_write f))
    stored = write_block_stores ptr f fd name o s r

    delivered :
        (read_block ptr f t ≡ done u)
        × (dma_record u ≡ sector 128 (record_of_file f o' t.host))
        × (block_bytes ptr u ≡ as_bytes (increase_sequential_offset f))
        × (u.cpu.af.hi ≡ end_flag (record_of_file f o' t.host))
    delivered = read_block_delivers ptr f fd name o' t (after_writing-IsReady ptr f fd name o s r)

    full : length (dma_record s) ≡ 128
    full = length-get_range s.memory s.dma 128

    new : Text
    new = written (get_sequential_offset f) (dma_record s) (content s.host o.inode)

    back : record_of_file f o' t.host ≡ dma_record s
    back =
        ap (λ c. take 128 (drop (get_sequential_offset f) c)) stored.2
        ∙ subst (λ n. take n (drop (get_sequential_offset f) new) ≡ dma_record s) full
            (take-drop-written (get_sequential_offset f) (dma_record s) (content s.host o.inode))

    same : sector 128 (record_of_file f o' t.host) ≡ dma_record s
    same = ap (sector 128) back ∙ sector_full 128 (dma_record s) full

    some_byte : end_flag (record_of_file f o' t.host) ≡ 0
    some_byte = ap end_flag back ∙ ap end_flag_of full
