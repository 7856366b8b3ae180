-- ===== src/Bdos/Records.antt =====
-- cpm/cpm_bdos.go, `BdosSysCallRead` and `BdosSysCallWrite`: records of an open file.
use cpmulator.Base.{
  ℕ, zero, suc, ◌+◌, ◌≤◌, ◌≡◌, refl, ap, ◌∙◌, ◌⊎◌, some, List, [], ◌∷◌, arith, length, take, drop,
  Text, u8, leb, if◌then◌else◌,
}
use cpmulator.Memory
use cpmulator.Memory.Laws.{set_range_fits}
use cpmulator.Fcb.{Fcb, as_bytes, get_sequential_offset, increase_sequential_offset}
use cpmulator.Fcb.Codec.{IsValid, length-as_bytes}
use cpmulator.Fcb.Counters.{increase-IsValid, rc-IsValid}
use cpmulator.Host.{Host, Handle, content, move_to}
use cpmulator.Host.Records.{IsOpen, put, seek-IsOpen, write-IsOpen, read-open}
use cpmulator.Cpm.{Cpm, Result, done, set_a}
use cpmulator.Bdos.Block.{with_stored, sector, get_cache, cache_key}
use cpmulator.Bdos.Files.{write_handle, write_block, read_handle, read_block, deliver, after_write}

-- A store that ends within the RAM goes on.
pub with_stored-fits :
    (addr : ℕ) (bytes : List ℕ) (s : Cpm) (k : Cpm → Result)
    → addr + length bytes ≤ 65536
    → with_stored addr bytes s k ≡ k (record s { memory = Memory.copy_at s.memory addr bytes })
with_stored-fits addr bytes s k h = rw (set_range_fits s.memory addr bytes h, with_stored)

pub after_write-IsValid : (f : Fcb) → IsValid f → IsValid (after_write f)
after_write-IsValid f v =
    rc-IsValid (increase_sequential_offset f) (u8 (f'.rc + 1)) (increase-IsValid f v) (omega arith)
  where
    f' : Fcb
    f' = increase_sequential_offset f

-- The host with the handle at the offset of the block.
abbrev pub sought : Fcb → ℕ → Handle → Host → Host
sought f fd o h = move_to fd (get_sequential_offset f) h o

abbrev pub at_offset : Fcb → Handle → Handle
at_offset f o = record o { position = get_sequential_offset f }

-- The 128 bytes of the DMA area.
abbrev pub dma_record : Cpm → Text
dma_record s = Memory.get_range s.memory s.dma 128

-- The state after a sequential write by an open handle.
abbrev pub after_writing : ℕ → Fcb → ℕ → Handle → Cpm → Cpm
after_writing ptr f fd o s = set_a 0 (record s {
  host = put (sought f fd o s.host) fd (at_offset f o) (dma_record s);
  memory = Memory.copy_at s.memory ptr (as_bytes (after_write f));
})

write_handle_lem :
    (ptr : ℕ) (f : Fcb) (fd : ℕ) (s : Cpm) (o : Handle)
    → IsOpen s.host fd o
    → IsValid f
    → ptr + 36 ≤ 65536
    → write_handle ptr f fd s ≡ done (after_writing ptr f fd o s)
unfolding write_handle
write_handle_lem ptr f fd s o v valid h =
    let went = seek-IsOpen s.host fd o v (get_sequential_offset f) in
    let wrote = write-IsOpen (sought f fd o s.host) fd (at_offset f o) went.1 (dma_record s) in
    rw (went.0, write_handle)
      (rw (wrote.0, write_handle)
        (with_stored-fits ptr (as_bytes (after_write f))
          (record s { host = put (sought f fd o s.host) fd (at_offset f o) (dma_record s) })
          (λ t. done (set_a 0 t))
          (omega (arith, length-as_bytes (after_write f) (after_write-IsValid f valid)))))

pub length-sector : (n : ℕ) (rest : Text) → length (sector n rest) ≡ n
unfolding sector
length-sector zero rest = refl
length-sector (suc n) [] = ap suc (length-sector n [])
length-sector (suc n) (c ∷ rest) = ap suc (length-sector n rest)

pub sector_full : (n : ℕ) (rest : Text) → length rest ≡ n → sector n rest ≡ rest
unfolding sector
sector_full zero [] h = refl
sector_full zero (c ∷ rest) h = absurd (omega arith)
sector_full (suc n) [] h = absurd (omega arith)
sector_full (suc n) (c ∷ rest) h = ap (λ t. c ∷ t) (sector_full n rest (omega arith))

-- What of the file stands at the offset of a block, at most a record of it.
abbrev pub record_of_file : Fcb → Handle → Host → Text
record_of_file f o h = take 128 (drop (get_sequential_offset f) (content h o.inode))

-- The state after a sequential read by an open handle.
abbrev pub after_reading : ℕ → Fcb → ℕ → Handle → Cpm → Cpm
after_reading ptr f fd o s =
    let bytes = record_of_file f o s.host in
    set_a (if leb 1 (length bytes) then 0 else 1) (record s {
      host =
          move_to fd (get_sequential_offset f + length bytes) (sought f fd o s.host)
            (at_offset f o);
      memory =
          Memory.copy_at (Memory.copy_at s.memory s.dma (sector 128 bytes)) ptr
            (as_bytes (increase_sequential_offset f));
    })

deliver_lem :
    (ptr : ℕ) (f : Fcb) (bytes : Text) (a : ℕ) (s : Cpm)
    → length bytes ≡ 128
    → IsValid f
    → s.dma + 128 ≤ 65536
    → ptr + 36 ≤ 65536
    → deliver ptr f bytes a s
      ≡ done (
          set_a a (record s {
            memory =
                Memory.copy_at
                  (Memory.copy_at s.memory s.dma bytes)
                  ptr
                  (as_bytes (increase_sequential_offset f));
          }))
unfolding deliver
deliver_lem ptr f bytes a s e valid h k =
    with_stored-fits s.dma bytes s
      (λ t. with_stored ptr (as_bytes (increase_sequential_offset f)) t (λ u. done (set_a a u)))
      (omega arith)
    ∙ with_stored-fits ptr (as_bytes (increase_sequential_offset f))
        (record s { memory = Memory.copy_at s.memory s.dma bytes }) (λ u. done (set_a a u))
        (omega (arith, length-as_bytes (increase_sequential_offset f) (increase-IsValid f valid)))

read_handle_lem :
    (ptr : ℕ) (f : Fcb) (fd : ℕ) (s : Cpm) (o : Handle)
    → IsOpen s.host fd o
    → IsValid f
    → s.dma + 128 ≤ 65536
    → ptr + 36 ≤ 65536
    → read_handle ptr f fd s ≡ done (after_reading ptr f fd o s)
unfolding read_handle
read_handle_lem ptr f fd s o v valid h k =
    let went = seek-IsOpen s.host fd o v (get_sequential_offset f) in
    let got = read-open (sought f fd o s.host) fd (at_offset f o) went.1 128 in
    let bytes = record_of_file f o s.host in
    rw (went.0, read_handle)
      (rw (got, read_handle)
        (deliver_lem ptr f (sector 128 bytes) (if leb 1 (length bytes) then 0 else 1)
          (record s {
            host =
                move_to fd (get_sequential_offset f + length bytes) (sought f fd o s.host)
                  (at_offset f o);
          })
          (length-sector 128 bytes) valid h k))

-- A file of the host that a block names is open, and the RAM holds the block and the DMA area.
pub record IsReady (ptr : ℕ) (f : Fcb) (fd : ℕ) (name : Text) (o : Handle) (s : Cpm) : Type 0 where
  pub cached : get_cache (cache_key f) s ≡ some (record { name = name; handle = some fd })
  pub is_open : IsOpen s.host fd o
  pub valid : IsValid f
  pub block_in : ptr + 36 ≤ 65536
  pub dma_in : s.dma + 128 ≤ 65536
  pub apart : (ptr + 36 ≤ s.dma) ⊎ (s.dma + 128 ≤ ptr)

pub read_block_lem :
    (ptr : ℕ) (f : Fcb) (fd : ℕ) (name : Text) (o : Handle) (s : Cpm)
    → IsReady ptr f fd name o s
    → read_block ptr f s ≡ done (after_reading ptr f fd o s)
unfolding read_block
read_block_lem ptr f fd name o s r =
    rw (r.cached, read_block) (read_handle_lem ptr f fd s o r.is_open r.valid r.dma_in r.block_in)

pub write_block_lem :
    (ptr : ℕ) (f : Fcb) (fd : ℕ) (name : Text) (o : Handle) (s : Cpm)
    → IsReady ptr f fd name o s
    → write_block ptr f s ≡ done (after_writing ptr f fd o s)
unfolding write_block
write_block_lem ptr f fd name o s r =
    rw (r.cached, write_block) (write_handle_lem ptr f fd s o r.is_open r.valid r.block_in)
