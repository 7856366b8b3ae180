-- ===== src/Bdos/Random/Reads.antt =====
-- cpm/cpm_bdos.go, `BdosSysCallReadRand`: what a random read of an open file delivers.
use cpmulator.Base.{
  ℕ, ◌+◌, ◌-◌, ◌≤◌, ◌<◌, ◌≡◌, refl, sym, ap, ◌∙◌, length, take, drop, replicate, Text, arith,
  le→not_ltb, lt→ltb,
}
use mathlib.Core.Path.{subst}
use cpmulator.Memory
use cpmulator.Memory.Laws.{length-get_range}
use cpmulator.Memory.Ranges.{get_range-copies, get_range-copy_at_apart}
use cpmulator.Fcb.{Fcb, as_bytes}
use cpmulator.Fcb.Codec.{length-as_bytes}
use cpmulator.Host.{Host, Handle, content, written, move_to}
use cpmulator.Host.Records.{seek-IsOpen, read-open, stat_size-IsOpen, take-drop-written}
use cpmulator.Host.Written.{length-written}
use cpmulator.Cpm.{Cpm, done}
use cpmulator.Bdos.Block.{with_stored, sector}
use cpmulator.Bdos.Records.{with_stored-fits, IsReady, dma_record, length-sector, sector_full}
use cpmulator.Bdos.Random.{return_result, read_at, sys_read, read_rand_block, write_rand_block}
use cpmulator.Bdos.Random.Access.{random_offset, write_rand_block-Wrote}

-- The record of the file at the random record of a block, filled up.
abbrev pub random_sector : Fcb → Handle → Host → Text
random_sector f o h = sector 128 (take 128 (drop (random_offset f) (content h o.inode)))

-- The state after a random read inside the file.
abbrev pub after_read : ℕ → Fcb → ℕ → Handle → Cpm → Cpm
after_read ptr f fd o s =
    let bytes = take 128 (drop (random_offset f) (content s.host o.inode)) in
    return_result 0 (record s {
      host =
          move_to fd (random_offset f + length bytes) (move_to fd (random_offset f) s.host o)
            (record o { position = random_offset f });
      memory = Memory.copy_at (Memory.copy_at s.memory s.dma (sector 128 bytes)) ptr (as_bytes f);
    })

-- The state after a random read beyond the end of the file.
abbrev pub after_missing : ℕ → Fcb → Cpm → Cpm
after_missing ptr f s =
    return_result 6 (record s { memory = Memory.copy_at s.memory ptr (as_bytes f) })

read_at_lem :
    (ptr : ℕ) (f : Fcb) (fd : ℕ) (name : Text) (o : Handle) (s : Cpm)
    → IsReady ptr f fd name o s
    → read_at fd
        (random_offset f)
        s
        (λ res s'. with_stored ptr (as_bytes f) s' (λ t. done (return_result res t)))
      ≡ done (after_read ptr f fd o s)
unfolding read_at
read_at_lem ptr f fd name o s r =
    let went = seek-IsOpen s.host fd o r.is_open (random_offset f) in
    let h = move_to fd (random_offset f) s.host o in
    let o' = record o { position = random_offset f } in
    let bytes = take 128 (drop (random_offset f) (content s.host o.inode)) in
    let s' = record s { host = move_to fd (random_offset f + length bytes) h o' } in
    rw (went.0, read_at)
      (rw (read-open h fd o' went.1 128, read_at)
        (with_stored-fits s.dma (sector 128 bytes) s'
            (λ u. with_stored ptr (as_bytes f) u (λ t. done (return_result 0 t)))
            (omega (arith, r.dma_in, length-sector 128 bytes))
          ∙ with_stored-fits ptr (as_bytes f)
              (record s' { memory = Memory.copy_at s.memory s.dma (sector 128 bytes) })
              (λ t. done (return_result 0 t))
              (omega (arith, r.block_in, length-as_bytes f r.valid))))

-- A random read of an open file returns no error. If the record starts inside the file or at its
-- end, the DMA area holds it, filled up with 0x1A, and A is 0; beyond the end the DMA area is as it
-- was, and A is 6.
-- The file is open and no call of the host on it fails, the block is of bytes, and block and DMA area
-- lie within the RAM and apart.
pub read_rand_block_delivers :
    (ptr : ℕ) (f : Fcb) (fd : ℕ) (name : Text) (o : Handle) (s : Cpm)
    → IsReady ptr f fd name o s
    → (random_offset f ≤ length (content s.host o.inode)
        → let t = after_read ptr f fd o s in
          (read_rand_block ptr f s ≡ done t)
          × (dma_record t ≡ random_sector f o s.host)
          × (t.cpu.af.hi ≡ 0))
      × (length (content s.host o.inode) < random_offset f
          → let t = after_missing ptr f s in
            (read_rand_block ptr f s ≡ done t) × (dma_record t ≡ dma_record s) × (t.cpu.af.hi ≡ 6))
unfolding read_rand_block
read_rand_block_delivers ptr f fd name o s r = (
  λ inside. (
    rw (r.cached, read_rand_block)
        (rw (stat_size-IsOpen s.host fd o r.is_open, sys_read)
          (rw (le→not_ltb (length (content s.host o.inode)) (random_offset f) inside)
            (read_at_lem ptr f fd name o s r))),
    (get_range-copies s.memory s.dma (random_sector f o s.host) ptr (as_bytes f) 128 36
        (length-sector 128 _) (length-as_bytes f r.valid) r.dma_in r.block_in r.apart).0,
    refl,
  ),
  λ beyond. (
    rw (r.cached, read_rand_block)
        (rw (stat_size-IsOpen s.host fd o r.is_open, sys_read)
          (rw (lt→ltb (length (content s.host o.inode)) (random_offset f) beyond) (
            with_stored-fits ptr (as_bytes f) s (λ t. done (return_result 6 t))
              (omega (arith, r.block_in, length-as_bytes f r.valid))))),
    get_range-copy_at_apart s.memory ptr (as_bytes f) s.dma 128
        (omega (arith, r.block_in, length-as_bytes f r.valid)) r.dma_in
        (omega (arith, r.apart, length-as_bytes f r.valid)),
    refl,
  ),
)

-- A record that is written at random and then read at random by the same block comes back into the
-- DMA area as it was, with A set to 0; neither call returns an error. The handle stands inside the
-- file before.
-- The file is open and no call of the host on it fails, the block is of bytes, and block and DMA area
-- lie within the RAM and apart.
pub read_rand_block-write_rand_block :
    (ptr : ℕ) (f : Fcb) (fd : ℕ) (name : Text) (o : Handle) (s : Cpm)
    → IsReady ptr f fd name o s
    → o.position ≤ length (content s.host o.inode)
    → (t : Cpm) × (u : Cpm) × (write_rand_block ptr f s ≡ done t)
      × (read_rand_block ptr f t ≡ done u)
      × (dma_record u ≡ dma_record s)
      × (u.cpu.af.hi ≡ 0)
read_rand_block-write_rand_block ptr f fd name o s r p =
    let (t, w) = write_rand_block-Wrote ptr f fd name o s r p in
    let o' = record o { position = w.position } in
    let padded =
      written o.position (replicate (random_offset f - length (content s.host o.inode)) 0)
        (content s.host o.inode) in
    let full : length (dma_record s) ≡ 128 = length-get_range s.memory s.dma 128 in
    let inside : random_offset f ≤ length (content t.host o.inode) =
      subst (λ c. random_offset f ≤ length c) (sym w.stores)
        (omega (arith, length-written (random_offset f) (dma_record s) padded)) in
    let delivered = (read_rand_block_delivers ptr f fd name o' t w.ready).0 inside in
    let back : take 128 (drop (random_offset f) (content t.host o.inode)) ≡ dma_record s =
      ap (λ c. take 128 (drop (random_offset f) c)) w.stores
      ∙ subst
          (λ n.
            take n (drop (random_offset f) (written (random_offset f) (dma_record s) padded))
            ≡ dma_record s)
          full (take-drop-written (random_offset f) (dma_record s) padded) in
    (
      t,
      after_read ptr f fd o' t,
      w.returns,
      delivered.0,
      delivered.1 ∙ ap (sector 128) back ∙ sector_full 128 (dma_record s) full,
      refl,
    )
