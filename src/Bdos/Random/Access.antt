-- ===== src/Bdos/Random/Access.antt =====
-- cpm/cpm_bdos.go, `BdosSysCallReadRand` and `BdosSysCallWriteRand`: random records of an open file.
use cpmulator.Base.{
  ℕ, zero, suc, ◌+◌, ◌*◌, ◌-◌, ◌≤◌, ◌≡◌, refl, sym, ap, ◌∙◌, ◌≢◌, true, [], ◌∷◌, length, replicate,
  Text, arith,
}
use mathlib.Core.Path.{subst}
use cpmulator.Memory
use cpmulator.Memory.Ranges.{get_range-copy_at_apart}
use cpmulator.Fcb.{Fcb, as_bytes, increase_sequential_offset}
use cpmulator.Fcb.Codec.{length-as_bytes}
use cpmulator.Fcb.Counters.{increase-IsValid}
use cpmulator.Host.{Host, Handle, content, written, move_to}
use cpmulator.Host.Records.{IsOpen, put, seek-IsOpen, write-IsOpen, stat_size-IsOpen}
use cpmulator.Host.Written.{length-written, written-nil, written-written}
use cpmulator.Cpm.{Cpm, done}
use cpmulator.Bdos.Console.{return_zero}
use cpmulator.Bdos.Records.{with_stored-fits, IsReady, dma_record}
use cpmulator.Bdos.Random.{random_record, pad_file, write_at, write_rand_handle, write_rand_block}

-- What a number of zeros written by an open handle leads to.
pub record Padded (n : ℕ) (h : Host) (fd : ℕ) (o : Handle) : Type 0 where
  pub host : Host
  pub position : ℕ
  pub pads : pad_file n fd h ≡ (host, true)
  pub is_open : IsOpen host fd (record o { position = position })
  pub stores : content host o.inode ≡ written o.position (replicate n 0) (content h o.inode)
  pub others : (i : ℕ) → o.inode ≢ i → content host i ≡ content h i

pad_file-Padded :
    (n : ℕ) (h : Host) (fd : ℕ) (o : Handle)
    → IsOpen h fd o
    → o.position ≤ length (content h o.inode)
    → Padded n h fd o
unfolding pad_file
pad_file-Padded zero h fd o v p = record {
  host = h;
  position = o.position;
  pads = refl;
  is_open = v;
  stores = sym (written-nil o.position (content h o.inode) p);
  others = λ i d. refl;
}
pad_file-Padded (suc n) h fd o v p =
    let wrote = write-IsOpen h fd o v (0 ∷ []) in
    let h' = put h fd o (0 ∷ []) in
    let old = content h o.inode in
    let fits : o.position + 1 ≤ length (content h' o.inode) =
      subst (λ t. o.position + 1 ≤ length t) (sym wrote.2)
        (omega (arith, length-written o.position (0 ∷ []) old)) in
    let rest = pad_file-Padded n h' fd (record o { position = o.position + 1 }) wrote.1 fits in
    record {
      host = rest.host;
      position = rest.position;
      pads = rw (wrote.0, pad_file) rest.pads;
      is_open = rest.is_open;
      stores =
          rest.stores
          ∙ ap (written (o.position + 1) (replicate n 0)) wrote.2
          ∙ written-written o.position 0 (replicate n 0) old p;
      others = λ i d. rest.others i d ∙ wrote.3 i d;
    }

-- The offset of the random record of a block.
abbrev pub random_offset : Fcb → ℕ
random_offset f = random_record f * 128

-- The state after the padding and the record are written.
abbrev after_write_at : ℕ → Fcb → ℕ → Handle → Cpm → Cpm
after_write_at ptr f fd o s = return_zero (record s {
  host =
      put (move_to fd (random_offset f) s.host o) fd (record o { position = random_offset f })
        (dma_record s);
  memory = Memory.copy_at s.memory ptr (as_bytes (increase_sequential_offset f));
})

write_at_lem :
    (ptr : ℕ) (f : Fcb) (fd : ℕ) (name : Text) (o : Handle) (s : Cpm)
    → IsReady ptr f fd name o s
    → write_at ptr f fd s ≡ done (after_write_at ptr f fd o s)
unfolding write_at
write_at_lem ptr f fd name o s r =
    let went = seek-IsOpen s.host fd o r.is_open (random_offset f) in
    let h = move_to fd (random_offset f) s.host o in
    let o' = record o { position = random_offset f } in
    let wrote = write-IsOpen h fd o' went.1 (dma_record s) in
    rw (went.0, write_at)
      (rw (wrote.0, write_at)
        (with_stored-fits ptr (as_bytes (increase_sequential_offset f))
          (record s { host = put h fd o' (dma_record s) }) (λ t. done (return_zero t))
          (omega (
            arith,
            r.block_in,
            length-as_bytes (increase_sequential_offset f) (increase-IsValid f r.valid),
          ))))

-- The content after a random write: zeros at the position of the handle, as many as the record lies
-- beyond the end of the file, and then the record at its place.
abbrev pub after_random : ℕ → ℕ → Text → Text → Text
after_random position offset bytes old =
    written offset bytes (written position (replicate (offset - length old) 0) old)

-- What a random write that returns without an error has done.
pub record Wrote (ptr : ℕ) (f : Fcb) (fd : ℕ) (name : Text) (o : Handle) (s t : Cpm) : Type 0 where
  pub returns : write_rand_block ptr f s ≡ done t
  pub result : t.cpu.af.hi ≡ 0
  pub stores :
      content t.host o.inode
      ≡ after_random o.position (random_offset f) (dma_record s) (content s.host o.inode)
  pub others : (i : ℕ) → o.inode ≢ i → content t.host i ≡ content s.host i
  pub position : ℕ
  pub ready : IsReady ptr f fd name (record o { position = position }) t
  pub dma_kept : dma_record t ≡ dma_record s

-- A random write to an open file, whose handle stands inside it, returns no error and sets A to 0.
-- If the record lies beyond the end of the file, zeros are written first, at the position where the
-- handle stands, as many as the record lies beyond. The record of the DMA area is then at its place,
-- no other file has changed, and the block and the DMA area are ready for the next call.
-- The file is open and no call of the host on it fails, the block is of bytes, and block and DMA area
-- lie within the RAM and apart.
pub write_rand_block-Wrote :
    (ptr : ℕ) (f : Fcb) (fd : ℕ) (name : Text) (o : Handle) (s : Cpm)
    → IsReady ptr f fd name o s
    → o.position ≤ length (content s.host o.inode)
    → (t : Cpm) × Wrote ptr f fd name o s t
unfolding write_rand_block
write_rand_block-Wrote ptr f fd name o s r p =
    let old = content s.host o.inode in
    let padded = pad_file-Padded (random_offset f - length old) s.host fd o r.is_open p in
    let o' = record o { position = padded.position } in
    let s' = record s { host = padded.host } in
    let r' : IsReady ptr f fd name o' s' = record {
      cached = r.cached;
      is_open = padded.is_open;
      valid = r.valid;
      block_in = r.block_in;
      dma_in = r.dma_in;
      apart = r.apart;
    } in
    let went = seek-IsOpen s'.host fd o' r'.is_open (random_offset f) in
    let h = move_to fd (random_offset f) s'.host o' in
    let wrote = write-IsOpen h fd (record o { position = random_offset f }) went.1 (dma_record s) in
    (
      after_write_at ptr f fd o' s',
      record {
        returns =
            rw (r.cached, write_rand_block)
              (rw (stat_size-IsOpen s.host fd o r.is_open, write_rand_handle)
                (rw (padded.pads, write_rand_handle) (write_at_lem ptr f fd name o' s' r')));
        result = refl;
        stores = wrote.2 ∙ ap (written (random_offset f) (dma_record s)) padded.stores;
        others = λ i d. wrote.3 i d ∙ padded.others i d;
        position = random_offset f + length (dma_record s);
        ready = record {
          cached = r.cached;
          is_open = wrote.1;
          valid = r.valid;
          block_in = r.block_in;
          dma_in = r.dma_in;
          apart = r.apart;
        };
        dma_kept =
            get_range-copy_at_apart s.memory ptr (as_bytes (increase_sequential_offset f)) s.dma 128
              (omega (
                arith,
                r.block_in,
                length-as_bytes (increase_sequential_offset f) (increase-IsValid f r.valid),
              ))
              r.dma_in
              (omega (
                arith,
                r.apart,
                length-as_bytes (increase_sequential_offset f) (increase-IsValid f r.valid),
              ));
      },
    )
