-- ===== src/Bdos/Writes.antt =====
-- cpm/cpm_bdos.go, `BdosSysCallWrite`: one call after another on a file.
use cpmulator.Base.{
  ℕ, ◌+◌, ◌*◌, ◌≤◌, ◌≡◌, ◌≢◌, refl, ap, sym, ◌∙◌, inl, inr, ap₂, none, some, List, [], ◌∷◌, arith,
  length, All, Text,
}
use mathlib.Core.Path.{subst}
use cpmulator.Memory
use cpmulator.Memory.Ranges.{get_range-copy_at_self, get_range-copy_at_apart}
use cpmulator.Fcb.{Fcb, from_bytes, get_sequential_offset}
use cpmulator.Fcb.Codec.{from_bytes-as_bytes}
use cpmulator.Fcb.Offset.{
  IsPosition, record_number, get_sequential_offset_lem, increase_keeps, increase-IsPosition,
  record_number-increase,
}
use cpmulator.Host.{Handle, content, written}
use cpmulator.Host.Written.{written-nil, length-written}
use cpmulator.Host.Runs.{join, IsRecord, written-after}
use cpmulator.Cpm.{Cpm, Result, Pairs, done}
use cpmulator.Bdos.Block.{get_cache, cache_key}
use cpmulator.Bdos.Files.{write, write_block, after_write}
use cpmulator.Bdos.Records.{dma_record, after_writing, after_write-IsValid}
use cpmulator.Bdos.Sequential.{block_bytes, write_block_stores, after_writing-IsReady}
use cpmulator.Bdos.Stream.{Stands, with_fcb_known}

-- A program puts a record into the DMA area.
abbrev pub put_record : Text → Cpm → Cpm
put_record r s = record s { memory = Memory.copy_at s.memory s.dma r }

-- A program puts one record after another into the DMA area and writes it, as long as the call
-- returns without an error.
abbrev pub write_all : Pairs → List Text → Cpm → Result
write_all pairs [] s = done s
write_all pairs (r ∷ rs) s = elim (write pairs (put_record r s)) [
  | Result.returns none t ↦ write_all pairs rs t
  | Result.returns (some e) t ↦ Result.returns (some e) t
  | Result.panic ↦ Result.panic
  | Result.hang ↦ Result.hang
]

-- What stays as it was through the writes.
abbrev pub Kept : Cpm → Cpm → Type 0
Kept s t =
    (t.host.dirs ≡ s.host.dirs)
    × (t.host.paths ≡ s.host.paths)
    × (t.host.faults ≡ s.host.faults)
    × (t.drives ≡ s.drives)
    × (t.static ≡ s.static)
    × (t.current_drive ≡ s.current_drive)
    × (t.dma ≡ s.dma)
    × (t.cpu.de ≡ s.cpu.de)

-- The writes move the offset on by a record.
offset-after_write :
    (f : Fcb)
    → IsPosition f
    → record_number f + 1 ≤ 65536
    → (record_number (after_write f) ≡ record_number f + 1)
      × (get_sequential_offset (after_write f) ≡ get_sequential_offset f + 128)
offset-after_write f p h =
    let step = record_number-increase f p (omega arith) in
    (
      step,
      omega (arith, get_sequential_offset_lem f, get_sequential_offset_lem (after_write f), step),
    )

after_write-IsPosition : (f : Fcb) → IsPosition f → IsPosition (after_write f)
after_write-IsPosition f p =
    let q = increase-IsPosition f p in record { cr_in = q.cr_in; ex_in = q.ex_in }

module _ (pairs : Pairs) (fd : ℕ) (name : Text) where
  open pairs use {to_u16}

  abbrev ptr_of : Cpm → ℕ
  ptr_of s = to_u16 s.cpu.de

  put_record-Stands :
      (f : Fcb) (o : Handle) (s : Cpm) (r : Text)
      → Stands pairs fd name f o s
      → IsRecord r
      → Stands pairs fd name f o (put_record r s) × (dma_record (put_record r s) ≡ r)
  put_record-Stands f o s r v h =
      let d = v.ready.apart in
      let fits = v.ready.dma_in in
      (
        record {
          ready = record {
            cached = v.ready.cached;
            is_open = v.ready.is_open;
            valid = v.ready.valid;
            block_in = v.ready.block_in;
            dma_in = fits;
            apart = d;
          };
          block =
              get_range-copy_at_apart s.memory s.dma r (ptr_of s) 36 (omega arith) v.ready.block_in
                (elim d [ inl q ↦ inr q | inr q ↦ inl (omega arith) ])
              ∙ v.block;
        },
        subst (λ n. Memory.get_range (Memory.copy_at s.memory s.dma r) s.dma n ≡ r) h
            (get_range-copy_at_self s.memory s.dma r (omega arith)),
      )

  write_again :
      (f : Fcb) (o : Handle) (s : Cpm)
      → Stands pairs fd name f o s
      → write pairs s ≡ done (after_writing (ptr_of s) f fd o s)
  unfolding write
  write_again f o s v =
      let known : from_bytes (block_bytes (ptr_of s) s) ≡ some f =
        ap from_bytes v.block ∙ from_bytes-as_bytes f v.ready.valid in
      with_fcb_known (ptr_of s) f s (λ g. write_block (ptr_of s) g s) known
      ∙ (write_block_stores (ptr_of s) f fd name o s v.ready).0

  -- The handle after a write.
  abbrev written_to : Fcb → Handle → Cpm → Handle
  written_to f o s = record o { position = get_sequential_offset f + length (dma_record s) }

  write-Stands :
      (f : Fcb) (o : Handle) (s : Cpm)
      → Stands pairs fd name f o s
      → Stands pairs fd name (after_write f) (written_to f o s) (after_writing (ptr_of s) f fd o s)
  write-Stands f o s v =
      let next = after_writing-IsReady (ptr_of s) f fd name o s v.ready in
      record {
        ready = record {
          cached =
              ap (λ l. get_cache (cache_key (record f { al = l })) s) (increase_keeps f).3
              ∙ v.ready.cached;
          is_open = next.is_open;
          valid = after_write-IsValid f v.ready.valid;
          block_in = v.ready.block_in;
          dma_in = v.ready.dma_in;
          apart = v.ready.apart;
        };
        block = (write_block_stores (ptr_of s) f fd name o s v.ready).4;
      }

  -- What a number of writes lead to.
  pub record Wrote (rs : List Text) (f : Fcb) (o : Handle) (s : Cpm) : Type 0 where
    pub state : Cpm
    pub block : Fcb
    pub position : ℕ
    pub goes : write_all pairs rs s ≡ done state
    pub stands : Stands pairs fd name block (record o { position = position }) state
    pub same_al : block.al ≡ f.al
    pub offset : get_sequential_offset block ≡ get_sequential_offset f + length rs * 128
    pub wrote :
        content state.host o.inode
        ≡ written (get_sequential_offset f) (join rs) (content s.host o.inode)
    pub others : (i : ℕ) → o.inode ≢ i → content state.host i ≡ content s.host i
    pub kept : Kept s state

  pub write_all_lem :
      (rs : List Text) (f : Fcb) (o : Handle) (s : Cpm)
      → All IsRecord rs
      → Stands pairs fd name f o s
      → IsPosition f
      → record_number f + length rs ≤ 65536
      → get_sequential_offset f ≤ length (content s.host o.inode)
      → Wrote rs f o s
  write_all_lem [] f o s a v p h e = record {
    state = s;
    block = f;
    position = o.position;
    goes = refl;
    stands = v;
    same_al = refl;
    offset = omega arith;
    wrote = sym (written-nil (get_sequential_offset f) (content s.host o.inode) e);
    others = λ i n. refl;
    kept = (refl, refl, refl, refl, refl, refl, refl, refl);
  }
  write_all_lem (r ∷ rs) f o s a v p h e =
      let (v1, given) = put_record-Stands f o s r v a.0 in
      let t = after_writing (ptr_of s) f fd o (put_record r s) in
      let (_, _, stored, others, _) =
        write_block_stores (ptr_of s) f fd name o (put_record r s) v1.ready in
      let (next, moved) = offset-after_write f p (omega arith) in
      let now : content t.host o.inode
          ≡ written (get_sequential_offset f) r (content s.host o.inode) =
        stored ∙ ap (λ b. written (get_sequential_offset f) b (content s.host o.inode)) given in
      let rest =
        write_all_lem rs (after_write f) (written_to f o (put_record r s)) t a.1
          (write-Stands f o (put_record r s) v1) (after_write-IsPosition f p) (omega (arith, next))
          (omega (
            arith,
            moved,
            a.0,
            ap length now,
            length-written (get_sequential_offset f) r (content s.host o.inode),
          )) in
      record {
        state = rest.state;
        block = rest.block;
        position = rest.position;
        goes = rw (write_again f o (put_record r s) v1, write_all) rest.goes;
        stands = rest.stands;
        same_al = rest.same_al ∙ (increase_keeps f).3;
        offset = omega (arith, rest.offset, moved);
        wrote =
            rest.wrote
            ∙ ap₂ (λ n c. written n (join rs) c) (omega (arith, moved, a.0)) now
            ∙ written-after (get_sequential_offset f) r (join rs) (content s.host o.inode);
        others = λ i n. rest.others i n ∙ others i n;
        kept = rest.kept;
      }

-- From an open file, any number of records, put into the DMA area and written one after the other
-- within the 65536 records of a file, are all written without an error. The content of the file is then
-- the old one with the records, one behind the other, written at the offset of the block; every other
-- file is as it was; and the block in RAM is that of the same open file, its offset moved on by the
-- length of the records.
-- The file is open and no call of the host on it fails, the block is of bytes, and block and DMA area
-- lie within the RAM and apart; DE points to the block, whose counters are in range; the offset is at
-- most the length of the file, and the records have 128 bytes each.
pub write_all_stores :
    (pairs : Pairs) (fd : ℕ) (name : Text) (rs : List Text) (f : Fcb) (o : Handle) (s : Cpm)
    → All IsRecord rs
    → Stands pairs fd name f o s
    → IsPosition f
    → record_number f + length rs ≤ 65536
    → get_sequential_offset f ≤ length (content s.host o.inode)
    → (t : Cpm) × (g : Fcb) × (position : ℕ) × (write_all pairs rs s ≡ done t)
      × (content t.host o.inode
          ≡ written (get_sequential_offset f) (join rs) (content s.host o.inode))
      × ((i : ℕ) → o.inode ≢ i → content t.host i ≡ content s.host i)
      × Stands pairs fd name g (record o { position = position }) t
      × (get_sequential_offset g ≡ get_sequential_offset f + length rs * 128)
write_all_stores pairs fd name rs f o s a v p h e =
    let w = write_all_lem pairs fd name rs f o s a v p h e in
    (w.state, w.block, w.position, w.goes, w.wrote, w.others, w.stands, w.offset)
