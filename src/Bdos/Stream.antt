-- ===== src/Bdos/Stream.antt =====
-- cpm/cpm_bdos.go, `BdosSysCallRead`: one call after another on a file.
use cpmulator.Base.{
  ℕ, zero, suc, ◌+◌, ◌*◌, ◌≤◌, ◌≡◌, refl, ap, ◌∙◌, none, some, length, Text, take, drop,
}
use cpmulator.Fcb.{Fcb, as_bytes, from_bytes, get_sequential_offset, increase_sequential_offset}
use cpmulator.Fcb.Codec.{from_bytes-as_bytes}
use cpmulator.Fcb.Counters.{increase-IsValid}
use cpmulator.Fcb.Offset.{IsPosition, record_number, increase_keeps, advance, advance-offset}
use cpmulator.Host.{Handle, content}
use cpmulator.Host.Records.{seek-IsOpen}
use cpmulator.Cpm.{Cpm, Result, Pairs, done}
use cpmulator.Bdos.Block.{sector, get_cache, cache_key, with_fcb}
use cpmulator.Bdos.Files.{read, read_block}
use cpmulator.Bdos.Records.{IsReady, dma_record, after_reading, record_of_file, sought, at_offset}
use cpmulator.Bdos.Sequential.{block_bytes, end_flag, read_block_delivers}

-- A call a number of times, as long as it returns without an error.
abbrev pub times : ℕ → (Cpm → Result) → Cpm → Result
times zero call s = done s
times (suc n) call s = elim (call s) [
  | Result.returns none t ↦ times n call t
  | Result.returns (some e) t ↦ Result.returns (some e) t
  | Result.panic ↦ Result.panic
  | Result.hang ↦ Result.hang
]

pub with_fcb_known :
    (ptr : ℕ) (f : Fcb) (s : Cpm) (k : Fcb → Result)
    → from_bytes (block_bytes ptr s) ≡ some f
    → with_fcb ptr s k ≡ k f
with_fcb_known ptr f s k e = ap (λ x. elim x [ none ↦ Result.panic | some g ↦ k g ]) e

module _ (pairs : Pairs) (fd : ℕ) (name : Text) where
  open pairs use {to_u16}

  -- The block that DE points to is that of an open file.
  pub record Stands (f : Fcb) (o : Handle) (s : Cpm) : Type 0 where
    pub ready : IsReady (to_u16 s.cpu.de) f fd name o s
    pub block : block_bytes (to_u16 s.cpu.de) s ≡ as_bytes f

  -- The handle after a read.
  abbrev moved : Fcb → Handle → Cpm → Handle
  moved f o s = record o { position = get_sequential_offset f + length (record_of_file f o s.host) }

  read_block_again :
      (f : Fcb) (o : Handle) (s : Cpm)
      → Stands f o s
      → read pairs s ≡ read_block (to_u16 s.cpu.de) f s
  unfolding read
  read_block_again f o s v =
      let known : from_bytes (block_bytes (to_u16 s.cpu.de) s) ≡ some f =
        ap from_bytes v.block ∙ from_bytes-as_bytes f v.ready.valid in
      with_fcb_known (to_u16 s.cpu.de) f s (λ g. read_block (to_u16 s.cpu.de) g s) known

  read-Stands :
      (f : Fcb) (o : Handle) (s : Cpm)
      → Stands f o s
      → Stands
          (increase_sequential_offset f)
          (moved f o s)
          (after_reading (to_u16 s.cpu.de) f fd o s)
  read-Stands f o s v =
      let ptr = to_u16 s.cpu.de in
      let r = v.ready in
      let went = seek-IsOpen s.host fd o r.is_open (get_sequential_offset f) in
      record {
        ready = record {
          cached =
              ap (λ l. get_cache (cache_key (record f { al = l })) s) (increase_keeps f).3
              ∙ r.cached;
          is_open =
              (seek-IsOpen (sought f fd o s.host) fd (at_offset f o) went.1
                (get_sequential_offset f + length (record_of_file f o s.host))).1;
          valid = increase-IsValid f r.valid;
          block_in = r.block_in;
          dma_in = r.dma_in;
          apart = r.apart;
        };
        block = (read_block_delivers ptr f fd name o s r).2;
      }

  read_again :
      (f : Fcb) (o : Handle) (s : Cpm)
      → Stands f o s
      → read pairs s ≡ done (after_reading (to_u16 s.cpu.de) f fd o s)
  read_again f o s v =
      read_block_again f o s v ∙ (read_block_delivers (to_u16 s.cpu.de) f fd name o s v.ready).0

  -- What a number of reads lead to.
  record Read (n : ℕ) (f : Fcb) (o : Handle) (s : Cpm) : Type 0 where
    state : Cpm
    position : ℕ
    goes : times n (read pairs) s ≡ done state
    stands : Stands (advance n f) (record o { position = position }) state
    same : content state.host o.inode ≡ content s.host o.inode

  times-Read : (n : ℕ) (f : Fcb) (o : Handle) (s : Cpm) → Stands f o s → Read n f o s
  unfolding advance
  times-Read zero f o s v = record {
    state = s;
    position = o.position;
    goes = refl;
    stands = v;
    same = refl;
  }
  times-Read (suc n) f o s v =
      let rest =
        times-Read n (increase_sequential_offset f) (moved f o s)
          (after_reading (to_u16 s.cpu.de) f fd o s) (read-Stands f o s v) in
      record {
        state = rest.state;
        position = rest.position;
        goes = rw (read_again f o s v, times) rest.goes;
        stands = rest.stands;
        same = rest.same;
      }

  -- From an open file, a number of reads that stays within the 65536 records of a file returns no
  -- error, and neither does the read after them. That one delivers the record of the file that lies
  -- as many records behind the first, filled up with 0x1A, and sets A to 0 if the file has a byte
  -- there, and to 1 if not.
  -- The file is open and no call of the host on it fails, the block is of bytes, and block and DMA area
  -- lie within the RAM and apart; DE points to the block, whose counters are in range.
  pub read-times :
      (n : ℕ) (f : Fcb) (o : Handle) (s : Cpm)
      → Stands f o s
      → IsPosition f
      → record_number f + n ≤ 65536
      → let bytes = take 128 (drop (get_sequential_offset f + n * 128) (content s.host o.inode)) in
        (t : Cpm) × (u : Cpm) × (times n (read pairs) s ≡ done t)
        × (read pairs t ≡ done u)
        × (dma_record u ≡ sector 128 bytes)
        × (u.cpu.af.hi ≡ end_flag bytes)
  read-times n f o s v p h =
      let r = times-Read n f o s v in
      let o' = record o { position = r.position } in
      let delivered =
        read_block_delivers (to_u16 r.state.cpu.de) (advance n f) fd name o' r.state
          r.stands.ready in
      let found : record_of_file (advance n f) o' r.state.host
          ≡ take 128 (drop (get_sequential_offset f + n * 128) (content s.host o.inode)) =
        ap (λ k. take 128 (drop k (content r.state.host o.inode))) (advance-offset n f p h).1
        ∙ ap (λ c. take 128 (drop (get_sequential_offset f + n * 128) c)) r.same in
      (
        r.state,
        after_reading (to_u16 r.state.cpu.de) (advance n f) fd o' r.state,
        r.goes,
        read_again (advance n f) o' r.state r.stands,
        delivered.1 ∙ ap (sector 128) found,
        delivered.3 ∙ ap end_flag found,
      )
