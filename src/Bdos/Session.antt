-- ===== src/Bdos/Session.antt =====
-- cpm/cpm_bdos.go: a file from the call that makes it to the reads that find its records.
use cpmulator.Base.{
  ℕ, zero, suc, ◌∷◌, ◌+◌, ◌*◌, ◌≤◌, ◌<◌, ◌≡◌, ◌⊎◌, ap₂, refl, ap, sym, ◌∙◌, false, some, List, [],
  arith, length, take, drop, get_or, All, Text,
}
use mathlib.Core.Path.{subst}
use cpmulator.Text.{contains}
use cpmulator.Memory
use cpmulator.Memory.Ranges.{get_range-copy_at_self}
use cpmulator.Fcb.{Fcb, as_bytes, from_bytes, get_sequential_offset}
use cpmulator.Fcb.Codec.{from_bytes-as_bytes, length-as_bytes}
use cpmulator.Fcb.Offset.{IsPosition, record_number, get_sequential_offset_lem}
use cpmulator.Host.{Handle, content, written}
use cpmulator.Host.Written.{written_start}
use cpmulator.Host.Opening.{IsFile, at_start}
use cpmulator.Host.Runs.{join, IsRecord, take-drop-join}
use cpmulator.Cpm.{Cpm, Pairs, done}
use cpmulator.Bdos.Block.{sector}
use cpmulator.Bdos.Files.{
  file_open, file_close, make_file, read, make_block, close_block, open_block, host_name,
}
use cpmulator.Bdos.Files.Opened.{
  IsThere, opened_block, after_opening, after_opening-IsReady, after_opening-block,
  open_block-after,
}
use cpmulator.Bdos.Files.Made.{with_file, make_block-after, after_closing, close_block-after}
use cpmulator.Bdos.Records.{dma_record, sector_full}
use cpmulator.Bdos.Sequential.{block_bytes, end_flag, end_flag_of}
use cpmulator.Bdos.Stream.{Stands, times, with_fcb_known, read-times}
use cpmulator.Bdos.Kept.{IsThere-Kept}
use cpmulator.Bdos.Writes.{write_all, write_all_lem}

-- The program puts a block where DE points to.
abbrev pub put_block : Pairs → Fcb → Cpm → Cpm
put_block pairs f s = record s {
  memory = Memory.copy_at s.memory (pairs.to_u16 s.cpu.de) (as_bytes f);
}

-- Each of the records has its size.
length-get_or :
    (rs : List Text) (k : ℕ) → All IsRecord rs → k < length rs → IsRecord (get_or rs k [])
length-get_or [] k a h = absurd (omega arith)
length-get_or (r ∷ rs) zero a h = a.0
length-get_or (r ∷ rs) (suc k) a h = length-get_or rs k a.1 (omega arith)

module _ (pairs : Pairs) where
  open pairs use {to_u16}

  -- DE points to a block of a file that can be made, of an ordinary name.
  pub record CanMake (f : Fcb) (i : ℕ) (s : Cpm) : Type 0 where
    pub there : IsThere (to_u16 s.cpu.de) f i (with_file f s)
    pub same_name : host_name f (with_file f s) ≡ host_name f s
    pub plain : contains b'$' (host_name f s) ≡ false
    pub block : block_bytes (to_u16 s.cpu.de) s ≡ as_bytes f
    pub dma_in : s.dma + 128 ≤ 65536
    pub apart : (to_u16 s.cpu.de + 36 ≤ s.dma) ⊎ (s.dma + 128 ≤ to_u16 s.cpu.de)

  -- The state after the block's file is opened, and its block.
  abbrev opened_state : Fcb → ℕ → Cpm → Cpm
  opened_state f i s = after_opening (to_u16 s.cpu.de) f (host_name f s) i s

  abbrev block_of : Fcb → ℕ → Cpm → Fcb
  block_of f i s = opened_block (to_u16 s.cpu.de) f (length (content s.host i))

  opened_state-Stands :
      (f : Fcb) (i : ℕ) (s : Cpm)
      → IsThere (to_u16 s.cpu.de) f i s
      → s.dma + 128 ≤ 65536
      → (to_u16 s.cpu.de + 36 ≤ s.dma) ⊎ (s.dma + 128 ≤ to_u16 s.cpu.de)
      → Stands pairs s.host.next
          (host_name f s)
          (block_of f i s)
          (at_start (host_name f s) i)
          (opened_state f i s)
  opened_state-Stands f i s v h d = record {
    ready = after_opening-IsReady (to_u16 s.cpu.de) f i s v h d;
    block = after_opening-block (to_u16 s.cpu.de) f i s v;
  }

  make_file-after :
      (f : Fcb) (i : ℕ) (s : Cpm)
      → CanMake f i s
      → make_file pairs s ≡ done (opened_state f i (with_file f s))
  unfolding make_file
  make_file-after f i s v =
      let ptr = to_u16 s.cpu.de in
      let known : from_bytes (block_bytes ptr s) ≡ some f =
        ap from_bytes v.block ∙ from_bytes-as_bytes f v.there.valid in
      with_fcb_known ptr f s (λ g. make_block ptr g s) known
      ∙ make_block-after ptr f i s v.there.valid v.there.block_in v.there.named
          (subst (λ n. IsFile (with_file f s).host n i) v.same_name v.there.on_host)
      ∙ ap (λ n. done (after_opening ptr f n i (with_file f s))) (sym v.same_name)

  file_close-after :
      (f : Fcb) (fd : ℕ) (name : Text) (o : Handle) (s : Cpm)
      → Stands pairs fd name f o s
      → contains b'$' name ≡ false
      → file_close pairs s ≡ done (after_closing (to_u16 s.cpu.de) f fd s)
  unfolding file_close
  file_close-after f fd name o s v e =
      let ptr = to_u16 s.cpu.de in
      let known : from_bytes (block_bytes ptr s) ≡ some f =
        ap from_bytes v.block ∙ from_bytes-as_bytes f v.ready.valid in
      with_fcb_known ptr f s (λ g. close_block ptr g s) known
      ∙ close_block-after ptr f fd name o s v.ready e

  file_open-after :
      (f : Fcb) (i : ℕ) (s : Cpm)
      → IsThere (to_u16 s.cpu.de) f i s
      → file_open pairs (put_block pairs f s) ≡ done (opened_state f i (put_block pairs f s))
  unfolding file_open
  file_open-after f i s v =
      let ptr = to_u16 s.cpu.de in
      let t : Cpm = put_block pairs f s in
      let size = length-as_bytes f v.valid in
      let known : from_bytes (block_bytes ptr t) ≡ some f =
        ap from_bytes (
          ap (Memory.get_range t.memory ptr) (sym size)
          ∙ get_range-copy_at_self s.memory ptr (as_bytes f) (omega (arith, size, v.block_in)))
        ∙ from_bytes-as_bytes f v.valid in
      let there =
        IsThere-Kept ptr ptr f i s t (refl, refl, refl, refl, refl, refl, refl, refl) v
          v.block_in in
      with_fcb_known ptr f t (λ g. open_block ptr g t) known ∙ open_block-after ptr f i t there

  -- Where a read finds a record.
  read_stored :
      (rs : List Text) (f : Fcb) (old : Text) (k : ℕ)
      → All IsRecord rs
      → get_sequential_offset f ≡ 0
      → k < length rs
      → take 128 (
          drop
            (get_sequential_offset f + k * 128)
            (written (get_sequential_offset f) (join rs) old))
        ≡ get_or rs k []
  read_stored rs f old k a e h =
      ap (λ n. take 128 (drop (n + k * 128) (written n (join rs) old))) e
      ∙ ap₂ (λ n c. take 128 (drop n c)) {x = 0 + k * 128} (omega arith)
          (written_start (join rs) old)
      ∙ take-drop-join rs k (drop (length (join rs)) old) a h

  -- A program makes a file, or opens an old one by the call that makes one; puts records into the DMA
  -- area and writes them, one after the other; closes the file; puts the block that it began with back
  -- in its place and opens the file by it; and reads. None of the calls returns an error, and each
  -- of the records that were written, the `k`th, comes back into the DMA area by the `k`th read, with A set
  -- to 0.
  -- DE points to the block, which is of bytes, lies within the RAM and apart from the DMA area, is at
  -- the first record, and has a name without "$" that is that of no embedded file. The file is there
  -- or can be made, no call of the host on it fails, and its name is the same when it is there; the
  -- records have 128 bytes each and are at most 65536.
  pub records_come_back :
      (rs : List Text) (f : Fcb) (i : ℕ) (s : Cpm) (k : ℕ)
      → CanMake f i s
      → All IsRecord rs
      → IsPosition f
      → record_number f ≡ 0
      → length rs ≤ 65536
      → k < length rs
      → (t : Cpm) × (u : Cpm) × (v : Cpm) × (w : Cpm) × (x : Cpm) × (y : Cpm) × (make_file pairs s
          ≡ done t)
        × (write_all pairs rs t ≡ done u)
        × (file_close pairs u ≡ done v)
        × (file_open pairs (put_block pairs f v) ≡ done w)
        × (times k (read pairs) w ≡ done x)
        × (read pairs x ≡ done y)
        × (dma_record y ≡ get_or rs k [])
        × (y.cpu.af.hi ≡ 0)
  unfolding get_sequential_offset
  records_come_back rs f i s k c a p z n h =
      let s1 : Cpm = with_file f s in
      let name : Text = host_name f s1 in
      let fd : ℕ = s1.host.next in
      let t : Cpm = opened_state f i s1 in
      let start : get_sequential_offset f ≡ 0 = omega (arith, z, get_sequential_offset_lem f) in
      let plain : contains b'$' name ≡ false = ap (contains b'$') c.same_name ∙ c.plain in
      let q : IsPosition (block_of f i s1) = record { cr_in = p.cr_in; ex_in = p.ex_in } in
      let wr =
        write_all_lem pairs fd name rs (block_of f i s1) (at_start name i) t a
          (opened_state-Stands f i s1 c.there c.dma_in c.apart) q (omega (arith, z))
          (omega (arith, start)) in
      let u : Cpm = wr.state in
      let v : Cpm = after_closing (to_u16 u.cpu.de) wr.block fd u in
      let there =
        IsThere-Kept (to_u16 s.cpu.de) (to_u16 u.cpu.de) f i s1 v wr.kept c.there
          wr.stands.ready.block_in in
      let v1 : Cpm = put_block pairs f v in
      let again =
        IsThere-Kept (to_u16 u.cpu.de) (to_u16 u.cpu.de) f i v v1
          (refl, refl, refl, refl, refl, refl, refl, refl) there wr.stands.ready.block_in in
      let w : Cpm = opened_state f i v1 in
      let (x, y, goes, reads, delivered, flag) =
        read-times pairs v1.host.next (host_name f v1) k (block_of f i v1)
          (at_start (host_name f v1) i) w
          (opened_state-Stands f i v1 again wr.stands.ready.dma_in wr.stands.ready.apart)
          (record { cr_in = p.cr_in; ex_in = p.ex_in }) (omega (arith, z)) in
      let found : take 128 (drop (get_sequential_offset f + k * 128) (content v1.host i))
          ≡ get_or rs k [] =
        ap (λ b. take 128 (drop (get_sequential_offset f + k * 128) b)) wr.wrote
        ∙ read_stored rs f (content s1.host i) k a start h in
      let full : length (get_or rs k []) ≡ 128 = length-get_or rs k a h in
      (
        t,
        u,
        v,
        w,
        x,
        y,
        make_file-after f i s c,
        wr.goes,
        file_close-after wr.block fd name _ u wr.stands plain,
        file_open-after f i v there,
        goes,
        reads,
        delivered ∙ ap (sector 128) found ∙ sector_full 128 (get_or rs k []) full,
        flag ∙ ap end_flag found ∙ ap end_flag_of full,
      )
