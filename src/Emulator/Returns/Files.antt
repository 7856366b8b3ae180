-- ===== src/Emulator/Returns/Files.antt =====
-- cpm/cpm_bdos.go: the calls that open, make and close files, and their sequential records, return.
use cpmulator.Base.{ℕ, ◌+◌, ◌≤◌, none, some, [], Text, length, text_eq, u8, ◌/◌, ◌%◌, arith, ◌==◌}
use cpmulator.Text.{contains}
use cpmulator.Memory
use cpmulator.Fcb
use cpmulator.Fcb.{Fcb}
use cpmulator.Fcb.Sized.{IsSized}
use cpmulator.Host
use cpmulator.Host.{Host}
use cpmulator.Assoc.{erase}
use cpmulator.Cpm.{Cpm, Pairs, done, set_a}
use cpmulator.Bdos.Console.{return_zero}
use cpmulator.Bdos.Block.{
  get_cache, cache_key, read_static, static_path, record_count, sector, with_stored,
}
use cpmulator.Bdos.Records.{length-sector}
use cpmulator.Bdos.Files.{
  file_open, file_close, make_file, open_block, open_host, open_virtual, opened_file, made_file,
  make_block, host_name, add_cache, close_block, close_cached, close_handle, cut, read, write,
  read_block, read_cached, read_handle, read_virtual, deliver, after_write, write_block,
  write_cached, write_handle,
}
use cpmulator.Emulator.Returns.{
  Returns, if-Returns, option-Returns, opened-Returns, with_stored-Returns, block-Returns,
  with_fcb-Returns,
}
use cpmulator.Emulator.Returns.Sizes.{al-IsSized, increase-IsSized, after_write-IsSized}

module _ (ptr : ℕ) (f : Fcb) (fits : ptr + 36 ≤ 65536) (sized : IsSized f) where
  opened_file-Returns : (name : Text) (fd : ℕ) (s : Cpm) → Returns (opened_file ptr f name fd s)
  unfolding opened_file
  opened_file-Returns name fd s = option-Returns (Host.stat_size fd s.host) _ _ tt (λ size e.
      block-Returns ptr _ s (λ t. done (return_zero t)) fits
        (al-IsSized f (record_count size) (ptr % 256) (u8 (ptr / 256)) sized) (λ m. tt))

  open_block-Returns : (s : Cpm) → Returns (open_block ptr f s)
  unfolding open_block open_host open_virtual
  open_block-Returns s =
      let name : Text = host_name f s in
      if-Returns (text_eq (Fcb.get_file_name f) []) _ _ tt (
        option-Returns (read_static (static_path name s) s) _ _
          (opened-Returns (Host.open_file name s.host) _ _ _
            (λ fd h.
              opened_file-Returns name fd
                (add_cache ptr (record { name = name; handle = some fd }) (record s { host = h })))
            tt tt)
          (λ virt e.
            block-Returns ptr _ (add_cache ptr (record { name = name; handle = none }) s)
              (λ t. done (set_a 0 t)) fits
              (al-IsSized f (record_count (length virt)) (ptr % 256) (u8 (ptr / 256)) sized)
              (λ m. tt)))

  make_block-Returns : (s : Cpm) → Returns (make_block ptr f s)
  unfolding make_block made_file
  make_block-Returns s =
      let name : Text = host_name f s in
      if-Returns (text_eq (Fcb.get_file_name f) []) _ _ tt (
        opened-Returns (Host.create_file name s.host) _ _ _
          (λ fd h. option-Returns (Host.stat_size fd h) _ _ tt (λ size e.
            block-Returns ptr _
              (add_cache ptr (record { name = name; handle = some fd }) (record s { host = h }))
              (λ t. done (return_zero t)) fits
              (al-IsSized f (record_count size) (ptr % 256) (u8 (ptr / 256)) sized) (λ m. tt)))
          tt tt)

  close_handle-Returns : (fd : ℕ) (s : Cpm) → Returns (close_handle ptr f fd s)
  unfolding close_handle
  close_handle-Returns fd s = option-Returns (Host.close fd s.host) _ _ tt (λ h c.
      block-Returns ptr _ (record s { host = h; files = erase ◌==◌ (cache_key f) s.files })
        (λ t. done (return_zero t)) fits (al-IsSized f f.rc 0 0 sized) (λ m. tt))

  close_block-Returns : (s : Cpm) → Returns (close_block ptr f s)
  unfolding close_block close_cached
  close_block-Returns s = option-Returns (get_cache (cache_key f) s) _ _ tt (λ obj e.
      option-Returns obj.handle _ _ tt (λ fd g.
        if-Returns (contains b'$' obj.name) _ _
          (option-Returns (cut f fd s.host) _ _ tt
            (λ h c. close_handle-Returns fd (record s { host = h })))
          (close_handle-Returns fd s)))

  deliver-Returns :
      (bytes : Text) (a : ℕ) (s : Cpm)
      → s.dma + length bytes ≤ 65536
      → Returns (deliver ptr f bytes a s)
  unfolding deliver
  deliver-Returns bytes a s h =
      let next = Fcb.as_bytes (Fcb.increase_sequential_offset f) in
      with_stored-Returns s.dma bytes s (λ t. with_stored ptr next t (λ u. done (set_a a u))) h
        (λ m.
          block-Returns ptr (Fcb.increase_sequential_offset f) (record s { memory = m })
            (λ u. done (set_a a u)) fits (increase-IsSized f sized) (λ n. tt))

  -- A record ends within the RAM, where the DMA area does.
  sector-Returns :
      (rest : Text) (a : ℕ) (s : Cpm)
      → s.dma + 128 ≤ 65536
      → Returns (deliver ptr f (sector 128 rest) a s)
  sector-Returns rest a s h =
      deliver-Returns (sector 128 rest) a s (omega (arith, h, length-sector 128 rest))

  read_block-Returns : (s : Cpm) → s.dma + 128 ≤ 65536 → Returns (read_block ptr f s)
  unfolding read_block read_cached read_handle read_virtual
  read_block-Returns s k = option-Returns (get_cache (cache_key f) s) _ _ tt (λ obj e.
      option-Returns obj.handle _ _ (sector-Returns _ _ s k) (λ fd g.
        option-Returns (Host.seek fd (Fcb.get_sequential_offset f) s.host) _ _ tt (λ h a.
          option-Returns (Host.read fd 128 h) _ _ tt
            (λ r b. sector-Returns r.0 _ (record s { host = r.1 }) k))))

  write_block-Returns : (s : Cpm) → Returns (write_block ptr f s)
  unfolding write_block write_cached write_handle
  write_block-Returns s = option-Returns (get_cache (cache_key f) s) _ _ tt (λ obj e.
      option-Returns obj.handle _ _ tt (λ fd g.
        option-Returns (Host.seek fd (Fcb.get_sequential_offset f) s.host) _ _ tt (λ h a.
          option-Returns (Host.write fd (Memory.get_range s.memory s.dma 128) h) _ _ tt (λ r b.
            block-Returns ptr (after_write f) (record s { host = r }) (λ t. done (set_a 0 t)) fits
              (after_write-IsSized f sized) (λ m. tt)))))

module _ (pairs : Pairs) (s : Cpm) (fits : pairs.to_u16 s.cpu.de + 36 ≤ 65536) where
  open pairs use {to_u16}

  pub file_open-Returns : Returns (file_open pairs s)
  unfolding file_open
  file_open-Returns =
      with_fcb-Returns (to_u16 s.cpu.de) s _
        (λ f v. open_block-Returns (to_u16 s.cpu.de) f fits v s)

  pub make_file-Returns : Returns (make_file pairs s)
  unfolding make_file
  make_file-Returns =
      with_fcb-Returns (to_u16 s.cpu.de) s _
        (λ f v. make_block-Returns (to_u16 s.cpu.de) f fits v s)

  pub file_close-Returns : Returns (file_close pairs s)
  unfolding file_close
  file_close-Returns =
      with_fcb-Returns (to_u16 s.cpu.de) s _
        (λ f v. close_block-Returns (to_u16 s.cpu.de) f fits v s)

  pub read-Returns : s.dma + 128 ≤ 65536 → Returns (read pairs s)
  unfolding read
  read-Returns h =
      with_fcb-Returns (to_u16 s.cpu.de) s _
        (λ f v. read_block-Returns (to_u16 s.cpu.de) f fits v s h)

  pub write-Returns : Returns (write pairs s)
  unfolding write
  write-Returns =
      with_fcb-Returns (to_u16 s.cpu.de) s _
        (λ f v. write_block-Returns (to_u16 s.cpu.de) f fits v s)
