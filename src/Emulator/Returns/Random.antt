-- ===== src/Emulator/Returns/Random.antt =====
-- cpm/cpm_bdos.go: the calls for random records and sizes return.
use cpmulator.Base.{
  ℕ, ◌+◌, ◌-◌, ◌*◌, ◌/◌, ◌%◌, ◌≤◌, ◌≡◌, ◌++◌, none, some, [], Text, drop, ◌==◌, if◌then◌else◌, leb,
  ltb, arith, length, take, replicate, length-append, length-take, length-replicate,
}
use cpmulator.Memory
use cpmulator.Fcb
use cpmulator.Fcb.{Fcb}
use cpmulator.Fcb.Sized.{IsSized}
use cpmulator.Host
use cpmulator.Host.{Host}
use cpmulator.Cpm.{Cpm, FileCache, Pairs, Result, done, set_a}
use cpmulator.Bdos.Console.{return_zero}
use cpmulator.Bdos.Block.{get_cache, cache_key, sector, read_static, static_path, with_stored}
use cpmulator.Bdos.Records.{length-sector}
use cpmulator.Bdos.Random.{
  read_rand, write_rand, file_size, rand_record, read_rand_block, read_rand_cached,
  read_rand_handle, read_rand_virtual, sys_read, read_at, return_result, pad_file, write_at,
  write_rand_block, write_rand_cached, write_rand_handle, store_random, file_size_block,
  file_size_host, current_name, rand_record_block, set_random, close_quietly, random_record,
  size_in_records,
}
use cpmulator.Emulator.Returns.{
  Returns, if-Returns, option-Returns, opened-Returns, with_stored-Returns, block-Returns,
  with_fcb-Returns,
}
use cpmulator.Emulator.Returns.Sizes.{counters-IsSized, increase-IsSized}

-- The host tells the size of every handle of the cache.
abbrev pub AllSized : Cpm → Type 0
AllSized s =
    (key fd : ℕ) (obj : FileCache)
    → get_cache key s ≡ some obj
    → obj.handle ≡ some fd
    → (size : ℕ) × (Host.stat_size fd s.host ≡ some size)

length-padded : (rest : Text) → length (take 128 rest ++ replicate (128 - length rest) 0) ≡ 128
length-padded rest =
    let zeros : Text = replicate (128 - length rest) 0 in
    let size : length zeros ≡ 128 - length rest = length-replicate (128 - length rest) 0 in
    omega (arith, length-append (take 128 rest) zeros, length-take 128 rest, size)

module _ (ptr : ℕ) (f : Fcb) (fits : ptr + 36 ≤ 65536) (sized : IsSized f) where
  read_at-Returns :
      (fd offset : ℕ) (s : Cpm) (k : ℕ → Cpm → Result)
      → s.dma + 128 ≤ 65536
      → ((res : ℕ) (t : Cpm) → Returns (k res t))
      → Returns (read_at fd offset s k)
  unfolding read_at
  read_at-Returns fd offset s k h w =
      option-Returns (Host.seek fd offset s.host) _ _ (w 0xff s) (λ g a.
        option-Returns (Host.read fd 128 g) _ _ (w 0xff (record s { host = g })) (λ r b.
          with_stored-Returns s.dma (sector 128 r.0) (record s { host = r.1 }) (k 0)
            (omega (arith, h, length-sector 128 r.0))
            (λ m. w 0 (record s { host = r.1; memory = m }))))

  sys_read-Returns :
      (fd offset size : ℕ) (s : Cpm) (k : ℕ → Cpm → Result)
      → Host.stat_size fd s.host ≡ some size
      → s.dma + 128 ≤ 65536
      → ((res : ℕ) (t : Cpm) → Returns (k res t))
      → Returns (sys_read fd offset s k)
  unfolding sys_read
  sys_read-Returns fd offset size s k e h w =
      rw (e, sys_read)
        (if-Returns (ltb size offset) _ _ (w 6 s) (read_at-Returns fd offset s k h w))

  read_rand_block-Returns :
      (s : Cpm) → AllSized s → s.dma + 128 ≤ 65536 → Returns (read_rand_block ptr f s)
  unfolding read_rand_block read_rand_cached read_rand_handle read_rand_virtual
  read_rand_block-Returns s v h = option-Returns (get_cache (cache_key f) s) _ _ tt (λ obj e.
      let file : Text = elim (read_static (static_path obj.name s) s) [
        | none ↦ []
        | some virt ↦ virt
      ] in
      let rest : Text = drop (random_record f * 128) file in
      option-Returns obj.handle _ _
        (with_stored-Returns s.dma _ s
          (λ t. done (return_result (if leb 128 (length rest) then 0 else 1) t))
          (omega (arith, h, length-padded rest)) (λ m. tt))
        (λ fd g.
          let (size, known) = v (cache_key f) fd obj e g in
          sys_read-Returns fd (random_record f * 128) size s
            (λ res u. with_stored ptr (Fcb.as_bytes f) u (λ t. done (return_result res t))) known h
            (λ res u.
              block-Returns ptr f u (λ t. done (return_result res t)) fits sized (λ m. tt))))

  write_at-Returns : (fd : ℕ) (s : Cpm) → Returns (write_at ptr f fd s)
  unfolding write_at
  write_at-Returns fd s =
      option-Returns (Host.seek fd (random_record f * 128) s.host) _ _ tt (λ h a.
        option-Returns (Host.write fd (Memory.get_range s.memory s.dma 128) h) _ _ tt (λ g b.
          block-Returns ptr (Fcb.increase_sequential_offset f) (record s { host = g })
            (λ t. done (return_zero t)) fits (increase-IsSized f sized) (λ m. tt)))

  write_rand_block-Returns : (s : Cpm) → Returns (write_rand_block ptr f s)
  unfolding write_rand_block write_rand_cached write_rand_handle
  write_rand_block-Returns s = option-Returns (get_cache (cache_key f) s) _ _ tt (λ obj e.
      option-Returns obj.handle _ _ tt (λ fd g.
        option-Returns (Host.stat_size fd s.host) _ _ tt (λ size a.
          let n : ℕ = random_record f * 128 - size in
          if-Returns (pad_file n fd s.host).1 _ _
            (write_at-Returns fd (record s { host = (pad_file n fd s.host).0 })) tt)))

  store_random-Returns : (n : ℕ) (s : Cpm) → Returns (store_random ptr f n s)
  unfolding store_random set_random
  store_random-Returns n s =
      if-Returns (random_record (set_random n f) == n) _ _
        (block-Returns ptr (set_random n f) s (λ t. done (set_a 0 t)) fits
          (counters-IsSized f f.rc (n % 256) (n / 256 % 256) (n / 65536 % 256) sized) (λ m. tt))
        tt

  file_size_block-Returns : (s : Cpm) → Returns (file_size_block ptr f s)
  unfolding file_size_block file_size_host
  file_size_block-Returns s =
      let name : Text = current_name f s in
      option-Returns (read_static (static_path name s) s) _ _
        (opened-Returns (Host.open_file name s.host) _ _ _
          (λ fd h. option-Returns (Host.stat_size fd h) _ _ tt (λ size e.
            store_random-Returns (size_in_records size) (record s { host = close_quietly fd h })))
          tt tt)
        (λ virt e. store_random-Returns (size_in_records (length virt)) s)

module _ (pairs : Pairs) (s : Cpm) (fits : pairs.to_u16 s.cpu.de + 36 ≤ 65536) where
  open pairs use {to_u16}

  pub read_rand-Returns : AllSized s → s.dma + 128 ≤ 65536 → Returns (read_rand pairs s)
  unfolding read_rand
  read_rand-Returns v h =
      with_fcb-Returns (to_u16 s.cpu.de) s _
        (λ f w. read_rand_block-Returns (to_u16 s.cpu.de) f fits w s v h)

  pub write_rand-Returns : Returns (write_rand pairs s)
  unfolding write_rand
  write_rand-Returns =
      with_fcb-Returns (to_u16 s.cpu.de) s _
        (λ f w. write_rand_block-Returns (to_u16 s.cpu.de) f fits w s)

  pub file_size-Returns : Returns (file_size pairs s)
  unfolding file_size
  file_size-Returns =
      with_fcb-Returns (to_u16 s.cpu.de) s _
        (λ f w. file_size_block-Returns (to_u16 s.cpu.de) f fits w s)

  pub rand_record-Returns : Returns (rand_record pairs s)
  unfolding rand_record rand_record_block
  rand_record-Returns =
      with_fcb-Returns (to_u16 s.cpu.de) s _
        (λ f w. store_random-Returns (to_u16 s.cpu.de) f fits w (Fcb.get_sequential_offset f) s)
