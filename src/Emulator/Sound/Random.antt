-- ===== src/Emulator/Sound/Random.antt =====
-- cpm/cpm_bdos.go: the calls for random records and sizes keep the invariant.
use cpmulator.Base.{
  zero, suc, ◌-◌, ◌∷◌, ℕ, Option-cases, inl, inr, ◌*◌, none, some, [], Text, ◌==◌, length, drop,
  if◌then◌else◌, leb, ltb,
}
use cpmulator.Fcb
use cpmulator.Fcb.{Fcb}
use cpmulator.Host
use cpmulator.Host.{Host}
use cpmulator.Host.Handles.{
  Extends, Extends-refl, Extends-trans, seek-Extends, read-Extends, write-Extends,
}
use cpmulator.Host.Fresh.{Fresh, open_file-Fresh, closed-Extends}
use cpmulator.Cpm.{Cpm, Pairs, Result, done, set_a}
use cpmulator.Bdos.Console.{return_zero}
use cpmulator.Bdos.Block.{get_cache, cache_key, sector, read_static, static_path, with_stored}
use cpmulator.Emulator.Sound.{
  IsSound, EndsSound, Keeps, if-EndsSound, option-EndsSound, with_fcb-EndsSound,
  with_stored-EndsSound, opened-EndsSound,
}
use cpmulator.Emulator.Sound.Files.{moved}
use cpmulator.Emulator.Sound.Records.{seek-write-EndsSound}
use cpmulator.Bdos.Random.{
  read_rand, write_rand, file_size, rand_record, read_rand_block, read_rand_cached,
  read_rand_handle, read_rand_virtual, sys_read, read_at, return_result, pad_file, write_at,
  write_rand_block, write_rand_cached, write_rand_handle, store_random, file_size_block,
  file_size_host, current_name, rand_record_block, set_random, close_quietly, random_record,
  size_in_records,
}

write_at-EndsSound :
    (ptr : ℕ) (f : Fcb) (fd : ℕ) (s : Cpm) → IsSound s → EndsSound (write_at ptr f fd s)
unfolding write_at
write_at-EndsSound ptr f fd s v =
    seek-write-EndsSound ptr (random_record f * 128) fd (Fcb.increase_sequential_offset f) s
      (λ t. done (return_zero t)) v (λ h m x. x)

sys_read-EndsSound :
    (fd offset : ℕ) (s : Cpm) (k : ℕ → Cpm → Result)
    → IsSound s
    → ((res : ℕ) (t : Cpm) → IsSound t → EndsSound (k res t))
    → EndsSound (sys_read fd offset s k)
unfolding sys_read read_at
sys_read-EndsSound fd offset s k v w = option-EndsSound (Host.stat_size fd s.host) _ _ tt (λ size e.
    if-EndsSound (ltb size offset) _ _ (w 6 s v) (
      option-EndsSound (Host.seek fd offset s.host) _ _ (w 0xff s v) (λ h a.
        let sought = seek-Extends fd s.host offset h a in
        option-EndsSound (Host.read fd 128 h) _ _
          (w 0xff (record s { host = h }) (moved s h v sought))
          (λ r b.
            with_stored-EndsSound s.dma (sector 128 r.0) (record s { host = r.1 }) (k 0)
              (λ m.
                w 0 (record s { host = r.1; memory = m })
                  (moved s r.1 v
                    (Extends-trans s.host h r.1 sought (read-Extends fd h 128 r b))))))))

read_rand_block-EndsSound :
    (ptr : ℕ) (f : Fcb) (s : Cpm) → IsSound s → EndsSound (read_rand_block ptr f s)
unfolding read_rand_block read_rand_cached read_rand_handle read_rand_virtual
read_rand_block-EndsSound ptr f s v = option-EndsSound (get_cache (cache_key f) s) _ _ v (λ obj e.
    let file : Text = elim (read_static (static_path obj.name s) s) [
      | none ↦ []
      | some virt ↦ virt
    ] in
    let rest : Text = drop (random_record f * 128) file in
    option-EndsSound obj.handle _ _
      (with_stored-EndsSound s.dma _ s
        (λ t. done (return_result (if leb 128 (length rest) then 0 else 1) t)) (λ m. v))
      (λ fd g.
        sys_read-EndsSound fd (random_record f * 128) s
          (λ res u. with_stored ptr (Fcb.as_bytes f) u (λ t. done (return_result res t))) v
          (λ res u w.
            with_stored-EndsSound ptr (Fcb.as_bytes f) u (λ t. done (return_result res t))
              (λ m. w))))

pad_file-Extends : (n fd : ℕ) (h : Host) → Extends h (pad_file n fd h).0
unfolding pad_file
pad_file-Extends zero fd h = Extends-refl h
pad_file-Extends (suc n) fd h = elim (Option-cases (Host.write fd (0 ∷ []) h)) [
  | inl e ↦ rw (e, pad_file) (Extends-refl h)
  | inr (g, e) ↦
      rw (e, pad_file)
        (Extends-trans h g (pad_file n fd g).0 (write-Extends fd h (0 ∷ []) g e)
          (pad_file-Extends n fd g))
]

write_rand_block-EndsSound :
    (ptr : ℕ) (f : Fcb) (s : Cpm) → IsSound s → EndsSound (write_rand_block ptr f s)
unfolding write_rand_block write_rand_cached write_rand_handle
write_rand_block-EndsSound ptr f s v = option-EndsSound (get_cache (cache_key f) s) _ _ v (λ obj e.
    option-EndsSound obj.handle _ _ v (λ fd g.
      option-EndsSound (Host.stat_size fd s.host) _ _ v (λ size a.
        let n : ℕ = random_record f * 128 - size in
        let padded = moved s (pad_file n fd s.host).0 v (pad_file-Extends n fd s.host) in
        if-EndsSound (pad_file n fd s.host).1 _ _
          (write_at-EndsSound ptr f fd (record s { host = (pad_file n fd s.host).0 }) padded)
          padded)))

store_random-EndsSound :
    (ptr : ℕ) (f : Fcb) (n : ℕ) (s : Cpm) → IsSound s → EndsSound (store_random ptr f n s)
unfolding store_random
store_random-EndsSound ptr f n s v =
    if-EndsSound (random_record (set_random n f) == n) _ _
      (with_stored-EndsSound ptr _ s (λ t. done (set_a 0 t)) (λ m. v)) v

-- A file that was opened and is closed again leaves the others open.
pub close_quietly-Extends :
    (g h : Host) (fd : ℕ) (p : Text) → Fresh g h fd p → Extends g (close_quietly fd h)
close_quietly-Extends g h fd p w = closed-Extends g h fd w.extends w.late

file_size_block-EndsSound :
    (ptr : ℕ) (f : Fcb) (s : Cpm) → IsSound s → EndsSound (file_size_block ptr f s)
unfolding file_size_block file_size_host
file_size_block-EndsSound ptr f s v =
    let name : Text = current_name f s in
    option-EndsSound (read_static (static_path name s) s) _ _
      (opened-EndsSound s.host name (Host.open_file name s.host) _ _ _ (open_file-Fresh name s.host)
        (λ fd h w.
          let closed = moved s (close_quietly fd h) v (close_quietly-Extends s.host h fd name w) in
          option-EndsSound (Host.stat_size fd h) _ _ closed (λ size e.
            store_random-EndsSound ptr f (size_in_records size)
              (record s { host = close_quietly fd h }) closed))
        v v)
      (λ virt e. store_random-EndsSound ptr f (size_in_records (length virt)) s v)

module _ (pairs : Pairs) where
  open pairs use {to_u16}

  pub read_rand-Keeps : Keeps (read_rand pairs)
  unfolding read_rand
  read_rand-Keeps s v =
      with_fcb-EndsSound (to_u16 s.cpu.de) s _
        (λ f. read_rand_block-EndsSound (to_u16 s.cpu.de) f s v)

  pub write_rand-Keeps : Keeps (write_rand pairs)
  unfolding write_rand
  write_rand-Keeps s v =
      with_fcb-EndsSound (to_u16 s.cpu.de) s _
        (λ f. write_rand_block-EndsSound (to_u16 s.cpu.de) f s v)

  pub file_size-Keeps : Keeps (file_size pairs)
  unfolding file_size
  file_size-Keeps s v =
      with_fcb-EndsSound (to_u16 s.cpu.de) s _
        (λ f. file_size_block-EndsSound (to_u16 s.cpu.de) f s v)

  pub rand_record-Keeps : Keeps (rand_record pairs)
  unfolding rand_record rand_record_block
  rand_record-Keeps s v =
      with_fcb-EndsSound (to_u16 s.cpu.de) s _
        (λ f. store_random-EndsSound (to_u16 s.cpu.de) f (Fcb.get_sequential_offset f) s v)
