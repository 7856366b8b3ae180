-- ===== src/Emulator/Sound/Records.antt =====
-- cpm/cpm_bdos.go: the calls for sequential records keep the invariant.
use cpmulator.Base.{ℕ, none, some, Text}
use cpmulator.Memory
use cpmulator.Fcb
use cpmulator.Fcb.{Fcb}
use cpmulator.Host
use cpmulator.Host.{Host}
use cpmulator.Host.Handles.{Extends-trans, seek-Extends, read-Extends, write-Extends}
use cpmulator.Cpm.{Cpm, Pairs, Result, Error, fails, done, set_a}
use cpmulator.Bdos.Block.{get_cache, cache_key, with_stored}
use cpmulator.Bdos.Files.{
  read, write, read_block, read_cached, read_handle, read_virtual, deliver, after_write,
  write_block, write_cached, write_handle,
}
use cpmulator.Emulator.Sound.{
  IsSound, EndsSound, Keeps, option-EndsSound, with_fcb-EndsSound, with_stored-EndsSound,
}
use cpmulator.Emulator.Sound.Files.{moved}

deliver-EndsSound :
    (ptr : ℕ) (f : Fcb) (bytes : Text) (a : ℕ) (s : Cpm)
    → IsSound s
    → EndsSound (deliver ptr f bytes a s)
unfolding deliver
deliver-EndsSound ptr f bytes a s v =
    let next = Fcb.as_bytes (Fcb.increase_sequential_offset f) in
    with_stored-EndsSound s.dma bytes s (λ t. with_stored ptr next t (λ u. done (set_a a u)))
      (λ m.
        with_stored-EndsSound ptr next (record s { memory = m }) (λ u. done (set_a a u)) (λ n. v))

read_block-EndsSound : (ptr : ℕ) (f : Fcb) (s : Cpm) → IsSound s → EndsSound (read_block ptr f s)
unfolding read_block read_cached read_handle read_virtual
read_block-EndsSound ptr f s v = option-EndsSound (get_cache (cache_key f) s) _ _ v (λ obj e.
    option-EndsSound obj.handle _ _ (deliver-EndsSound ptr f _ _ s v) (λ fd g.
      option-EndsSound (Host.seek fd (Fcb.get_sequential_offset f) s.host) _ _ v (λ h a.
        let sought = seek-Extends fd s.host (Fcb.get_sequential_offset f) h a in
        option-EndsSound (Host.read fd 128 h) _ _ (moved s h v sought) (λ r b.
          deliver-EndsSound ptr f _ _ (record s { host = r.1 })
            (moved s r.1 v (Extends-trans s.host h r.1 sought (read-Extends fd h 128 r b)))))))

-- A record is written where the handle stands after a seek.
pub seek-write-EndsSound :
    (ptr offset fd : ℕ) (f : Fcb) (s : Cpm) (k : Cpm → Result)
    → IsSound s
    → ((h : Host) (m : Memory.Memory)
        → IsSound (record s { host = h })
        → EndsSound (k (record s { host = h; memory = m })))
    → EndsSound (elim (Host.seek fd offset s.host) [
      | none ↦ fails Error.other s
      | some h ↦ elim (Host.write fd (Memory.get_range s.memory s.dma 128) h) [
        | none ↦ fails Error.other (record s { host = h })
        | some h' ↦ with_stored ptr (Fcb.as_bytes f) (record s { host = h' }) k
      ]
    ])
seek-write-EndsSound ptr offset fd f s k v w =
    option-EndsSound (Host.seek fd offset s.host) _ _ v (λ h a.
      let sought = seek-Extends fd s.host offset h a in
      let bytes = Memory.get_range s.memory s.dma 128 in
      option-EndsSound (Host.write fd bytes h) _ _ (moved s h v sought) (λ g b.
        with_stored-EndsSound ptr (Fcb.as_bytes f) (record s { host = g }) k
          (λ m.
            w g m (moved s g v (Extends-trans s.host h g sought (write-Extends fd h bytes g b))))))

write_block-EndsSound : (ptr : ℕ) (f : Fcb) (s : Cpm) → IsSound s → EndsSound (write_block ptr f s)
unfolding write_block write_cached write_handle
write_block-EndsSound ptr f s v = option-EndsSound (get_cache (cache_key f) s) _ _ v (λ obj e.
    option-EndsSound obj.handle _ _ v (λ fd g.
      seek-write-EndsSound ptr (Fcb.get_sequential_offset f) fd (after_write f) s
        (λ t. done (set_a 0 t)) v (λ h m x. x)))

module _ (pairs : Pairs) where
  open pairs use {to_u16}

  pub read-Keeps : Keeps (read pairs)
  unfolding read
  read-Keeps s v =
      with_fcb-EndsSound (to_u16 s.cpu.de) s _ (λ f. read_block-EndsSound (to_u16 s.cpu.de) f s v)

  pub write-Keeps : Keeps (write pairs)
  unfolding write
  write-Keeps s v =
      with_fcb-EndsSound (to_u16 s.cpu.de) s _ (λ f. write_block-EndsSound (to_u16 s.cpu.de) f s v)
