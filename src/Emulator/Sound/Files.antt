-- ===== src/Emulator/Sound/Files.antt =====
-- cpm/cpm_bdos.go: the calls that open, make and close files keep the invariant.
use cpmulator.Base.{ℕ, Option-cases, inl, inr, ◌≡◌, ap, none, some, Option, [], Text, ◌==◌, text_eq}
use mathlib.Core.Path.{subst}
use cpmulator.Text.{contains}
use cpmulator.Fcb
use cpmulator.Fcb.{Fcb}
use cpmulator.Host
use cpmulator.Host.{Host}
use cpmulator.Host.Handles.{
  Extends, Extends-refl, Extends-trans, seek_end-Extends, truncate-Extends,
}
use cpmulator.Host.Fresh.{Fresh, open_file-Fresh, create_file-Fresh}
use cpmulator.Assoc.{erase}
use cpmulator.Cpm.{Cpm, FileCache, Pairs, done, set_a}
use cpmulator.Bdos.Console.{return_zero}
use cpmulator.Bdos.Block.{get_cache, cache_key, read_static, static_path}
use cpmulator.Bdos.Files.{
  file_open, file_close, make_file, open_block, open_host, open_virtual, opened_file, made_file,
  make_block, host_name, add_cache, close_block, close_cached, close_handle, cut, cut_size,
  size_at_end,
}
use cpmulator.Emulator.Sound.{
  IsSound, EndsSound, Keeps, if-EndsSound, option-EndsSound, with_fcb-EndsSound,
  with_stored-EndsSound, opened-EndsSound,
}
use cpmulator.Emulator.Sound.Tables.{
  Extends-IsOpenTable, virtual-IsOpenTable, opened-IsOpenTable, closed-IsOpenTable, close-cached,
}

pub moved : (s : Cpm) (h : Host) → IsSound s → Extends s.host h → IsSound (record s { host = h })
moved s h (files, drv, user) e = (Extends-IsOpenTable s.files s.host h files e, drv, user)

-- The state with a file that has just been opened.
added :
    (s : Cpm) (h : Host) (ptr fd : ℕ) (name : Text)
    → IsSound s
    → Fresh s.host h fd name
    → IsSound (add_cache ptr (record { name = name; handle = some fd }) (record s { host = h }))
added s h ptr fd name (files, drv, user) w =
    (opened-IsOpenTable s.files s.host h fd ptr name files w, drv, user)

opened_file-EndsSound :
    (ptr : ℕ) (f : Fcb) (name : Text) (fd : ℕ) (s : Cpm)
    → IsSound s
    → EndsSound (opened_file ptr f name fd s)
unfolding opened_file
opened_file-EndsSound ptr f name fd s v =
    option-EndsSound (Host.stat_size fd s.host) _ _ v
      (λ size e. with_stored-EndsSound ptr _ s (λ t. done (return_zero t)) (λ m. v))

open_block-EndsSound : (ptr : ℕ) (f : Fcb) (s : Cpm) → IsSound s → EndsSound (open_block ptr f s)
unfolding open_block open_host open_virtual
open_block-EndsSound ptr f s v =
    let name : Text = host_name f s in
    if-EndsSound (text_eq (Fcb.get_file_name f) []) _ _ v (
      option-EndsSound (read_static (static_path name s) s) _ _
        (opened-EndsSound s.host name (Host.open_file name s.host) _ _ _
          (open_file-Fresh name s.host)
          (λ fd h w. opened_file-EndsSound ptr f name fd _ (added s h ptr fd name v w)) v v)
        (λ virt e.
          with_stored-EndsSound ptr _ (add_cache ptr (record { name = name; handle = none }) s)
            (λ t. done (set_a 0 t))
            (λ m. (virtual-IsOpenTable s.files s.host ptr name v.0, v.1, v.2))))

make_block-EndsSound : (ptr : ℕ) (f : Fcb) (s : Cpm) → IsSound s → EndsSound (make_block ptr f s)
unfolding make_block made_file
make_block-EndsSound ptr f s v =
    let name : Text = host_name f s in
    if-EndsSound (text_eq (Fcb.get_file_name f) []) _ _ v (
      opened-EndsSound s.host name (Host.create_file name s.host) _ _ _
        (create_file-Fresh name s.host)
        (λ fd h w. option-EndsSound (Host.stat_size fd h) _ _ (moved s h v w.extends) (λ size e.
          with_stored-EndsSound ptr _
            (add_cache ptr (record { name = name; handle = some fd }) (record s { host = h }))
            (λ t. done (return_zero t)) (λ m. added s h ptr fd name v w)))
        v v)

close_handle-EndsSound :
    (ptr : ℕ) (f : Fcb) (fd : ℕ) (obj : FileCache) (s : Cpm)
    → IsSound s
    → get_cache (cache_key f) s ≡ some obj
    → obj.handle ≡ some fd
    → EndsSound (close_handle ptr f fd s)
unfolding close_handle
close_handle-EndsSound ptr f fd obj s v e g =
    let h : Host = Host.closed fd s.host in
    let can = close-cached s.files s.host (cache_key f) fd obj v.0 e g in
    rw (can, close_handle)
      (with_stored-EndsSound ptr _ (record s { host = h; files = erase ◌==◌ (cache_key f) s.files })
        (λ t. done (return_zero t))
        (λ m. (closed-IsOpenTable s.files s.host (cache_key f) fd obj v.0 e g, v.1, v.2)))

size_at_end-Extends : (fd : ℕ) (h : Host) → Extends h (size_at_end fd h).1
size_at_end-Extends fd h = elim (Option-cases (Host.seek_end fd h)) [
  | inl e ↦ rw (e, size_at_end) (Extends-refl h)
  | inr (r, e) ↦ rw (e, size_at_end) (seek_end-Extends fd h r e)
]

cut-Extends : (f : Fcb) (fd : ℕ) (h g : Host) → cut f fd h ≡ some g → Extends h g
unfolding cut
cut-Extends f fd h g e = cases (cut_size f (size_at_end fd h).0) e
  where
    cases :
        (o : Option ℕ)
        → (elim o [
          | none ↦ some (size_at_end fd h).1
          | some n ↦ Host.truncate fd n (size_at_end fd h).1
        ])
          ≡ some g
        → Extends h g
    cases none e =
        subst (Extends h) (ap (λ x. elim x [ none ↦ g | some y ↦ y ]) e) (size_at_end-Extends fd h)
    cases (some n) e =
        Extends-trans h (size_at_end fd h).1 g (size_at_end-Extends fd h)
          (truncate-Extends fd (size_at_end fd h).1 n g e)

close_block-EndsSound : (ptr : ℕ) (f : Fcb) (s : Cpm) → IsSound s → EndsSound (close_block ptr f s)
unfolding close_block close_cached
close_block-EndsSound ptr f s v = option-EndsSound (get_cache (cache_key f) s) _ _ v (λ obj e.
    option-EndsSound obj.handle _ _ v (λ fd g.
      if-EndsSound (contains b'$' obj.name) _ _
        (option-EndsSound (cut f fd s.host) _ _ (moved s _ v (size_at_end-Extends fd s.host))
          (λ h c.
            close_handle-EndsSound ptr f fd obj (record s { host = h })
              (moved s h v (cut-Extends f fd s.host h c)) e g))
        (close_handle-EndsSound ptr f fd obj s v e g)))

module _ (pairs : Pairs) where
  open pairs use {to_u16}

  pub file_open-Keeps : Keeps (file_open pairs)
  unfolding file_open
  file_open-Keeps s v =
      with_fcb-EndsSound (to_u16 s.cpu.de) s _ (λ f. open_block-EndsSound (to_u16 s.cpu.de) f s v)

  pub make_file-Keeps : Keeps (make_file pairs)
  unfolding make_file
  make_file-Keeps s v =
      with_fcb-EndsSound (to_u16 s.cpu.de) s _ (λ f. make_block-EndsSound (to_u16 s.cpu.de) f s v)

  pub file_close-Keeps : Keeps (file_close pairs)
  unfolding file_close
  file_close-Keeps s v =
      with_fcb-EndsSound (to_u16 s.cpu.de) s _ (λ f. close_block-EndsSound (to_u16 s.cpu.de) f s v)
