-- ===== src/Emulator/Sound/Directory.antt =====
-- cpm/cpm_bdos.go: searching the directory, deleting and renaming files keep the invariant.
use cpmulator.Base.{
  ℕ, text_eq, ◌+◌, ◌≡◌, refl, sym, ◌∙◌, ap, Bool-cases, inl, inr, ◌||◌, none, some, Option, List,
  [], ◌∷◌, ◌++◌, Text, u16,
}
use cpmulator.Text.{utf8}
use cpmulator.FilePath.{join_path}
use cpmulator.Fcb
use cpmulator.Fcb.{Fcb, FcbFind}
use cpmulator.Host
use cpmulator.Host.Renaming
use cpmulator.Host.{Host, Call, Opened, get_inode, is_dir, add_path}
use cpmulator.Host.Renaming.{is_below, move_dir}
use cpmulator.Bdos.Random.{close_quietly}
use cpmulator.Assoc.{erase}
use mathlib.Core.Path.{subst}
use cpmulator.Host.Handles.{Extends, Extends-refl}
use cpmulator.Host.Fresh.{OpensFresh, open_file-Fresh}
use cpmulator.Cpm.{Cpm, Pairs, done, drive_path}
use cpmulator.Bdos.Console.{return_zero}
use cpmulator.Bdos.Block.{existing_name, block_letter, drive_letter}
use cpmulator.Bdos.Directory.{
  size_of, deliver_found, first_of, sorted_results, find_first_block, find_first, find_next,
  static_matches, search_dir, delete_all, delete_block, delete_file, rename_block, rename_file,
  result_at,
}
use cpmulator.Emulator.Sound.{
  IsSound, EndsSound, Keeps, option-EndsSound, with_fcb-EndsSound, with_stored-EndsSound,
}
use cpmulator.Emulator.Sound.Files.{moved}
use cpmulator.Emulator.Sound.Tables.{if-none}
use cpmulator.Emulator.Sound.Random.{close_quietly-Extends}

option-some :
    (o : Option ℕ) (k : ℕ → Host) (g : Host)
    → (elim o [ none ↦ none | some i ↦ some (k i) ]) ≡ some g
    → (i : ℕ) × (k i ≡ g)
option-some none k g e = absurd cc
option-some (some i) k g e = (i, ap (λ x. elim x [ none ↦ k i | some y ↦ y ]) e)

-- Files are removed and renamed without a handle.
remove-Extends : (p : Text) (h g : Host) → Host.remove p h ≡ some g → Extends h g
unfolding Host.remove
remove-Extends p h g e =
    let (b, found) = if-none (h.faults Call.removing p) g _ e in
    let (i, same) =
      option-some (get_inode h p) (λ i. record h { paths = erase text_eq p h.paths }) g found in
    subst (Extends h) same (Extends-refl h)

inode-none :
    (o : Option ℕ) (x g : Host) → (elim o [ none ↦ some x | some i ↦ none ]) ≡ some g → x ≡ g
inode-none none x g e = ap (λ y. elim y [ none ↦ x | some z ↦ z ]) e
inode-none (some i) x g e = absurd cc

rename_dir-Extends : (p q : Text) (h g : Host) → Renaming.rename_dir p q h ≡ some g → Extends h g
unfolding Renaming.rename_dir
rename_dir-Extends p q h g e = elim (Bool-cases (text_eq p q)) [
  | inl same ↦
      let stays : some h ≡ some g = sym (rw (same, Renaming.rename_dir) refl) ∙ e in
      subst (Extends h) (ap (λ y. elim y [ none ↦ h | some z ↦ z ]) stays) (Extends-refl h)
  | inr other ↦
      let (b, found) =
        if-none (is_dir q h.dirs || is_below p q) g _
          (sym (rw (other, Renaming.rename_dir) refl) ∙ e) in
      subst (Extends h) (inode-none (get_inode h q) (move_dir p q h) g found) (Extends-refl h)
]

rename_plain-Extends :
    (p q : Text) (h g : Host) → Renaming.rename_plain p q h ≡ some g → Extends h g
unfolding Renaming.rename_plain
rename_plain-Extends p q h g e =
    let (b, found) = if-none (is_dir q h.dirs) g _ e in
    let (i, same) =
      option-some (get_inode h p) (λ i. record h { paths = add_path q i (erase text_eq p h.paths) })
        g found in
    subst (Extends h) same (Extends-refl h)

rename-Extends : (p q : Text) (h g : Host) → Renaming.rename p q h ≡ some g → Extends h g
unfolding Renaming.rename
rename-Extends p q h g e =
    let (b, found) = if-none (h.faults Call.renaming p) g _ e in
    elim (Bool-cases (is_dir p h.dirs)) [
      | inl dir ↦ rename_dir-Extends p q h g (sym (rw (dir, Renaming.rename) refl) ∙ found)
      | inr file ↦ rename_plain-Extends p q h g (sym (rw (file, Renaming.rename) refl) ∙ found)
    ]

-- The size of an opened file, and the host after it is closed again.
abbrev sized : Host → Opened → Option ℕ × Host
sized h (Opened.opened fd g) = (Host.stat_size fd g, close_quietly fd g)
sized h Opened.not_exist = (none, h)
sized h Opened.failed = (none, h)

sized-Extends : (p : Text) (h : Host) (x : Opened) → OpensFresh h p x → Extends h (sized h x).1
sized-Extends p h (Opened.opened fd g) w = close_quietly-Extends h g fd p w
sized-Extends p h Opened.not_exist w = Extends-refl h
sized-Extends p h Opened.failed w = Extends-refl h

size_of-Extends : (p : Text) (h : Host) → Extends h (size_of p h).1
unfolding size_of
size_of-Extends p h = sized-Extends p h (Host.open_file p h) (open_file-Fresh p h)

deliver_found-EndsSound : (x : FcbFind) (s : Cpm) → IsSound s → EndsSound (deliver_found x s)
unfolding deliver_found
deliver_found-EndsSound x s v =
    with_stored-EndsSound s.dma _ (record s { host = (size_of x.host s.host).1 })
      (λ t. done (return_zero t))
      (λ m. moved s (size_of x.host s.host).1 v (size_of-Extends x.host s.host))

first_of-EndsSound : (ys : List FcbFind) (s : Cpm) → IsSound s → EndsSound (first_of ys s)
unfolding first_of
first_of-EndsSound [] s v = tt
first_of-EndsSound (y ∷ ys) s v =
    deliver_found-EndsSound y (record s { find_first_results = ys; find_offset = 0 }) v

sorted_results-EndsSound :
    (sort : List FcbFind → List FcbFind) (xs : List FcbFind) (s : Cpm)
    → IsSound s
    → EndsSound (sorted_results sort xs s)
unfolding sorted_results
sorted_results-EndsSound sort [] s v = v
sorted_results-EndsSound sort (x ∷ xs) s v = first_of-EndsSound (sort (x ∷ xs)) s v

pub find_next-Keeps : Keeps find_next
unfolding find_next
find_next-Keeps s v =
    option-EndsSound (result_at s.find_offset s.find_first_results) _ _ v
      (λ x e. deliver_found-EndsSound x (record s { find_offset = s.find_offset + 1 }) v)

delete_all-EndsSound : (xs : List FcbFind) (s : Cpm) → IsSound s → EndsSound (delete_all xs s)
unfolding delete_all
delete_all-EndsSound [] s v = v
delete_all-EndsSound (x ∷ xs) s v = option-EndsSound (Host.remove x.host s.host) _ _ v (λ h e.
    delete_all-EndsSound xs (record s { host = h })
      (moved s h v (remove-Extends x.host s.host h e)))

module _ (pairs : Pairs) where
  open pairs use {to_u16}

  pub find_first-Keeps : (sort : List FcbFind → List FcbFind) → Keeps (find_first pairs sort)
  unfolding find_first find_first_block
  find_first-Keeps sort s v =
      let s' : Cpm = record s { find_first_results = []; find_offset = 0 } in
      with_fcb-EndsSound (to_u16 s.cpu.de) s _ (λ f.
        option-EndsSound (Fcb.get_matches f (search_dir s) (Host.list_dir (search_dir s) s.host)) _
          _ v
          (λ res e.
            sorted_results-EndsSound sort (res ++ static_matches f (utf8 (drive_letter s)) s.static)
              s' v))

  pub delete_file-Keeps : Keeps (delete_file pairs)
  unfolding delete_file delete_block
  delete_file-Keeps s v = with_fcb-EndsSound (to_u16 s.cpu.de) s _ (λ f.
      let path = drive_path s (block_letter f s) in
      option-EndsSound (Fcb.get_matches f path (Host.list_dir path s.host)) _ _ v
        (λ res e. delete_all-EndsSound res s v))

  pub rename_file-Keeps : Keeps (rename_file pairs)
  unfolding rename_file rename_block
  rename_file-Keeps s v = with_fcb-EndsSound (to_u16 s.cpu.de) s _ (λ f.
      with_fcb-EndsSound (u16 (to_u16 s.cpu.de + 16)) s (λ g. rename_block f g s)
        (λ g.
          let path = search_dir s in
          let src = join_path path (existing_name path (Fcb.get_file_name f) s.host) in
          let dst = join_path path (Fcb.get_file_name g) in
          option-EndsSound (Renaming.rename src dst s.host) _ _ v
            (λ h e. moved s h v (rename-Extends src dst s.host h e))))
