-- ===== src/Bdos/Kept.antt =====
-- cpm/cpm_bdos.go: the file that a block names, while files are read and written.
use cpmulator.Base.{
  ℕ, ◌+◌, ◌≤◌, ◌≡◌, if◌then◌else◌, ◌==◌, u8, ap₂, refl, ap, sym, ◌∙◌, none, some, List, [], Text,
  text_eq,
}
use mathlib.Core.Path.{subst}
use cpmulator.Text.{utf8}
use cpmulator.Assoc.{lookup}
use cpmulator.FilePath.{join_path, base}
use cpmulator.Fcb.{Fcb, get_file_name}
use cpmulator.Host.{Host, is_dir, list_dir}
use cpmulator.Host.Opening.{IsFile}
use cpmulator.Cpm.{Cpm, drive_path}
use cpmulator.Bdos.Block.{existing_name, block_letter, static_path}
use cpmulator.Bdos.Files.{host_name}
use cpmulator.Bdos.Files.Opened.{IsThere}
use cpmulator.Bdos.Writes.{Kept}

-- The directory is read as before.
existing_name-same :
    (path name : Text) (g h : Host)
    → g.dirs ≡ h.dirs
    → g.paths ≡ h.paths
    → g.faults ≡ h.faults
    → existing_name path name g ≡ existing_name path name h
unfolding existing_name list_dir
existing_name-same path name g h d p f = rw (d, p, f, existing_name) refl

-- `drive_path` by the map of the drives.
drive_in : ℕ → List (Text × Text) → Text
drive_in letter m = elim (lookup text_eq (utf8 letter) m) [ none ↦ [] | some p ↦ p ]

host_name-Kept : (f : Fcb) (s t : Cpm) → Kept s t → host_name f t ≡ host_name f s
unfolding drive_path drive_in
host_name-Kept f s t (d, p, e, r, st, c, m, de) =
    let letter : block_letter f t ≡ block_letter f s =
      ap (λ n. if f.drive == 0 then u8 (n + b'A') else u8 (u8 (f.drive + b'A') + 255)) c in
    let path : drive_path t (block_letter f t) ≡ drive_path s (block_letter f s) =
      ap₂ (λ a m. drive_in a m) letter r in
    ap₂ (λ a b. join_path a (existing_name a (get_file_name f) b)) path refl
    ∙ ap (join_path (drive_path s (block_letter f s)))
        (existing_name-same (drive_path s (block_letter f s)) (get_file_name f) t.host s.host d p e)

pub IsThere-Kept :
    (ptr ptr' : ℕ) (f : Fcb) (i : ℕ) (s t : Cpm)
    → Kept s t
    → IsThere ptr f i s
    → ptr' + 36 ≤ 65536
    → IsThere ptr' f i t
IsThere-Kept ptr ptr' f i s t k v h =
    let same = host_name-Kept f s t k in
    let (d, p, e, r, st, c, m, de) = k in
    let (works, dir, found) = v.on_host in
    let letter = ap (λ n. utf8 (u8 (n + b'A'))) c in
    record {
      valid = v.valid;
      block_in = h;
      named = v.named;
      not_embedded =
          ap₂ (λ a b. lookup text_eq (join_path a (base b)) t.static) letter same
          ∙ ap (lookup text_eq (static_path (host_name f s) s)) st
          ∙ v.not_embedded;
      on_host =
          subst (λ n. IsFile t.host n i) (sym same)
            (
              (λ call. ap (λ g. g call (host_name f s)) e ∙ works call),
              ap (is_dir (host_name f s)) d ∙ dir,
              ap (lookup text_eq (host_name f s)) p ∙ found,
            );
    }
