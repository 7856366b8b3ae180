-- ===== src/Emulator/Returns/Directory.antt =====
-- cpm/cpm_bdos.go: searching the directory, deleting and renaming files return.
use cpmulator.Base.{◌+◌, ◌≤◌, ◌<◌, List, [], ◌∷◌, ◌++◌, u16, arith, length}
use cpmulator.Text.{utf8}
use cpmulator.FilePath.{join_path}
use cpmulator.Fcb
use cpmulator.Fcb.{Fcb, FcbFind}
use cpmulator.Host
use cpmulator.Host.Renaming
use cpmulator.Host.{Host}
use cpmulator.Cpm.{Cpm, Pairs, done, drive_path}
use cpmulator.Bdos.Console.{return_zero}
use cpmulator.Bdos.Block.{existing_name, block_letter, drive_letter}
use cpmulator.Bdos.Directory.{
  size_of, deliver_found, first_of, sorted_results, find_first_block, find_first, find_next,
  static_matches, search_dir, delete_all, delete_block, delete_file, rename_block, rename_file,
  result_at, found_block,
}
use cpmulator.Bdos.Directory.Search.{found_block-IsSized}
use cpmulator.Emulator.Returns.{Returns, option-Returns, block-Returns, with_fcb-Returns}

deliver_found-Returns : (x : FcbFind) (s : Cpm) → s.dma + 128 ≤ 65536 → Returns (deliver_found x s)
unfolding deliver_found
deliver_found-Returns x s h =
    let size = (size_of x.host s.host).0 in
    block-Returns s.dma (found_block x size) (record s { host = (size_of x.host s.host).1 })
      (λ t. done (return_zero t)) (omega (arith, h)) (found_block-IsSized x size) (λ m. tt)

first_of-Returns :
    (ys : List FcbFind) (s : Cpm) → 0 < length ys → s.dma + 128 ≤ 65536 → Returns (first_of ys s)
unfolding first_of
first_of-Returns [] s n h = absurd (omega (arith, n))
first_of-Returns (y ∷ ys) s n h =
    deliver_found-Returns y (record s { find_first_results = ys; find_offset = 0 }) h

-- Sorting keeps something where there is something.
abbrev pub KeepsSome : (List FcbFind → List FcbFind) → Type 0
KeepsSome sort = (xs : List FcbFind) → 0 < length xs → 0 < length (sort xs)

sorted_results-Returns :
    (sort : List FcbFind → List FcbFind) (xs : List FcbFind) (s : Cpm)
    → KeepsSome sort
    → s.dma + 128 ≤ 65536
    → Returns (sorted_results sort xs s)
unfolding sorted_results
sorted_results-Returns sort [] s n h = tt
sorted_results-Returns sort (x ∷ xs) s n h =
    first_of-Returns (sort (x ∷ xs)) s (n (x ∷ xs) (omega arith)) h

pub find_next-Returns : (s : Cpm) → s.dma + 128 ≤ 65536 → Returns (find_next s)
unfolding find_next
find_next-Returns s h =
    option-Returns (result_at s.find_offset s.find_first_results) _ _ tt
      (λ x e. deliver_found-Returns x (record s { find_offset = s.find_offset + 1 }) h)

delete_all-Returns : (xs : List FcbFind) (s : Cpm) → Returns (delete_all xs s)
unfolding delete_all
delete_all-Returns [] s = tt
delete_all-Returns (x ∷ xs) s =
    option-Returns (Host.remove x.host s.host) _ _ tt
      (λ h e. delete_all-Returns xs (record s { host = h }))

module _ (pairs : Pairs) (s : Cpm) where
  open pairs use {to_u16}

  pub find_first-Returns :
      (sort : List FcbFind → List FcbFind)
      → KeepsSome sort
      → s.dma + 128 ≤ 65536
      → Returns (find_first pairs sort s)
  unfolding find_first find_first_block
  find_first-Returns sort n h =
      let s' : Cpm = record s { find_first_results = []; find_offset = 0 } in
      with_fcb-Returns (to_u16 s.cpu.de) s _ (λ f v.
        option-Returns (Fcb.get_matches f (search_dir s) (Host.list_dir (search_dir s) s.host)) _ _
          tt
          (λ res e.
            sorted_results-Returns sort (res ++ static_matches f (utf8 (drive_letter s)) s.static)
              s' n h))

  pub delete_file-Returns : Returns (delete_file pairs s)
  unfolding delete_file delete_block
  delete_file-Returns = with_fcb-Returns (to_u16 s.cpu.de) s _ (λ f v.
      let path = drive_path s (block_letter f s) in
      option-Returns (Fcb.get_matches f path (Host.list_dir path s.host)) _ _ tt
        (λ res e. delete_all-Returns res s))

  pub rename_file-Returns : Returns (rename_file pairs s)
  unfolding rename_file rename_block
  rename_file-Returns = with_fcb-Returns (to_u16 s.cpu.de) s _ (λ f v.
      with_fcb-Returns (u16 (to_u16 s.cpu.de + 16)) s (λ g. rename_block f g s)
        (λ g w.
          let path = search_dir s in
          let src = join_path path (existing_name path (Fcb.get_file_name f) s.host) in
          option-Returns (Renaming.rename src (join_path path (Fcb.get_file_name g)) s.host) _ _ tt
            (λ h e. tt)))
