-- ===== src/Host/Opening.antt =====
-- Files of the host that can be opened.
use cpmulator.Base.{
  ℕ, ◌+◌, ◌≡◌, refl, ap, sym, ◌∙◌, inl, inr, false, none, some, [], Text, text_eq_refl, ◌==◌,
  Option, Option-cases,
}
use mathlib.Core.Path.{subst}
use cpmulator.Assoc.{store}
use cpmulator.Host.{Host, Handle, Call, is_dir, get_inode, add_path, opened, open_file, create_file}
use cpmulator.Host.Paths.{lookup-add_path}
use cpmulator.Host.Records.{IsOpen, find-store_self}

-- A file that is there, of which no call fails.
abbrev pub IsFile : Host → Text → ℕ → Type 0
IsFile h p i =
    ((c : Call) → h.faults c p ≡ false) × (is_dir p h.dirs ≡ false) × (get_inode h p ≡ some i)

abbrev pub at_start : Text → ℕ → Handle
at_start p i = record { inode = i; path = p; position = 0 }

-- The host with the file open.
abbrev pub with_open : Host → Text → ℕ → Host
with_open h p i = record h {
  handles = store ◌==◌ h.next (at_start p i) h.handles;
  next = h.next + 1;
}

pub create_file-found :
    (h : Host) (p : Text) (i : ℕ) → IsFile h p i → create_file p h ≡ opened h.next (with_open h p i)
unfolding create_file
create_file-found h p i (works, dir, found) = rw (works Call.opening, dir, found, create_file) refl

pub open_file-found :
    (h : Host) (p : Text) (i : ℕ) → IsFile h p i → open_file p h ≡ opened h.next (with_open h p i)
unfolding open_file
open_file-found h p i (works, dir, found) = rw (works Call.opening, dir, found, open_file) refl

-- The file is open at the start.
pub with_open-IsOpen :
    (h : Host) (p : Text) (i : ℕ) → IsFile h p i → IsOpen (with_open h p i) h.next (at_start p i)
with_open-IsOpen h p i (works, dir, found) = record {
  found = find-store_self h.next (at_start p i) h.handles;
  works = works;
}

-- The host with a new file, which is empty.
abbrev with_new : Text → Host → Host
with_new p h = record h {
  paths = add_path p h.next h.paths;
  contents = store ◌==◌ h.next [] h.contents;
  next = h.next + 1;
}

-- The host with a file of the path: as it is if the file is there, else with a new one.
abbrev pub with_made : Text → Host → Host
with_made p h = elim (get_inode h p) [ none ↦ with_new p h | some i ↦ h ]

create_file-new :
    (h : Host) (p : Text) (i : ℕ)
    → get_inode h p ≡ none
    → IsFile (with_new p h) p i
    → create_file p h ≡ opened (with_new p h).next (with_open (with_new p h) p i)
unfolding create_file
create_file-new h p i e (works, dir, found) =
    let new : get_inode (with_new p h) p ≡ some h.next =
      lookup-add_path p h.next p h.paths ∙ rw (text_eq_refl p) refl in
    let same : h.next ≡ i = ap (λ x. elim x [ none ↦ i | some k ↦ k ]) (sym new ∙ found) in
    rw (works Call.opening, dir, e, create_file)
      (ap (λ k. opened (with_new p h).next (with_open (with_new p h) p k)) same)

-- A file that is there or new is opened.
pub create_file-made :
    (h : Host) (p : Text) (i : ℕ)
    → IsFile (with_made p h) p i
    → create_file p h ≡ opened (with_made p h).next (with_open (with_made p h) p i)
create_file-made h p i v =
    let Goal : Host → Type 0 =
      λ g. IsFile g p i → create_file p h ≡ opened g.next (with_open g p i) in
    let branch : Option ℕ → Host = λ o. elim o [ none ↦ with_new p h | some j ↦ h ] in
    elim (Option-cases (get_inode h p)) [
      | inl e ↦ subst Goal (sym (ap branch e)) (create_file-new h p i e) v
      | inr (j, e) ↦ subst Goal (sym (ap branch e)) (create_file-found h p i) v
    ]
