-- ===== src/Bdos/Directory/Delete.antt =====
-- cpm/cpm_bdos.go, `BdosSysCallDeleteFile`: which files are gone after it.
use cpmulator.Base.{
  ℕ, ◌≡◌, ◌⊎◌, ◌∙◌, refl, sym, ap, inl, inr, Bool, true, false, ◌||◌, Option, none, some, List, [],
  ◌∷◌, ◌++◌, Text, text_eq, text_eq_iff, if◌then◌else◌, Bool-cases, Option-cases,
}
use mathlib.Core.Path.{subst}
use cpmulator.Assoc.{erase, lookup-erase}
use cpmulator.Fcb
use cpmulator.Fcb.{Fcb, FcbFind}
use cpmulator.Host
use cpmulator.Host.{Host, Call, get_inode}
use cpmulator.Cpm.{Cpm, Result, done, set_a, drive_path}
use cpmulator.Bdos.Block.{block_letter}
use cpmulator.Bdos.Console.{return_zero}
use cpmulator.Bdos.Directory.{delete_all, delete_block}

-- A path is that of one of the results.
abbrev pub is_among : Text → List FcbFind → Bool
is_among p [] = false
is_among p (x ∷ xs) = text_eq x.host p || is_among p xs

-- Exactly the files of the results are gone, and no content has changed.
abbrev pub Removed : List FcbFind → Host → Host → Type 0
Removed xs h h' =
    ((p : Text) → get_inode h' p ≡ (if is_among p xs then none else get_inode h p))
    × (h'.contents ≡ h.contents)

-- All results are deleted, and A is 0, or all before the first that cannot be, and A is 0xFF.
abbrev pub Deletes : List FcbFind → Cpm → Result → Type 0
Deletes xs s r =
    ((h : Host) × (r ≡ done (return_zero (record s { host = h }))) × Removed xs s.host h)
    ⊎ ((ys : List FcbFind) × (x : FcbFind) × (zs : List FcbFind) × (h : Host) × (xs ≡ ys ++ x ∷ zs)
        × (Host.remove x.host h ≡ none)
        × (r ≡ done (set_a 0xff (record s { host = h })))
        × Removed ys s.host h)

abbrev without : Text → Host → Host
without p h = record h { paths = erase text_eq p h.paths }

remove-cases :
    (p : Text) (h : Host) → (Host.remove p h ≡ none) ⊎ (Host.remove p h ≡ some (without p h))
unfolding Host.remove
remove-cases p h = elim (Bool-cases (h.faults Call.removing p)) [
  | inl f ↦ inl (rw (f, Host.remove) refl)
  | inr f ↦ elim (Option-cases (get_inode h p)) [
    | inl e ↦ inl (rw (f, e, Host.remove) refl)
    | inr (i, e) ↦ inr (rw (f, e, Host.remove) refl)
  ]
]

get_inode-without :
    (p q : Text) (h : Host)
    → get_inode (without p h) q ≡ (if text_eq p q then none else get_inode h q)
get_inode-without p q h = lookup-erase text_eq text_eq_iff p q h.paths

-- One file less.
Removed-more :
    (x : FcbFind) (xs : List FcbFind) (h h' : Host)
    → Removed xs (without x.host h) h'
    → Removed (x ∷ xs) h h'
Removed-more x xs h h' (gone, same) = (
  λ p.
      gone p
      ∙ ap (λ o. if is_among p xs then none else o) (get_inode-without x.host p h)
      ∙ either (text_eq x.host p) (is_among p xs) (get_inode h p),
  same,
)
  where
    either :
        (a b : Bool) (o : Option ℕ)
        → (if b then none else if a then none else o) ≡ (if a || b then none else o)
    either true true o = refl
    either true false o = refl
    either false b o = refl

delete_all-Deletes : (xs : List FcbFind) (s : Cpm) → Deletes xs s (delete_all xs s)
unfolding delete_all
delete_all-Deletes [] s = inl (s.host, refl, (λ p. refl, refl))
delete_all-Deletes (x ∷ xs) s = elim (remove-cases x.host s.host) [
  | inl e ↦ inr ([], x, xs, s.host, refl, e, rw (e, delete_all) refl, (λ p. refl, refl))
  | inr e ↦
      let goes_on : delete_all (x ∷ xs) s
          ≡ delete_all xs (record s { host = without x.host s.host }) =
        rw (e, delete_all) refl in
      elim (delete_all-Deletes xs (record s { host = without x.host s.host })) [
        | inl (h, r, gone) ↦ inl (h, goes_on ∙ r, Removed-more x xs s.host h gone)
        | inr (ys, y, zs, h, split_at, kept, r, gone) ↦ inr (
          x ∷ ys,
          y,
          zs,
          h,
          ap (λ l. x ∷ l) split_at,
          kept,
          goes_on ∙ r,
          Removed-more x ys s.host h gone,
        )
      ]
]

-- Where the directory of the drive cannot be read, the call to delete sets A to 0xFF and changes
-- nothing else. Else it goes through the files that the pattern fits: either all of them are gone
-- and A is 0, or all before the first that the host does not remove, and A is 0xFF; no other file is
-- gone, and no content has changed.
pub delete_block-Deletes :
    (f : Fcb) (s : Cpm)
    → let path = drive_path s (block_letter f s) in
      (Fcb.get_matches f path (Host.list_dir path s.host) ≡ none
        → delete_block f s ≡ done (set_a 0xff s))
      × ((res : List FcbFind)
          → Fcb.get_matches f path (Host.list_dir path s.host) ≡ some res
          → Deletes res s (delete_block f s))
unfolding delete_block
delete_block-Deletes f s = (
  λ e. rw (e, delete_block) refl,
  λ res e. subst (Deletes res s) (sym (matched res e)) (delete_all-Deletes res s),
)
  where
    matched :
        (res : List FcbFind)
        → Fcb.get_matches f
            (drive_path s (block_letter f s))
            (Host.list_dir (drive_path s (block_letter f s)) s.host)
          ≡ some res
        → delete_block f s ≡ delete_all res s
    matched res e = rw (e, delete_block) refl
