-- ===== src/Fcb/Found.antt =====
-- fcb/fcb.go, `GetMatches`: the files of a directory that a pattern fits.
use cpmulator.Base.{
  ◌≡◌, refl, true, false, ◌⊎◌, inl, inr, ◌↔◌, none, some, List, [], ◌∷◌, Text, Bool-cases, arith,
  In,
}
use mathlib.Core.Path.{subst, subst⁻¹, ap}
use cpmulator.Text.{to_upper}
use cpmulator.FilePath.{join_path}
use cpmulator.Fcb.{Fcb, FcbFind, DirEntry, does_match, matches_in, get_matches}

-- What is reported of a file: where it is on the host, and its name in capitals.
abbrev pub found : Text → DirEntry → FcbFind
found prefix file = record { host = join_path prefix file.name; name = to_upper file.name }

-- An entry is reported if it is no directory and the pattern fits its name in capitals.
pub record IsWanted (f : Fcb) (file : DirEntry) : Type 0 where
  pub no_dir : file.is_dir ≡ false
  pub fits : does_match f (to_upper file.name) ≡ true

-- The entry of the directory that a reported file comes from.
abbrev pub Reported : Fcb → Text → List DirEntry → FcbFind → Type 0
Reported f prefix files x =
    (file : DirEntry) × In file files × IsWanted f file × (x ≡ found prefix file)

module _ (f : Fcb) (prefix : Text) where
  matches_in-cons :
      (file : DirEntry) (files : List DirEntry)
      → let all = matches_in f prefix (file ∷ files) in
        let rest = matches_in f prefix files in
        ((¬ IsWanted f file) × (all ≡ rest)) ⊎ (IsWanted f file × (all ≡ found prefix file ∷ rest))
  unfolding matches_in
  matches_in-cons file files = elim (Bool-cases file.is_dir) [
    | inl d ↦ inl (λ w. cc (w.no_dir), rw d)
    | inr d ↦ elim (Bool-cases (does_match f (to_upper file.name))) [
      | inl m ↦ inr (record { no_dir = d; fits = m }, rw (d, m))
      | inr m ↦ inl (λ w. cc (w.fits), rw (d, m))
    ]
  ]

  later :
      (file : DirEntry) (files : List DirEntry) (x : FcbFind)
      → Reported f prefix files x
      → Reported f prefix (file ∷ files) x
  later file files x (g, member, wanted, e) = (g, inr member, wanted, e)

  matches_in_sound :
      (files : List DirEntry) (x : FcbFind)
      → In x (matches_in f prefix files)
      → Reported f prefix files x
  unfolding matches_in
  matches_in_sound [] x h = absurd h
  matches_in_sound (file ∷ files) x h = elim (matches_in-cons file files) [
    | inl skipped ↦ later file files x (matches_in_sound files x (subst (In x) skipped.1 h))
    | inr kept ↦ elim (subst (In x) kept.1 h) [
      | inl e ↦ (file, inl refl, kept.0, e)
      | inr t ↦ later file files x (matches_in_sound files x t)
    ]
  ]

  matches_in_complete :
      (files : List DirEntry) (file : DirEntry)
      → In file files
      → IsWanted f file
      → In (found prefix file) (matches_in f prefix files)
  matches_in_complete [] file m w = absurd m
  matches_in_complete (g ∷ files) file m w = elim (matches_in-cons g files) [
    | inl skipped ↦ elim m [
      | inl e ↦ absurd (skipped.0 (subst (IsWanted f) e w))
      | inr t ↦ subst⁻¹ (In (found prefix file)) skipped.1 (matches_in_complete files file t w)
    ]
    | inr kept ↦ subst⁻¹ (In (found prefix file)) kept.1 (elim m [
      | inl e ↦ inl (ap (found prefix) e)
      | inr t ↦ inr (matches_in_complete files file t w)
    ])
  ]

-- An error of reading the directory is returned; otherwise the files reported are exactly those
-- that are no directories and whose names in capitals the pattern fits, each at its place on the
-- host.
pub get_matches_iff :
    (f : Fcb) (prefix : Text) (files : List DirEntry)
    → (get_matches f prefix none ≡ none)
      × ((res : List FcbFind)
          → get_matches f prefix (some files) ≡ some res
          → (x : FcbFind) → In x res ↔ Reported f prefix files x)
unfolding get_matches
get_matches_iff f prefix files = (
  refl,
  λ res e x. (
    λ m. matches_in_sound f prefix files x (subst⁻¹ (In x) (ground arith) m),
    λ r. subst (In x) (ground arith) (
        subst⁻¹ (λ y. In y (matches_in f prefix files)) r.3
          (matches_in_complete f prefix files r.0 r.1 r.2)),
  ),
)
