-- ===== src/Main/DrivePaths.antt =====
-- main.go and cpm/cpm.go, `SetDrives` and `SetDrivePath`: which directory each drive is.
use cpmulator.Base.{
  ℕ, ◌≡◌, ◌⊎◌, ◌∙◌, ◌<◌, refl, sym, ap, inl, inr, arith, Bool, true, false, none, some, List, [],
  ◌∷◌, ◌==◌, Text, text_eq, text_eq_iff, eq_refl, if◌then◌else◌, Bool-cases, In,
}
use mathlib.Core.Path.{subst}
use cpmulator.Assoc.{lookup, store, lookup-store}
use cpmulator.Cpm.{Cpm, drive_path}
use cpmulator.Text.Ascii.{utf8_ascii}
use cpmulator.Emulator.Options.{
  letters, set_drives_of, set_drives, set_drive_path, set_static_filesystem,
}
use cpmulator.Main.{Flags, set_paths, set_up_drives}

-- What a map says of the drive of a letter.
abbrev path_in : ℕ → List (Text × Text) → Text
path_in c m = elim (lookup text_eq (c ∷ []) m) [ none ↦ [] | some p ↦ p ]

path_in-store :
    (c d : ℕ) (p : Text) (m : List (Text × Text))
    → path_in c (store text_eq (d ∷ []) p m) ≡ (if d == c then p else path_in c m)
path_in-store c d p m =
    rw (lookup-store text_eq text_eq_iff (d ∷ []) (c ∷ []) p m, path_in)
      (elim (Bool-cases (d == c)) [ inl e ↦ rw e refl | inr e ↦ rw e refl ])

-- The directory of a drive without a path of its own.
abbrev pub default_path : Bool → ℕ → Text
default_path enabled c = if enabled then c ∷ [] else b'.' ∷ []

defaults_kept :
    (enabled : Bool) (c : ℕ) (cs : List ℕ) (m : List (Text × Text))
    → path_in c m ≡ default_path enabled c
    → path_in c (set_drives_of enabled cs m) ≡ default_path enabled c
unfolding set_drives_of
defaults_kept enabled c [] m h = h
defaults_kept enabled c (d ∷ cs) m h =
    defaults_kept enabled c cs (store text_eq (d ∷ []) (default_path enabled d) m) (
      path_in-store c d (default_path enabled d) m ∙ elim (Bool-cases (d == c)) [
        | inl e ↦ let at : d ≡ c = ground arith in rw (e, at) refl
        | inr e ↦ rw e h
      ])

defaults_lem :
    (enabled : Bool) (c : ℕ) (cs : List ℕ) (m : List (Text × Text))
    → In c cs
    → path_in c (set_drives_of enabled cs m) ≡ default_path enabled c
unfolding set_drives_of
defaults_lem enabled c [] m h = elim h [ ]
defaults_lem enabled c (d ∷ cs) m (inl e) =
    defaults_kept enabled c cs (store text_eq (d ∷ []) (default_path enabled d) m)
      (path_in-store c d (default_path enabled d) m ∙ rw (sym e, eq_refl c) refl)
defaults_lem enabled c (d ∷ cs) m (inr h) = defaults_lem enabled c cs _ h

-- A path in place of a default, where there is one.
abbrev pub or_default : Text → Text → Text
or_default [] default = default
or_default (x ∷ path) default = x ∷ path

List-cases : (xs : Text) → (xs ≡ []) ⊎ ((x : ℕ) × (ys : Text) × (xs ≡ x ∷ ys))
List-cases [] = inl refl
List-cases (x ∷ ys) = inr (x, ys, refl)

paths_kept :
    (drive : ℕ → Text) (c : ℕ) (ds : List ℕ) (s : Cpm) (p : Text)
    → or_default (drive c) p ≡ p
    → path_in c s.drives ≡ p
    → path_in c (set_paths ds drive s).drives ≡ p
unfolding set_paths set_drive_path
paths_kept drive c [] s p h k = k
paths_kept drive c (d ∷ ds) s p h k = elim (List-cases (drive d)) [
  | inl e ↦ rw (e, set_paths) (paths_kept drive c ds s p h k)
  | inr (x, path, e) ↦
      rw (e, set_paths)
        (paths_kept drive c ds (set_drive_path (d ∷ []) (x ∷ path) s) p h (
          path_in-store c d (x ∷ path) s.drives ∙ elim (Bool-cases (d == c)) [
            | inl f ↦
                let at : d ≡ c = ground arith in
                rw f (ap (λ q. or_default q p) (sym e ∙ ap drive at) ∙ h)
            | inr f ↦ rw f k
          ]))
]

paths_here :
    (drive : ℕ → Text) (c : ℕ) (ds : List ℕ) (s : Cpm) (p : Text)
    → path_in c s.drives ≡ p
    → path_in c (set_paths (c ∷ ds) drive s).drives ≡ or_default (drive c) p
unfolding set_paths set_drive_path
paths_here drive c ds s p k = elim (List-cases (drive c)) [
  | inl e ↦ rw e (paths_kept drive c (c ∷ ds) s p (ap (λ q. or_default q p) e) k)
  | inr (x, path, e) ↦
      rw (e, set_paths)
        (paths_kept drive c ds (set_drive_path (c ∷ []) (x ∷ path) s) (x ∷ path)
          (ap (λ q. or_default q (x ∷ path)) e)
          (path_in-store c c (x ∷ path) s.drives ∙ rw (eq_refl c) refl))
]

paths_lem :
    (drive : ℕ → Text) (c : ℕ) (ds : List ℕ) (s : Cpm) (p : Text)
    → In c ds
    → path_in c s.drives ≡ p
    → path_in c (set_paths ds drive s).drives ≡ or_default (drive c) p
unfolding set_paths set_drive_path
paths_lem drive c [] s p h k = elim h [ ]
paths_lem drive c (d ∷ ds) s p (inl e) k =
    subst (λ x. path_in c (set_paths (x ∷ ds) drive s).drives ≡ or_default (drive c) p) e
      (paths_here drive c ds s p k)
paths_lem drive c (d ∷ ds) s p (inr h) k = elim (Bool-cases (d == c)) [
  | inl f ↦
      subst (λ x. path_in c (set_paths (x ∷ ds) drive s).drives ≡ or_default (drive c) p) {x = c}
        (ground arith) (paths_here drive c ds s p k)
  | inr f ↦ elim (List-cases (drive d)) [
    | inl e ↦ rw (e, set_paths) (paths_lem drive c ds s p h k)
    | inr (x, path, e) ↦
        rw (e, set_paths)
          (paths_lem drive c ds (set_drive_path (d ∷ []) (x ∷ path) s) p h
            (path_in-store c d (x ∷ path) s.drives ∙ rw f k))
  ]
]

letters_ascii : (c : ℕ) → In c letters → c < 128
letters_ascii c h = ground arith

drive_path_ascii : (s : Cpm) (c : ℕ) → c < 128 → drive_path s c ≡ path_in c s.drives
unfolding drive_path
drive_path_ascii s c h =
    ap (λ k. elim (lookup text_eq k s.drives) as (λ o. Text) [ none ↦ [] | some p ↦ p ])
      (utf8_ascii c h)

-- The directories before the custom paths.
enabled_lem :
    (b : Bool) (c : ℕ) (s : Cpm)
    → In c letters
    → path_in c (if b then set_drives true (set_drives false s) else set_drives false s).drives
      ≡ default_path b c
unfolding set_drives
enabled_lem true c s h = defaults_lem true c letters (set_drives_of false letters s.drives) h
enabled_lem false c s h = defaults_lem false c letters s.drives h

-- In whatever order the custom paths are set, as long as the drive is among them, a drive from A to
-- P is its custom path where that is not empty, and else the directory of its name where
-- directories are in use, and the current one where not.
pub drive_path-set_up_drives :
    (content : List (Text × Text)) (order : List ℕ) (f : Flags) (s : Cpm) (c : ℕ)
    → In c letters
    → In c order
    → drive_path (set_up_drives content order f s) c
      ≡ or_default (f.drive c) (default_path f.use_directories c)
unfolding set_up_drives
drive_path-set_up_drives content order f s c h k =
    let s1 : Cpm = set_static_filesystem (if f.embed_bin then content else []) s in
    drive_path_ascii (set_up_drives content order f s) c (letters_ascii c h)
    ∙ paths_lem f.drive c order
        (if f.use_directories then set_drives true (set_drives false s1) else set_drives false s1)
        (default_path f.use_directories c) k (enabled_lem f.use_directories c s1 h)
