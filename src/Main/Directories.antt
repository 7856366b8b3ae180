-- ===== src/Main/Directories.antt =====
-- main.go: making the directories of the drives, and counting those that are there.
use cpmulator.Base.{
  ℕ, suc, ◌≡◌, ◌⊎◌, ◌∙◌, refl, sym, ap, inl, inr, false, none, some, List, [], ◌∷◌, Text, text_eq,
  text_eq_refl, Bool-cases, Option-cases, length, In,
}
use mathlib.Core.Path.{subst}
use cpmulator.Host
use cpmulator.Host.{Host, Call, Stat, get_inode, is_dir}

-- A directory is made where there is nothing of its name; an error is not looked at.
unfoldable pub create_directory : Text → Host → Host
unfolding Host.stat Host.mkdir
create_directory d h = elim (Host.stat d h) [
  | Stat.missing ↦ elim (Host.mkdir d h) [ none ↦ h | some g ↦ g ]
  | Stat.there ↦ h
  | Stat.refused ↦ h
]

-- "Should we create child-directories?"
unfoldable pub create_directories : List Text → Host → Host
unfolding create_directory
create_directories [] h = h
create_directories (d ∷ ds) h = create_directories ds (create_directory d h)

-- "Count how many drives exist"
unfoldable pub count_drives : List Text → Host → ℕ
unfolding Host.stat
count_drives [] h = 0
count_drives (d ∷ ds) h =
    let rest = count_drives ds h in
    elim (Host.stat d h) [ Stat.there ↦ suc rest | Stat.missing ↦ rest | Stat.refused ↦ rest ]

-- The host fails no call to look for a path, or to make a directory.
abbrev pub Works : Host → Type 0
Works h = (p : Text) → (h.faults Call.stating p ≡ false) × (h.faults Call.making p ≡ false)

with_directory : Text → Host → Host
with_directory d h = record h { dirs = d ∷ h.dirs }

stat-with_directory :
    (p d : Text) (h : Host)
    → Works h
    → ((p ≡ d) ⊎ (Host.stat p h ≡ Stat.there))
    → Host.stat p (with_directory d h) ≡ Stat.there
unfolding Host.stat with_directory
stat-with_directory p d h w (inl at) = rw ((w p).0, at, text_eq_refl d, Host.stat) refl
stat-with_directory p d h w (inr e) = elim (Bool-cases (text_eq p d)) [
  | inl at ↦ rw ((w p).0, at, Host.stat) refl
  | inr other ↦ rw (other, Host.stat) e
]

create_directory-cases :
    (d : Text) (h : Host)
    → Works h
    → ((Host.stat d h ≡ Stat.there) × (create_directory d h ≡ h))
      ⊎ (create_directory d h ≡ with_directory d h)
unfolding create_directory Host.stat Host.mkdir with_directory
create_directory-cases d h w = elim (Bool-cases (is_dir d h.dirs)) [
  | inl e ↦ inl (rw ((w d).0, e, Host.stat) refl, rw ((w d).0, e, create_directory) refl)
  | inr e ↦ elim (Option-cases (get_inode h d)) [
    | inl f ↦ inr (rw ((w d).0, e, f, create_directory) (rw ((w d).1, e, f, Host.mkdir) refl))
    | inr (i, f) ↦
        inl (rw ((w d).0, e, f, Host.stat) refl, rw ((w d).0, e, f, create_directory) refl)
  ]
]

-- What is there stays there, while directories are made.
create_directories-keeps :
    (ds : List Text) (p : Text) (h : Host)
    → Works h
    → Host.stat p h ≡ Stat.there
    → Host.stat p (create_directories ds h) ≡ Stat.there
unfolding create_directories with_directory
create_directories-keeps [] p h w e = e
create_directories-keeps (d ∷ ds) p h w e = elim (create_directory-cases d h w) [
  | inl (there, same) ↦
      subst (λ g. Host.stat p (create_directories ds g) ≡ Stat.there) (sym same)
        (create_directories-keeps ds p h w e)
  | inr made ↦
      subst (λ g. Host.stat p (create_directories ds g) ≡ Stat.there) (sym made)
        (create_directories-keeps ds p (with_directory d h) w (stat-with_directory p d h w (inr e)))
]

-- Where every name is there, all are counted.
count_all :
    (ds : List Text) (h : Host)
    → ((d : Text) → In d ds → Host.stat d h ≡ Stat.there)
    → count_drives ds h ≡ length ds
unfolding count_drives
count_all [] h v = refl
count_all (d ∷ ds) h v =
    rw (v d (inl refl), count_drives) (ap suc (count_all ds h (λ p i. v p (inr i))))

created_there :
    (ds : List Text) (d : Text) (h : Host)
    → Works h
    → In d ds
    → Host.stat d (create_directories ds h) ≡ Stat.there
unfolding create_directories with_directory
created_there [] d h w i = absurd i
created_there (c ∷ ds) d h w (inl at) = elim (create_directory-cases c h w) [
  | inl (there, same) ↦
      subst (λ g. Host.stat d (create_directories ds g) ≡ Stat.there) (sym same)
        (create_directories-keeps ds d h w (ap (λ p. Host.stat p h) at ∙ there))
  | inr made ↦
      subst (λ g. Host.stat d (create_directories ds g) ≡ Stat.there) (sym made)
        (create_directories-keeps ds d (with_directory c h) w
          (stat-with_directory d c h w (inl at)))
]
created_there (c ∷ ds) d h w (inr i) = elim (create_directory-cases c h w) [
  | inl (there, same) ↦
      subst (λ g. Host.stat d (create_directories ds g) ≡ Stat.there) (sym same)
        (created_there ds d h w i)
  | inr made ↦
      subst (λ g. Host.stat d (create_directories ds g) ≡ Stat.there) (sym made)
        (created_there ds d (with_directory c h) w i)
]

-- Once the directories of the drives have been made, each of the drives is there and all are
-- counted, so that there is no warning; and whatever was there before still is.
-- The host fails no call to look for a path, or to make a directory.
pub count_drives-create_directories :
    (ds : List Text) (h : Host)
    → Works h
    → (count_drives ds (create_directories ds h) ≡ length ds)
      × ((d : Text) → In d ds → Host.stat d (create_directories ds h) ≡ Stat.there)
      × ((p : Text)
          → Host.stat p h ≡ Stat.there
          → Host.stat p (create_directories ds h) ≡ Stat.there)
count_drives-create_directories ds h w = (
  count_all ds (create_directories ds h) (λ d i. created_there ds d h w i),
  λ d i. created_there ds d h w i,
  λ p e. create_directories-keeps ds p h w e,
)
