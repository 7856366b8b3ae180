-- ===== src/Host/Renaming.antt =====
-- What the program uses of Go's `os`: `os.Rename`, of a file or of a directory.
use cpmulator.Base.{
  ℕ, ◌||◌, Bool, Option, none, some, List, [], ◌∷◌, ◌++◌, if◌then◌else◌, length, drop, Text,
  text_eq,
}
use cpmulator.Text.{has_prefix}
use cpmulator.Assoc.{erase}
use cpmulator.Host.{Host, Call, get_inode, is_dir, add_path, text_le}

-- A directory is added in its place in the order.
abbrev pub add_dir : Text → List Text → List Text
add_dir p [] = p ∷ []
add_dir p (q ∷ m) = if text_le p q then p ∷ q ∷ m else q ∷ add_dir p m

-- Whether a path is below a directory.
abbrev pub is_below : Text → Text → Bool
is_below dir p = has_prefix p (dir ++ b'/' ∷ [])

-- A path after the directory `p` has got the name `q`.
unfoldable pub moved_path : Text → Text → Text → Text
unfolding has_prefix
moved_path p q r = if text_eq r p then q else if is_below p r then q ++ drop (length p) r else r

-- The directories after that, the one that is renamed in its new place in the order.
unfoldable pub move_dirs : Text → Text → List Text → List Text
unfolding moved_path
move_dirs p q dirs = add_dir q (others dirs)
  where
    others : List Text → List Text
    others [] = []
    others (d ∷ ds) = let rest = others ds in if text_eq d p then rest else moved_path p q d ∷ rest

unfoldable pub move_paths : Text → Text → List (Text × ℕ) → List (Text × ℕ)
unfolding moved_path
move_paths p q [] = []
move_paths p q ((r, i) ∷ m) = (moved_path p q r, i) ∷ move_paths p q m

-- The host after a directory has got a new name, with what is in it.
abbrev pub move_dir : Text → Text → Host → Host
move_dir p q h = record h { dirs = move_dirs p q h.dirs; paths = move_paths p q h.paths }

-- `os.Rename` of a directory: the new name must not be there, nor be below the old one, unless they
-- are the same.
unfoldable pub rename_dir : Text → Text → Host → Option Host
unfolding move_dirs move_paths has_prefix
rename_dir p q h =
    if text_eq p q
    then some h
    else if is_dir q h.dirs || is_below p q
    then none
    else (elim (get_inode h q) [ none ↦ some (move_dir p q h) | some i ↦ none ])

-- `os.Rename` of a file, which replaces a file of the new name.
unfoldable pub rename_plain : Text → Text → Host → Option Host
rename_plain p q h = if is_dir q h.dirs then none else (elim (get_inode h p) [
  | none ↦ none
  | some i ↦ some (record h { paths = add_path q i (erase text_eq p h.paths) })
])

unfoldable pub rename : Text → Text → Host → Option Host
unfolding rename_dir rename_plain
rename p q h =
    if h.faults Call.renaming p
    then none
    else if is_dir p h.dirs
    then rename_dir p q h
    else rename_plain p q h
