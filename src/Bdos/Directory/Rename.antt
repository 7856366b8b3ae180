-- ===== src/Bdos/Directory/Rename.antt =====
-- cpm/cpm_bdos.go, `BdosSysCallRenameFile`: which file has which name after it.
use cpmulator.Base.{ℕ, ◌≡◌, ◌≢◌, ◌⊎◌, false, none, some, Text, text_eq, true, Option}
use cpmulator.Assoc.{erase}
use cpmulator.Fcb
use cpmulator.Fcb.{Fcb}
use cpmulator.Host.Renaming
use cpmulator.Host.Renaming.{is_below, move_dir}
use cpmulator.Host.{Host, get_inode, add_path, is_dir}
use cpmulator.Cpm.{Cpm, Result, done, set_a}
use cpmulator.Bdos.Console.{return_zero}

-- The host after a file of the inode `i` has got a new name.
abbrev renamed : Text → Text → ℕ → Host → Host
renamed p q i h = record h { paths = add_path q i (erase text_eq p h.paths) }

-- What a rename of the host gives: an error, a file under its new name, or a directory.
abbrev Renamed : Text → Text → Host → Option Host → Type 0
Renamed p q h o =
    (o ≡ none)
    ⊎ ((is_dir p h.dirs ≡ false)
        × (i : ℕ) × (get_inode h p ≡ some i)
        × (o ≡ some (renamed p q i h)))
    ⊎ ((is_dir p h.dirs ≡ true) × (o ≡ some h) × (p ≡ q))
    ⊎ ((is_dir p h.dirs ≡ true) × (o ≡ some (move_dir p q h)))

-- A path that is neither the old or the new name of a directory nor below them.
abbrev pub IsElsewhere : Text → Text → Text → Type 0
IsElsewhere p q r = (p ≢ r) × (q ≢ r) × (is_below p r ≡ false) × (is_below q r ≡ false)

-- A file of the old name has the new one, and no other name has changed.
abbrev pub RenamesFile : Text → Text → Host → Host → Type 0
RenamesFile src dst g h =
    (i : ℕ) × (get_inode g src ≡ some i)
    × (get_inode h dst ≡ some i)
    × (src ≢ dst → get_inode h src ≡ none)
    × ((p : Text) → dst ≢ p → src ≢ p → get_inode h p ≡ get_inode g p)
    × (h.dirs ≡ g.dirs)

-- A directory has the new name, and no file elsewhere has another.
abbrev pub RenamesDir : Text → Text → Host → Host → Type 0
RenamesDir src dst g h =
    (is_dir dst h.dirs ≡ true)
    × ((p : Text) → IsElsewhere src dst p → get_inode h p ≡ get_inode g p)

abbrev pub Renames : Text → Text → Cpm → Result → Type 0
Renames src dst s r =
    ((Renaming.rename src dst s.host ≡ none) × (r ≡ done (set_a 0xff s)))
    ⊎ ((h : Host) × (r ≡ done (return_zero (record s { host = h })))
        × (h.contents ≡ s.host.contents)
        × (((is_dir src s.host.dirs ≡ false) × RenamesFile src dst s.host h)
            ⊎ ((is_dir src s.host.dirs ≡ true) × RenamesDir src dst s.host h)))
