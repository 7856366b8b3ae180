-- ===== src/Bdos/Drives.antt =====
-- cpm/cpm_bdos.go: the current drive and the user number.
pub mod InStep
use cpmulator.Base.{
  ℕ, ◌%◌, Bool, true, false, ◌||◌, none, some, List, [], ◌∷◌, if◌then◌else◌, ◌==◌, ltb,
}
use cpmulator.Text.{contains}
use cpmulator.Memory
use cpmulator.Fcb.{DirEntry}
use cpmulator.Host
use cpmulator.Cpm.{Cpm, Result, done, set_af, set_hl, set_b, set_a, drive_path, user_drive}
use cpmulator.Bdos.Console.{return_zero}

-- "Update RAM": the byte at 4.
unfoldable pub store_user_drive : Cpm → Cpm
unfolding Memory.set user_drive
store_user_drive s = record s { memory = Memory.set s.memory 4 (user_drive s) }

-- Whether a file has a dollar sign in its name.
unfoldable pub has_dollar : List DirEntry → Bool
unfolding contains
has_dollar [] = false
has_dollar (n ∷ files) = contains b'$' n.name || has_dollar files

-- What the search for such a file in the directory of drive A: gives.
unfoldable pub submit_flag : Cpm → ℕ
unfolding has_dollar Host.list_dir drive_path
submit_flag s = elim (Host.list_dir (drive_path s b'A') s.host) [
  | none ↦ 0
  | some files ↦ if has_dollar files then 0xff else 0
]

unfoldable pub drive_all_reset : Cpm → Result
unfolding store_user_drive submit_flag
drive_all_reset s =
    let t = store_user_drive (record s { current_drive = 0 }) in
    done (set_a (submit_flag s) (set_b 0 (set_hl 0 (submit_flag s) (record t { dma = 0x80 }))))

unfoldable pub drive_set : Cpm → Result
unfolding store_user_drive
drive_set s =
    let drv : ℕ = if ltb 15 s.cpu.af.hi then 15 else s.cpu.af.hi in
    done (return_zero (store_user_drive (record s { current_drive = drv })))

-- The user number in A and in L.
abbrev pub return_user : Cpm → Cpm
return_user s = set_b 0 (set_af s.user_number 0 (set_hl 0 s.user_number s))

unfoldable pub user_number : Cpm → Result
unfolding store_user_drive
user_number s =
    if s.cpu.de.lo == 0xff
    then done (return_user s)
    else done (return_user (store_user_drive (record s { user_number = s.cpu.de.lo % 16 })))
