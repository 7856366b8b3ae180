-- ===== src/Bdos/Drives/InStep.antt =====
-- cpm/cpm_bdos.go: the drive, the user number, and the byte in RAM that tells programs of them.
use cpmulator.Base.{
  ℕ, ◌*◌, ◌%◌, ◌≤◌, min, ◌≡◌, ◌≢◌, refl, sym, ap, ap₂, ◌∙◌, inl, inr, arith, ltb, ◌==◌, Bool-cases,
  if◌then◌else◌, bit_or, u8,
}
use cpmulator.Memory
use cpmulator.Cpm.{Cpm, done, user_drive}
use cpmulator.Bdos.Drives.{return_user, drive_all_reset, drive_set, user_number, store_user_drive}

-- The numbers are in range, and the byte at 4 in RAM tells both.
pub record IsInStep (s : Cpm) : Type 0 where
  pub drive_in : s.current_drive ≤ 15
  pub user_in : s.user_number ≤ 15
  pub told : Memory.get s.memory 4 ≡ user_drive s

store-IsInStep :
    (s : Cpm) → s.current_drive ≤ 15 → s.user_number ≤ 15 → IsInStep (store_user_drive s)
unfolding store_user_drive Memory.get Memory.set user_drive
store-IsInStep s h k = record { drive_in = h; user_in = k; told = refl }

-- The registers and the DMA address play no part in it.
kept-IsInStep :
    {s : Cpm} (t : Cpm)
    → IsInStep s
    → t.current_drive ≡ s.current_drive
    → t.user_number ≡ s.user_number
    → t.memory ≡ s.memory
    → IsInStep t
unfolding user_drive
kept-IsInStep t v d u m = record {
  drive_in = omega (arith, v.drive_in);
  user_in = omega (arith, v.user_in);
  told = ap (λ r. Memory.get r 4) m ∙ v.told ∙ sym (ap₂ (λ a b. bit_or (u8 (b * 16)) a) d u);
}

-- Choosing a drive, resetting the drives, and the call for the user number return no error, and keep
-- the two numbers in range and the byte at 4 in RAM in step with them. The drive is the one asked
-- for, at most 15, and 0 after a reset, which leaves the user number alone and puts the DMA address
-- to 0x80; the user number is the one asked for, modulo 16, unless that is 0xFF, and is returned.
pub drives-IsInStep :
    (s : Cpm)
    → IsInStep s
    → ((t : Cpm) × (drive_set s ≡ done t) × IsInStep t × (t.current_drive ≡ min s.cpu.af.hi 15))
      × ((t : Cpm) × (drive_all_reset s ≡ done t)
          × IsInStep t
          × (t.current_drive ≡ 0)
          × (t.user_number ≡ s.user_number)
          × (t.dma ≡ 0x80))
      × ((t : Cpm) × (user_number s ≡ done t)
          × IsInStep t
          × (s.cpu.de.lo ≢ 0xff → t.user_number ≡ s.cpu.de.lo % 16)
          × (t.cpu.af.hi ≡ t.user_number))
unfolding drive_set drive_all_reset user_number store_user_drive
drives-IsInStep s v = (
  (
    _,
    refl,
    kept-IsInStep _ (store-IsInStep (record s { current_drive = drv }) (ground arith) v.user_in)
        refl refl refl,
    ground arith,
  ),
  (
    _,
    refl,
    kept-IsInStep _ (store-IsInStep (record s { current_drive = 0 }) (omega arith) v.user_in) refl
        refl refl,
    refl,
    refl,
    refl,
  ),
  elim (Bool-cases (s.cpu.de.lo == 0xff)) [
    | inl asked ↦ (
      return_user s,
      rw (asked, user_number),
      kept-IsInStep (return_user s) v refl refl refl,
      λ n. absurd (n (ground arith)),
      refl,
    )
    | inr given ↦ (
      return_user (store_user_drive (record s { user_number = s.cpu.de.lo % 16 })),
      rw (given, user_number),
      kept-IsInStep (return_user (store_user_drive (record s { user_number = s.cpu.de.lo % 16 })))
          (store-IsInStep (record s { user_number = s.cpu.de.lo % 16 }) v.drive_in (omega arith))
          refl refl refl,
      λ n. refl,
      refl,
    )
  ],
)
  where
    drv : ℕ
    drv = if ltb 15 s.cpu.af.hi then 15 else s.cpu.af.hi
