-- ===== src/Bios/Errors.antt =====
-- cpm/cpm_bios.go, `BiosHandler`: the zero flag after a call.
use cpmulator.Base.{ℕ, ◌≡◌, ◌≢◌, refl, inl, inr, Bool-cases, ◌==◌, arith}
use cpmulator.Cpm.{Cpm}
use cpmulator.Bios.{with_zero_flag}

module _ (set_z reset_z : ℕ → ℕ) where
  -- The flags of a state follow A, and A is that of another.
  abbrev pub HasZero : Cpm → Cpm → Type 0
  HasZero t u =
      (u.cpu.af.hi ≡ t.cpu.af.hi)
      × (t.cpu.af.hi ≡ 0 → u.cpu.af.lo ≡ set_z t.cpu.af.lo)
      × (t.cpu.af.hi ≢ 0 → u.cpu.af.lo ≡ reset_z t.cpu.af.lo)

  pub with_zero_flag-HasZero : (t : Cpm) → HasZero t (with_zero_flag set_z reset_z t)
  with_zero_flag-HasZero t = elim (Bool-cases (t.cpu.af.hi == 0)) [
    | inl zero_a ↦ rw zero_a (refl, λ h. refl, λ n. absurd (n (ground arith)))
    | inr other ↦ rw other (refl, λ h. absurd (ground arith), λ n. refl)
  ]
