-- ===== src/Fcb/Counters.antt =====
-- fcb/fcb.go, `IncreaseSequentialOffset`: a control block stays one.
use cpmulator.Base.{inl, inr, ℕ, ◌%◌, ◌+◌, ltb, u8, arith, Bool-cases, IsByte}
use cpmulator.Fcb.{Fcb, increase_cr, carry_ex, increase_sequential_offset}
use cpmulator.Fcb.Codec.{IsValid}

counters-IsValid :
    (f : Fcb) (s2 cr ex rc : ℕ)
    → IsValid f
    → IsByte s2
    → IsByte cr
    → IsByte ex
    → IsByte rc
    → IsValid (record f { s2 = s2; cr = cr; ex = ex; rc = rc })
counters-IsValid f s2 cr ex rc v h k e r = record {
  name_size = v.name_size;
  type_size = v.type_size;
  al_size = v.al_size;
  name_bytes = v.name_bytes;
  type_bytes = v.type_bytes;
  al_bytes = v.al_bytes;
  drive_byte = v.drive_byte;
  ex_byte = e;
  s1_byte = v.s1_byte;
  s2_byte = h;
  rc_byte = r;
  cr_byte = k;
  r0_byte = v.r0_byte;
  r1_byte = v.r1_byte;
  r2_byte = v.r2_byte;
}

increase_cr-IsValid : (f : Fcb) → IsValid f → IsValid (increase_cr f)
unfolding increase_cr
increase_cr-IsValid f v = elim (Bool-cases (ltb 128 (u8 (f.cr + 1)))) [
  | inl carry ↦ rw carry (
      counters-IsValid f (f.s2 % 128) 1 (u8 (f.ex + 1)) f.rc v (omega arith) (omega arith)
        (omega arith) v.rc_byte)
  | inr same ↦ rw same (
      counters-IsValid f (f.s2 % 128) (u8 (f.cr + 1)) f.ex f.rc v (omega arith) (omega arith)
        v.ex_byte v.rc_byte)
]

carry_ex-IsValid : (f : Fcb) → IsValid f → IsValid (carry_ex f)
unfolding carry_ex
carry_ex-IsValid f v = elim (Bool-cases (ltb 31 f.ex)) [
  | inl carry ↦ rw carry (
      counters-IsValid f (u8 (f.s2 + 1)) f.cr 0 f.rc v (omega arith) v.cr_byte (omega arith)
        v.rc_byte)
  | inr same ↦ rw same v
]

-- Moving on keeps a control block valid, and so does setting its record count to a byte.
pub increase-IsValid : (f : Fcb) → IsValid f → IsValid (increase_sequential_offset f)
unfolding increase_sequential_offset
increase-IsValid f v = carry_ex-IsValid (increase_cr f) (increase_cr-IsValid f v)

pub rc-IsValid : (f : Fcb) (rc : ℕ) → IsValid f → IsByte rc → IsValid (record f { rc = rc })
rc-IsValid f rc v h = counters-IsValid f f.s2 f.cr f.ex rc v v.s2_byte v.cr_byte v.ex_byte h
