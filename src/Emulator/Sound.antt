-- ===== src/Emulator/Sound.antt =====
-- cpm/cpm.go: an invariant of the emulator, and rules for the results of handlers.
pub mod Tables
pub mod Console
pub mod Files
pub mod Records
pub mod Random
pub mod Directory
pub mod Bios
pub mod Calls
pub mod Rounds
use cpmulator.Base.{
  ℕ, Bool, true, false, Option, none, some, List, Text, if◌then◌else◌, ◌≤◌, ◌<◌, ◌≡◌, refl, ◌==◌,
}
use cpmulator.Assoc.{lookup}
use cpmulator.Memory.{Memory, set_range, get_range}
use cpmulator.Fcb.{Fcb, from_bytes}
use cpmulator.Host.{Host, Call, Handle, Opened, opened, not_exist, failed, get_handle}
use cpmulator.Host.Fresh.{OpensFresh, Fresh}
use cpmulator.Cpm.{Cpm, FileCache, Result}
use cpmulator.Bdos.Block.{with_fcb, with_stored}

-- Every handle of the cache is open on the host, under the name that is kept with it, and was given
-- out before; no two keys have the same handle; and the host fails to close no file.
pub record IsOpenTable (files : List (ℕ × FileCache)) (h : Host) : Type 0 where
  pub is_open :
      (key fd : ℕ) (obj : FileCache)
      → lookup ◌==◌ key files ≡ some obj
      → obj.handle ≡ some fd
      → (o : Handle) × (get_handle h fd ≡ some o) × (o.path ≡ obj.name) × (fd < h.next)
  pub apart :
      (j k fd : ℕ) (x y : FileCache)
      → lookup ◌==◌ j files ≡ some x
      → lookup ◌==◌ k files ≡ some y
      → x.handle ≡ some fd
      → y.handle ≡ some fd
      → j ≡ k
  pub closes : (p : Text) → h.faults Call.closing p ≡ false

-- The cache and the host agree, and the drive and the user number are in range.
abbrev pub IsSound : Cpm → Type 0
IsSound s = IsOpenTable s.files s.host × (s.current_drive ≤ 15) × (s.user_number ≤ 15)

-- The state that a call ends in, if it ends, has the invariant.
abbrev pub EndsSound : Result → Type 0
EndsSound (Result.returns e t) = IsSound t
EndsSound Result.panic = Unit
EndsSound Result.hang = Unit

-- A call that keeps the invariant.
abbrev pub Keeps : (Cpm → Result) → Type 0
Keeps call = (s : Cpm) → IsSound s → EndsSound (call s)

pub if-EndsSound :
    (b : Bool) (x y : Result) → EndsSound x → EndsSound y → EndsSound (if b then x else y)
if-EndsSound true x y v w = v
if-EndsSound false x y v w = w

pub option-EndsSound :
    {A : Type 0} (o : Option A) (x : Result) (k : A → Result)
    → EndsSound x
    → ((a : A) → o ≡ some a → EndsSound (k a))
    → EndsSound (elim o [ none ↦ x | some a ↦ k a ])
option-EndsSound none x k v w = v
option-EndsSound (some a) x k v w = w a refl

pub with_fcb-EndsSound :
    (ptr : ℕ) (s : Cpm) (k : Fcb → Result)
    → ((f : Fcb) → EndsSound (k f))
    → EndsSound (with_fcb ptr s k)
with_fcb-EndsSound ptr s k v =
    option-EndsSound (from_bytes (get_range s.memory ptr 36)) Result.panic k tt (λ f e. v f)

pub with_stored-EndsSound :
    (addr : ℕ) (bytes : List ℕ) (s : Cpm) (k : Cpm → Result)
    → ((m : Memory) → EndsSound (k (record s { memory = m })))
    → EndsSound (with_stored addr bytes s k)
with_stored-EndsSound addr bytes s k v =
    option-EndsSound (set_range s.memory addr bytes) Result.panic (λ m. k (record s { memory = m }))
      tt (λ m e. v m)

pub opened-EndsSound :
    (g : Host) (p : Text) (x : Opened) (k : ℕ → Host → Result) (y z : Result)
    → OpensFresh g p x
    → ((fd : ℕ) (h : Host) → Fresh g h fd p → EndsSound (k fd h))
    → EndsSound y
    → EndsSound z
    → EndsSound (elim x [ opened fd h ↦ k fd h | not_exist ↦ y | failed ↦ z ])
opened-EndsSound g p (Opened.opened fd h) k y z v w a b = w fd h v
opened-EndsSound g p Opened.not_exist k y z v w a b = a
opened-EndsSound g p Opened.failed k y z v w a b = b
