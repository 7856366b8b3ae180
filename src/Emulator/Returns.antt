-- ===== src/Emulator/Returns.antt =====
-- cpm/cpm.go: handlers that neither panic nor hang, and rules for their results.
pub mod Sizes
pub mod Files
pub mod Random
pub mod Directory
pub mod Calls
use cpmulator.Base.{
  ℕ, ◌+◌, ◌≤◌, ◌≡◌, refl, sym, Bool, true, false, Option, none, some, List, if◌then◌else◌, length,
  arith,
}
use mathlib.Core.Path.{subst}
use cpmulator.Memory
use cpmulator.Memory.{Memory, get_range}
use cpmulator.Memory.Laws.{length-get_range}
use cpmulator.Fcb.{Fcb, fields, from_bytes, as_bytes}
use cpmulator.Fcb.Codec.{from_bytes-total}
use cpmulator.Fcb.Sized.{IsSized, length-sized}
use cpmulator.Emulator.Returns.Sizes.{fields-IsSized}
use cpmulator.Host.{Host, Opened, opened, not_exist, failed}
use cpmulator.Cpm.{Cpm, Error, Result}
use cpmulator.Bdos.Block.{with_fcb, with_stored}
use cpmulator.Bdos.Records.{with_stored-fits}

-- A call that returns without an error, or with one that is none of those that end a program.
abbrev pub Returns : Result → Type 0
Returns (Result.returns none t) = Unit
Returns (Result.returns (some Error.other) t) = Unit
Returns (Result.returns (some Error.exit) t) = ⊥
Returns (Result.returns (some Error.halt) t) = ⊥
Returns (Result.returns (some Error.boot) t) = ⊥
Returns (Result.returns (some Error.unimplemented) t) = ⊥
Returns Result.panic = ⊥
Returns Result.hang = ⊥

pub if-Returns : (b : Bool) (x y : Result) → Returns x → Returns y → Returns (if b then x else y)
if-Returns true x y v w = v
if-Returns false x y v w = w

pub option-Returns :
    {A : Type 0} (o : Option A) (x : Result) (k : A → Result)
    → Returns x
    → ((a : A) → o ≡ some a → Returns (k a))
    → Returns (elim o [ none ↦ x | some a ↦ k a ])
option-Returns none x k v w = v
option-Returns (some a) x k v w = w a refl

pub opened-Returns :
    (o : Opened) (k : ℕ → Host → Result) (y z : Result)
    → ((fd : ℕ) (h : Host) → Returns (k fd h))
    → Returns y
    → Returns z
    → Returns (elim o [ opened fd h ↦ k fd h | not_exist ↦ y | failed ↦ z ])
opened-Returns (Opened.opened fd h) k y z w a b = w fd h
opened-Returns Opened.not_exist k y z w a b = a
opened-Returns Opened.failed k y z w a b = b

-- A store that ends within the RAM.
pub with_stored-Returns :
    (addr : ℕ) (bytes : List ℕ) (s : Cpm) (k : Cpm → Result)
    → addr + length bytes ≤ 65536
    → ((m : Memory) → Returns (k (record s { memory = m })))
    → Returns (with_stored addr bytes s k)
with_stored-Returns addr bytes s k h v =
    subst Returns (sym (with_stored-fits addr bytes s k h)) (v (Memory.copy_at s.memory addr bytes))

-- A block can be read from anywhere.
pub with_fcb-Returns :
    (ptr : ℕ) (s : Cpm) (k : Fcb → Result)
    → ((f : Fcb) → IsSized f → Returns (k f))
    → Returns (with_fcb ptr s k)
with_fcb-Returns ptr s k v =
    let bytes = get_range s.memory ptr 36 in
    let known : from_bytes bytes ≡ some (fields bytes) =
      from_bytes-total bytes (omega (arith, length-get_range s.memory ptr 36)) in
    rw (known, with_fcb) (v (fields bytes) (fields-IsSized bytes))

-- A block is stored where it ends within the RAM.
pub block-Returns :
    (ptr : ℕ) (f : Fcb) (s : Cpm) (k : Cpm → Result)
    → ptr + 36 ≤ 65536
    → IsSized f
    → ((m : Memory) → Returns (k (record s { memory = m })))
    → Returns (with_stored ptr (as_bytes f) s k)
block-Returns ptr f s k h v =
    with_stored-Returns ptr (as_bytes f) s k (omega (arith, h, length-sized f v))
