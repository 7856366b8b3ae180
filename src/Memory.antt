-- ===== src/Memory.antt =====
-- memory/memory.go: the 64k of RAM.
pub mod Laws
pub mod Ranges
use cpmulator.Base.{
  ℕ, zero, suc, ◌+◌, ◌*◌, Bool, true, false, Option, none, some, List, [], ◌∷◌, ◌==◌, leb,
  if◌then◌else◌, length, u16, Text,
}

-- `buf` at an address below 65536. Every access of the source is at a `uint16`.
pub record Memory : Type 0 where
  pub buf : ℕ → ℕ

-- `m.buf[addr] = value`
unfoldable pub set : Memory → ℕ → ℕ → Memory
set m addr value = record { buf = λ a. if a == addr then value else m.buf a }

unfoldable pub get : Memory → ℕ → ℕ
get m addr = m.buf addr

-- The loop of `FillRange`: `addr++` wraps at 65536.
unfoldable pub fill_range : Memory → ℕ → ℕ → ℕ → Memory
fill_range m addr zero char = m
fill_range m addr (suc size) char = fill_range (set m addr char) (u16 (addr + 1)) size char

unfoldable pub get_range : Memory → ℕ → ℕ → List ℕ
get_range m addr zero = []
get_range m addr (suc size) = get m addr ∷ get_range m (u16 (addr + 1)) size

unfoldable pub get_u16 : Memory → ℕ → ℕ
get_u16 m addr = get m (u16 (addr + 1)) * 256 + get m addr

-- `copy` into `buf[addr : addr + len(data)]`, whose bounds are at most 65536: no wrap.
unfoldable pub copy_at : Memory → ℕ → List ℕ → Memory
copy_at m addr [] = m
copy_at m addr (x ∷ xs) = copy_at (set m addr x) (addr + 1) xs

-- `none` is the panic of a slice expression out of range.
unfoldable pub set_range : Memory → ℕ → List ℕ → Option Memory
set_range m addr bytes =
    if leb (addr + length bytes) 65536 then some (copy_at m addr bytes) else none

abbrev pub empty : Memory
empty = record { buf = λ a. 0 }

-- `LoadFile`, given what `os.ReadFile` returns (`none` is an error). The result is the memory and
-- whether an error is returned.
unfoldable pub load_file : Memory → ℕ → Option Text → Option (Memory × Bool)
load_file m offset none = some (empty, true)
load_file m offset (some prog) = elim (set_range empty offset prog) [
  | none ↦ none
  | some m' ↦ some (m', false)
]
