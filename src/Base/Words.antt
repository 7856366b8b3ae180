-- ===== src/Base/Words.antt =====
-- Go's `uint8` and `uint16`: natural numbers that wrap.
use Prim.Native.Nat.{ℕ, ◌%◌, ◌<◌}
use Prim.Native.Char.{code}
use Prim.Native.String.{String}
use mathlib.Core.List.{List, [], ◌∷◌}

-- A text is the list of its bytes.
abbrev pub Text : Type 0
Text = List ℕ

-- `uint8(x)`
abbrev pub u8 : ℕ → ℕ
u8 x = x % 256

-- `uint16(x)`
abbrev pub u16 : ℕ → ℕ
u16 x = x % 65536

abbrev pub IsByte : ℕ → Type 0
IsByte x = x < 256

-- The bytes of an ASCII text literal.
abbrev pub codes : String → Text
codes String.[] = []
codes (String.◌∷◌ c s) = code c ∷ codes s
