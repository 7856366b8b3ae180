-- ===== src/Text.antt =====
-- What the program uses of Go's `strings` and `unicode`, on texts as lists of bytes. Letters are
-- changed in case as in ASCII; all else holds of any valid UTF-8.
pub mod Trim
pub mod Ascii
use cpmulator.Base.{
  ℕ, zero, suc, ◌+◌, ◌-◌, ◌/◌, ◌%◌, Bool, true, false, ◌&&◌, ◌||◌, List, [], ◌∷◌, ◌++◌, map,
  reverse, ltb, leb, ◌==◌, if◌then◌else◌, length, Text, text_eq, drop,
}

unfoldable pub upper_byte : ℕ → ℕ
upper_byte c = if leb b'a' c && leb c b'z' then c - 32 else c

unfoldable pub lower_byte : ℕ → ℕ
lower_byte c = if leb b'A' c && leb c b'Z' then c + 32 else c

-- `strings.ToUpper`
unfoldable pub to_upper : Text → Text
unfolding upper_byte
to_upper = map upper_byte

-- `strings.ToLower`
unfoldable pub to_lower : Text → Text
unfolding lower_byte
to_lower = map lower_byte

-- `string(c)` of a byte: the UTF-8 of the code point `c`.
unfoldable pub utf8 : ℕ → Text
utf8 c = if ltb c 128 then c ∷ [] else (192 + c / 64) ∷ (128 + c % 64) ∷ []

-- `unicode.IsPrint` of a code point below 256.
unfoldable pub is_print : ℕ → Bool
is_print c = (leb 0x20 c && leb c 0x7e) || (leb 0xa1 c && not_soft_hyphen)
  where
    not_soft_hyphen : Bool
    not_soft_hyphen = if c == 0xad then false else true

-- The first part of `strings.Split(s, sep)` and the parts after it.
unfoldable pub split : ℕ → Text → Text × List Text
split sep [] = ([], [])
split sep (c ∷ s) =
    let (part, parts) = split sep s in if c == sep then ([], part ∷ parts) else (c ∷ part, parts)

-- `strings.Contains` of one byte.
unfoldable pub contains : ℕ → Text → Bool
contains b [] = false
contains b (c ∷ s) = c == b || contains b s

-- `strings.HasPrefix`
unfoldable pub has_prefix : Text → Text → Bool
has_prefix s [] = true
has_prefix [] (p ∷ ps) = false
has_prefix (c ∷ s) (p ∷ ps) = c == p && has_prefix s ps

-- White space of one byte: tab, newline, vertical tab, form feed, carriage return, space.
unfoldable pub is_space : ℕ → Bool
is_space c = c == 32 || (leb 9 c && leb c 13)

-- U+0085 and U+00A0, which take two bytes.
unfoldable pub wide_space : ℕ → ℕ → Bool
wide_space b c = b == 0xc2 && (c == 0x85 || c == 0xa0)

-- White space in front is dropped; `wide` says whether two bytes are such a character.
unfoldable pub trim_front : (ℕ → ℕ → Bool) → Text → Text
unfolding is_space
trim_front wide [] = []
trim_front wide (b ∷ []) = if is_space b then [] else b ∷ []
trim_front wide (b ∷ c ∷ s) =
    let one = trim_front wide (c ∷ s) in
    let two = trim_front wide s in if is_space b then one else if wide b c then two else b ∷ c ∷ s

-- `strings.TrimSpace`
unfoldable pub trim_space : Text → Text
unfolding trim_front wide_space
trim_space s = reverse (trim_front (λ c b. wide_space b c) (reverse (trim_front wide_space s)))

-- `strings.Join`
unfoldable pub join : Text → List Text → Text
join sep [] = []
join sep (p ∷ []) = p
join sep (p ∷ q ∷ ps) = p ++ sep ++ join sep (q ∷ ps)
