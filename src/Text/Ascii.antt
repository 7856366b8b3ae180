-- ===== src/Text/Ascii.antt =====
-- Characters of one byte.
use cpmulator.Base.{ℕ, ◌<◌, ◌≡◌, refl, [], ◌∷◌, lt→ltb}
use cpmulator.Text.{utf8}

abbrev pub IsAscii : ℕ → Type 0
IsAscii c = c < 128

pub utf8_ascii : (c : ℕ) → c < 128 → utf8 c ≡ c ∷ []
unfolding utf8
utf8_ascii c h = rw (lt→ltb c 128 h) refl
