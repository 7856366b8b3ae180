-- ===== src/ConsoleOut/Adm3a/Translate.antt =====
-- consoleout/drv_adm3a.go refines the commands of the terminal: what is sent comes out in ANSI.
use cpmulator.Base.{ℕ, ◌≤◌, ◌≡◌, ◌++◌, Text, arith}
use cpmulator.ConsoleOut.Adm3a.{Adm3a, put_character}

-- The status of the machine stays one of the ten.
pub put_character-status : (c : ℕ) (d : Adm3a) → d.status ≤ 9 → (put_character c d).status ≤ 9
unfolding put_character
put_character-status c d h = ground arith

-- Back without a prefix, with a text written.
pub record Wrote (t : Text) (d e : Adm3a) : Type 0 where
  pub ready : e.status ≡ 0
  pub wrote : e.writer ≡ d.writer ++ t

-- The machine without a prefix.
abbrev at_rest : Adm3a → Adm3a
at_rest d = record d { status = 0 }
