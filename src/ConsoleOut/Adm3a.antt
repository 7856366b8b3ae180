-- ===== src/ConsoleOut/Adm3a.antt =====
-- consoleout/drv_adm3a.go: the driver that turns the control codes of an ADM-3A into ANSI ones.
pub mod Commands
pub mod Translate
use cpmulator.Base.{
  ℕ, ◌+◌, ◌-◌, ◌/◌, ◌%◌, [], ◌∷◌, ◌++◌, ltb, ◌==◌, if◌then◌else◌, ◌||◌, Text, u8, codes,
}
use cpmulator.Text.{utf8}

-- `Adm3AOutputDriver`; the writer is what has been written to it.
pub record Adm3a : Type 0 where
  pub status : ℕ
  pub x : ℕ
  pub y : ℕ
  pub writer : Text

abbrev pub print : Text → Adm3a → Adm3a
print t d = record d { writer = d.writer ++ t }

-- `"\033"` and a text.
abbrev pub esc : Text → Text
esc t = 0x1b ∷ t

abbrev pub digit : ℕ → ℕ
digit n = 48 + n % 10

-- `%d` of a `uint8`.
unfoldable pub decimal : ℕ → Text
decimal n =
    if ltb n 10
    then digit n ∷ []
    else if ltb n 100
    then digit (n / 10) ∷ digit n ∷ []
    else digit (n / 100) ∷ digit (n / 10) ∷ digit n ∷ []

-- `case 0`: no prefix.
unfoldable pub put_plain : ℕ → Adm3a → Adm3a
unfolding utf8
put_plain c d =
    if c == 0x07
    then print (esc (codes "[?5h") ++ esc (codes "[?5l")) d
    else if c == 0x7f
    then print (0x08 ∷ 32 ∷ 0x08 ∷ []) d
    else if c == 0x1a
    then print (esc (codes "[H") ++ esc (codes "[2J")) d
    else if c == 0x0c
    then print (esc (codes "[H") ++ esc (codes "[2J")) d
    else if c == 0x1e
    then print (esc (codes "[H")) d
    else if c == 0x1b
    then record d { status = 1 }
    else if c == 1
    then record d { status = 2 }
    else if c == 2
    then print (esc (codes "[L")) d
    else if c == 3
    then print (esc (codes "[M")) d
    else if c == 0x18 || c == 5
    then print (esc (codes "[K")) d
    else if c == 0x12 || c == 0x13
    then d
    else print (utf8 c) d

-- `case 1`: after an escape.
unfoldable pub put_escaped : ℕ → Adm3a → Adm3a
unfolding utf8
put_escaped c d =
    if c == 0x1b
    then print (utf8 c) d
    else if c == b'=' || c == b'Y'
    then record d { status = 2 }
    else if c == b'E'
    then print (esc (codes "[L")) d
    else if c == b'R'
    then print (esc (codes "[M")) d
    else if c == b'B'
    then record d { status = 4 }
    else if c == b'C'
    then record d { status = 5 }
    else if c == b'L' || c == b'D'
    then record d { status = 6 }
    else if c == b'*' || c == b' '
    then record d { status = 8 }
    else print (esc (utf8 c)) (record d { status = 0 })

-- `case 2` and `case 3`: the coordinates of a cursor motion.
unfoldable pub put_row : ℕ → Adm3a → Adm3a
put_row c d = record d { y = u8 (u8 (c + 256 - 32) + 1); status = 3 }

unfoldable pub put_column : ℕ → Adm3a → Adm3a
unfolding decimal
put_column c d =
    let x : ℕ = u8 (u8 (c + 256 - 32) + 1) in
    print (esc (b'[' ∷ decimal d.y ++ b';' ∷ decimal x ++ b'H' ∷ []))
      (record d { x = x; status = 0 })

-- What `case 4` writes.
unfoldable pub enable_text : ℕ → Text
unfolding utf8
enable_text c =
    if c == b'0'
    then esc (codes "[7m")
    else if c == b'1'
    then esc (codes "[1m")
    else if c == b'2'
    then esc (codes "[5m")
    else if c == b'3'
    then esc (codes "[4m")
    else if c == b'4'
    then esc (codes "[?25h")
    else if c == b'5'
    then []
    else if c == b'6'
    then esc (codes "[s")
    else if c == b'7'
    then []
    else esc (b'B' ∷ utf8 c)

-- What `case 5` writes.
unfoldable pub disable_text : ℕ → Text
unfolding utf8
disable_text c =
    if c == b'0'
    then esc (codes "[27m")
    else if c == b'1'
    then esc (codes "[m")
    else if c == b'2'
    then esc (codes "[25m")
    else if c == b'3'
    then esc (codes "[24m")
    else if c == b'4'
    then esc (codes "[?25l")
    else if c == b'6'
    then esc (codes "[u")
    else if c == b'5'
    then []
    else if c == b'7'
    then []
    else esc (b'C' ∷ utf8 c)

unfoldable pub put_character : ℕ → Adm3a → Adm3a
unfolding put_plain put_escaped put_row put_column enable_text disable_text
put_character c d =
    if d.status == 0
    then put_plain c d
    else if d.status == 1
    then put_escaped c d
    else if d.status == 2
    then put_row c d
    else if d.status == 3
    then put_column c d
    else if d.status == 4
    then print (enable_text c) (record d { status = 0 })
    else if d.status == 5
    then print (disable_text c) (record d { status = 0 })
    else if d.status == 6 || d.status == 7 || d.status == 8
    then record d { status = d.status + 1 }
    else if d.status == 9
    then record d { status = 0 }
    else d

-- `SetWriter`
unfoldable pub set_writer : Text → Adm3a → Adm3a
set_writer w d = record d { writer = w }

-- What the constructor that `init` registers makes.
abbrev pub fresh : Adm3a
fresh = record { status = 0; x = 0; y = 0; writer = [] }

-- A text, character by character.
unfoldable pub put_text : Text → Adm3a → Adm3a
put_text [] d = d
put_text (c ∷ s) d = put_text s (put_character c d)
