-- ===== src/ConsoleOut/Adm3a/Commands.antt =====
-- The commands of an ADM-3A terminal: the bytes by which a program sends each, and the ANSI text
-- that stands for it. This is the specification of consoleout/drv_adm3a.go.
use cpmulator.Base.{ℕ, ◌+◌, ◌≤◌, ◌<◌, ◌≢◌, ◌⊎◌, List, [], ◌∷◌, ◌++◌, Text, codes}
use cpmulator.Text.{utf8}
use cpmulator.ConsoleOut.Adm3a.{esc, decimal}

-- An attribute of the screen that is switched on, then off, by a digit.
pub data Attribute : Type 0 where
  reverse half blink underline cursor video position status_line : Attribute

abbrev pub attribute_digit : Attribute → ℕ
attribute_digit Attribute.reverse = b'0'
attribute_digit Attribute.half = b'1'
attribute_digit Attribute.blink = b'2'
attribute_digit Attribute.underline = b'3'
attribute_digit Attribute.cursor = b'4'
attribute_digit Attribute.video = b'5'
attribute_digit Attribute.position = b'6'
attribute_digit Attribute.status_line = b'7'

abbrev pub enabled : Attribute → Text
enabled Attribute.reverse = esc (codes "[7m")
enabled Attribute.half = esc (codes "[1m")
enabled Attribute.blink = esc (codes "[5m")
enabled Attribute.underline = esc (codes "[4m")
enabled Attribute.cursor = esc (codes "[?25h")
enabled Attribute.position = esc (codes "[s")
enabled _ = []

abbrev pub disabled : Attribute → Text
disabled Attribute.reverse = esc (codes "[27m")
disabled Attribute.half = esc (codes "[m")
disabled Attribute.blink = esc (codes "[25m")
disabled Attribute.underline = esc (codes "[24m")
disabled Attribute.cursor = esc (codes "[?25l")
disabled Attribute.position = esc (codes "[u")
disabled _ = []

-- The three prefixes of a cursor motion.
pub data Prefix : Type 0 where
  control equals vt52 : Prefix

abbrev pub prefix_bytes : Prefix → Text
prefix_bytes Prefix.control = 1 ∷ []
prefix_bytes Prefix.equals = 0x1b ∷ b'=' ∷ []
prefix_bytes Prefix.vt52 = 0x1b ∷ b'Y' ∷ []

pub data Command : Type 0 where
  character : ℕ → Command
  bell rubout clear_screen clear_vt52 home insert_line delete_line clear_to_eol skip : Command
  move : Prefix → ℕ → ℕ → Command
  enable disable : Attribute → Command
  line : ℕ → ℕ → ℕ → ℕ → Command
  pixel : ℕ → ℕ → Command

abbrev pub send : Command → Text
send (Command.character c) = c ∷ []
send Command.bell = 0x07 ∷ []
send Command.rubout = 0x7f ∷ []
send Command.clear_screen = 0x1a ∷ []
send Command.clear_vt52 = 0x0c ∷ []
send Command.home = 0x1e ∷ []
send Command.insert_line = 2 ∷ []
send Command.delete_line = 3 ∷ []
send Command.clear_to_eol = 0x18 ∷ []
send Command.skip = 0x12 ∷ []
send (Command.move p row column) = prefix_bytes p ++ (row + 31) ∷ (column + 31) ∷ []
send (Command.enable a) = 0x1b ∷ b'B' ∷ attribute_digit a ∷ []
send (Command.disable a) = 0x1b ∷ b'C' ∷ attribute_digit a ∷ []
send (Command.line a b c d) = 0x1b ∷ b'L' ∷ a ∷ b ∷ c ∷ d ∷ []
send (Command.pixel a b) = 0x1b ∷ b'*' ∷ a ∷ b ∷ []

abbrev pub ansi : Command → Text
ansi (Command.character c) = utf8 c
ansi Command.bell = esc (codes "[?5h") ++ esc (codes "[?5l")
ansi Command.rubout = 0x08 ∷ 32 ∷ 0x08 ∷ []
ansi Command.clear_screen = esc (codes "[H") ++ esc (codes "[2J")
ansi Command.clear_vt52 = esc (codes "[H") ++ esc (codes "[2J")
ansi Command.home = esc (codes "[H")
ansi Command.insert_line = esc (codes "[L")
ansi Command.delete_line = esc (codes "[M")
ansi Command.clear_to_eol = esc (codes "[K")
ansi Command.skip = []
ansi (Command.move p row column) = esc (b'[' ∷ decimal row ++ b';' ∷ decimal column ++ b'H' ∷ [])
ansi (Command.enable a) = enabled a
ansi (Command.disable a) = disabled a
ansi (Command.line a b c d) = []
ansi (Command.pixel a b) = []

-- A character that is no control code of the terminal.
pub record IsCharacter (c : ℕ) : Type 0 where
  pub no_low : (c < 1) ⊎ (3 < c)
  pub no_eol : (c ≢ 5) × (c ≢ 0x18)
  pub no_bell : c ≢ 0x07
  pub no_clear : (c ≢ 0x0c) × (c ≢ 0x1a)
  pub no_skip : (c ≢ 0x12) × (c ≢ 0x13)
  pub no_escape : c ≢ 0x1b
  pub no_home : c ≢ 0x1e
  pub no_rubout : c ≢ 0x7f

-- What a program may send: coordinates count from 1, and a byte holds them.
abbrev pub IsProper : Command → Type 0
IsProper (Command.character c) = IsCharacter c
IsProper (Command.move p row column) = ((1 ≤ row) × (row ≤ 224)) × ((1 ≤ column) × (column ≤ 224))
IsProper _ = Unit

abbrev pub send_all : List Command → Text
send_all [] = []
send_all (c ∷ cs) = send c ++ send_all cs

abbrev pub ansi_all : List Command → Text
ansi_all [] = []
ansi_all (c ∷ cs) = ansi c ++ ansi_all cs
