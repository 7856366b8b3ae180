-- ===== src/ConsoleIn/Line.antt =====
-- consolein/consolein.go, `ReadLine`: one line of input, edited as it is typed.
pub mod Safety
pub mod Incoming
pub mod Typed
pub mod Interrupt
use cpmulator.Base.{
  ℕ, zero, suc, ◌+◌, ◌-◌, Bool, true, false, ◌&&◌, ◌||◌, not, Option, none, some, List, [], ◌∷◌,
  ◌++◌, if◌then◌else◌, length, take, drop, Text, text_eq, codes, leb, ltb, ◌==◌,
}
use cpmulator.Text.{utf8, is_print, has_prefix, contains, split, trim_space}
use cpmulator.ConsoleIn.{ConsoleIn, Read, block_no_echo, print}

-- The variables of the loop, with the console.
pub record Line : Type 0 where
  pub text : Text
  pub ctrl_count : ℕ
  pub offset : ℕ
  pub console : ConsoleIn

-- What one character leads to: the next round of the loop, its end, `ErrInterrupted`, or the panic
-- of an index out of range.
pub data Turn : Type 0 where
  go : Line → Turn
  stop : Line → Turn
  interrupt : Line → Turn
  panic : Turn

-- `"\b \b"`, `n` times.
unfoldable pub rub_out : ℕ → Text
rub_out zero = []
rub_out (suc n) = 8 ∷ 32 ∷ 8 ∷ rub_out n

abbrev pub show : Text → Line → Line
show t l = record l { console = print t l.console }

-- `eraseInput`
unfoldable pub erase_input : Line → Line
unfolding rub_out
erase_input l = record l { text = []; console = print (rub_out (length l.text)) l.console }

-- `text[:len(text)-1]`
unfoldable pub drop_last : Text → Text
drop_last [] = []
drop_last (c ∷ []) = []
drop_last (c ∷ d ∷ s) = c ∷ drop_last (d ∷ s)

-- `history[i]`; `none` is a panic.
unfoldable pub entry : ℕ → List Text → Option Text
entry i [] = none
entry zero (t ∷ ts) = some t
entry (suc i) (t ∷ ts) = entry i ts

-- `history[len(history)-offset]`; `none` is the panic of an index below zero or beyond the end.
unfoldable pub entry_back : ℕ → List Text → Option Text
unfolding entry
entry_back offset history =
    if ltb (length history) offset then none else entry (length history - offset) history

-- `text = history[len(history)-offset]`, shown.
unfoldable pub recall : Line → Turn
unfolding entry_back
recall l = elim (entry_back l.offset l.console.history) [
  | none ↦ Turn.panic
  | some t ↦ Turn.go (show t (record l { text = t }))
]

-- Ctrl-N. The source tests `len(history)-offset < len(history)`, here with `offset` on both sides.
unfoldable pub newer : Line → Turn
unfolding recall erase_input
newer l =
    if leb 1 l.offset
    then (if ltb (length l.console.history) (length l.console.history + (l.offset - 1))
        then recall (erase_input (record l { offset = l.offset - 1 }))
        else Turn.go (erase_input (record l { offset = l.offset - 1 })))
    else Turn.go l

-- Ctrl-P
unfoldable pub older : Line → Turn
unfolding recall erase_input
older l =
    if leb (length l.console.history) l.offset
    then Turn.go l
    else recall (erase_input (record l { offset = l.offset + 1 }))

-- Ctrl-C, which counts at the start of the line only.
unfoldable pub ctrl_c : Line → Turn
ctrl_c l =
    if text_eq l.text []
    then (if l.ctrl_count + 1 == l.console.interrupt_count
        then Turn.interrupt (record l { ctrl_count = l.ctrl_count + 1 })
        else Turn.go (record l { ctrl_count = l.ctrl_count + 1 }))
    else Turn.go l

-- The line is added unless it repeats the last one.
unfoldable pub add_history : Text → List Text → List Text
add_history t [] = t ∷ []
add_history t (s ∷ []) = if text_eq t s then s ∷ [] else s ∷ t ∷ []
add_history t (s ∷ r ∷ hs) = s ∷ add_history t (r ∷ hs)

unfoldable pub newline : Line → Turn
unfolding add_history
newline l = Turn.stop (record l { text = l.text ++ 10 ∷ []; console = kept })
  where
    kept : ConsoleIn
    kept =
        if text_eq l.text []
        then l.console
        else record (l.console) { history = add_history l.text l.console.history }

unfoldable pub backspace : Line → Turn
unfolding drop_last
backspace l =
    if leb 1 (length l.text)
    then Turn.go (show (8 ∷ 32 ∷ 8 ∷ []) (record l { text = drop_last l.text }))
    else Turn.go l

-- The maximum ends the line; a printable character is shown and kept.
unfoldable pub keep : ℕ → ℕ → Line → Turn
unfolding utf8 is_print
keep max x l =
    if leb max (length l.text)
    then Turn.stop l
    else if is_print x
    then Turn.go (show (utf8 x) (record l { text = l.text ++ utf8 x }))
    else Turn.go l

-- One round of the loop, for the character `x`.
unfoldable pub turn : ℕ → ℕ → Line → Turn
unfolding erase_input newer older ctrl_c newline backspace keep
turn max x l =
    if x == 27 || x == 24
    then Turn.go (erase_input l)
    else if x == 14
    then newer l
    else if x == 16
    then older l
    else if x == 3
    then ctrl_c l
    else let l' = record l { ctrl_count = 0 } in
      if x == 10 || x == 13
      then newline l'
      else if x == 8 || x == 127
      then backspace l'
      else keep max x l'

-- How the call ends. `blocked` waits for a key that does not come; `spent` is that the fuel of the
-- model ran out.
pub data Outcome : Type 0 where
  line : Text → ConsoleIn → Outcome
  interrupted : ConsoleIn → Outcome
  failed : ConsoleIn → Outcome
  blocked panicked spent : Outcome

unfoldable pub after_turn : (Line → Outcome) → Turn → Outcome
after_turn again (Turn.go l) = again l
after_turn again (Turn.stop l) = Outcome.line l.text l.console
after_turn again (Turn.interrupt l) = Outcome.interrupted l.console
after_turn again Turn.panic = Outcome.panicked

unfoldable pub after_read : ℕ → (Line → Outcome) → Line → Read → Outcome
unfolding after_turn turn
after_read max again l (Read.key x co) = after_turn again (turn max x (record l { console = co }))
after_read max again l (Read.error co) = Outcome.failed co
after_read max again l Read.wait = Outcome.blocked

unfoldable pub loop : ℕ → ℕ → Line → Outcome
unfolding after_read block_no_echo
loop max zero l = Outcome.spent
loop max (suc fuel) l = after_read max (loop max fuel) l (block_no_echo l.console)

-- `strings.TrimSuffix(text, "\n")`
unfoldable pub trim_newline : Text → Text
trim_newline [] = []
trim_newline (c ∷ []) = if c == 10 then [] else c ∷ []
trim_newline (c ∷ d ∷ s) = c ∷ trim_newline (d ∷ s)

-- "Too much entered?  Truncate the text."
unfoldable pub finish : ℕ → Text → Text
unfolding trim_newline
finish max text =
    if ltb max (length (trim_newline text)) then take max (trim_newline text) else trim_newline text

-- What a line with the system prefix asks of the host.
pub data Action : Type 0 where
  chdir : Text → Action
  run : List Text → Action

abbrev pub needs_shell : Text → Bool
needs_shell text =
    contains b'>' text || contains b'&' text || contains b'|' text || contains b'<' text

-- The second of the parts of "cd dir".
abbrev pub second : List Text → Text
second [] = []
second (p ∷ ps) = p

unfoldable pub action : Text → Action
unfolding has_prefix contains split
action text =
    if has_prefix text (codes "cd ")
    then Action.chdir (second (split 32 text).1)
    else if needs_shell text
    then Action.run (codes "bash" ∷ codes "-c" ∷ text ∷ [])
    else Action.run ((split 32 text).0 ∷ (split 32 text).1)

-- Whether the line is for the host.
abbrev pub is_system : Text → Text → Bool
is_system prefix text = not (text_eq prefix []) && has_prefix text prefix

-- `perform` is what carrying out an action on the host prints.
module _ (perform : Action → Text) where
  unfoldable pub after_line : ℕ → (ConsoleIn → Outcome) → Outcome → Outcome
  unfolding finish action trim_space has_prefix
  after_line max again (Outcome.line text co) =
      let t = finish max text in
      if is_system co.system_prefix t
      then again (print (perform (action (trim_space (drop (length co.system_prefix) t)))) co)
      else Outcome.line t co
  after_line max again outcome = outcome

  -- The fuel bounds the lines and the characters of each: `rounds` lines, of `fuel` characters.
  unfoldable pub read_lines : ℕ → ℕ → ℕ → ConsoleIn → Outcome
  unfolding after_line loop
  read_lines zero fuel max co = Outcome.spent
  read_lines (suc rounds) fuel max co =
      after_line max (read_lines rounds fuel max)
        (loop max fuel (record { text = []; ctrl_count = 0; offset = 0; console = co }))

  -- `ReadLine`: each line takes a character at least, so the characters to come bound both.
  unfoldable pub read_line : ℕ → ConsoleIn → Outcome
  unfolding read_lines
  read_line max co = read_lines (suc n) (suc n) max co
    where
      n : ℕ
      n = length co.stuffed + length co.driver.keys
