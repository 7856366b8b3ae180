-- ===== src/ConsoleIn/Line/Safety.antt =====
-- consolein/consolein.go, `ReadLine`: it ends, it never reads outside the history, and its text fits.
use cpmulator.Base.{
  ℕ, zero, suc, ◌+◌, ◌-◌, ◌≤◌, ◌<◌, ◌≡◌, refl, ap, inl, inr, Option, none, some, List, [], ◌∷◌,
  length, Text, arith, Bool-cases, ltb, leb, ◌==◌, le→not_ltb, length-take, text_eq,
}
use mathlib.Core.Path.{subst⁻¹}
use cpmulator.Text.{is_print}
use cpmulator.ConsoleIn.{ConsoleIn, Driver, Read, block_no_echo, available}
use cpmulator.ConsoleIn.Line.{
  Line, Turn, Outcome, Action, entry, entry_back, recall, newer, older, ctrl_c, newline, backspace,
  keep, turn, erase_input, after_turn, after_read, loop, finish, trim_newline, after_line,
  read_lines, read_line, is_system,
}

-- A step back in the history stays inside it.
abbrev InHistory : Line → Type 0
InHistory l = l.offset ≤ length l.console.history

-- The input that is left is untouched.
abbrev SameInput : ConsoleIn → ConsoleIn → Type 0
SameInput a b = (b.stuffed ≡ a.stuffed) × (b.driver ≡ a.driver)

-- A round of the loop that keeps to the history and to the input.
abbrev Keeps : ConsoleIn → Turn → Type 0
Keeps co (Turn.go l) = SameInput co l.console × InHistory l
Keeps co (Turn.stop l) = SameInput co l.console
Keeps co (Turn.interrupt l) = SameInput co l.console
Keeps co Turn.panic = ⊥

entry_in : (i : ℕ) (hs : List Text) → i < length hs → (t : Text) × (entry i hs ≡ some t)
unfolding entry
entry_in i [] h = absurd (omega arith)
entry_in zero (t ∷ ts) h = (t, refl)
entry_in (suc i) (t ∷ ts) h = entry_in i ts (omega arith)

entry_back_in :
    (offset : ℕ) (hs : List Text)
    → 1 ≤ offset
    → offset ≤ length hs
    → (t : Text) × (entry_back offset hs ≡ some t)
unfolding entry_back
entry_back_in offset hs p h =
    let (t, e) = entry_in (length hs - offset) hs (omega arith) in
    (t, rw (le→not_ltb (length hs) offset h, e, entry_back) refl)

recall-Keeps : (l : Line) → 1 ≤ l.offset → InHistory l → Keeps l.console (recall l)
unfolding recall
recall-Keeps l p h =
    let (t, e) = entry_back_in l.offset l.console.history p h in rw (e, recall) ((refl, refl), h)

newer-Keeps : (l : Line) → InHistory l → Keeps l.console (newer l)
unfolding newer erase_input
newer-Keeps l h = elim (Bool-cases (leb 1 l.offset)) [
  | inl back ↦
      let l' = erase_input (record l { offset = l.offset - 1 }) in
      elim (Bool-cases
        (ltb (length l.console.history) (length l.console.history + (l.offset - 1)))) [
          | inl some_left ↦ rw (back, some_left) (recall-Keeps l' (ground arith) (omega arith))
          | inr none_left ↦ rw (back, none_left) ((refl, refl), omega arith)
        ]
  | inr at_end ↦ rw at_end ((refl, refl), h)
]

older-Keeps : (l : Line) → InHistory l → Keeps l.console (older l)
unfolding older erase_input
older-Keeps l h = elim (Bool-cases (leb (length l.console.history) l.offset)) [
  | inl at_end ↦ rw at_end ((refl, refl), h)
  | inr more ↦
      rw more (
        recall-Keeps (erase_input (record l { offset = l.offset + 1 })) (omega arith)
          (ground arith))
]

ctrl_c-Keeps : (l : Line) → InHistory l → Keeps l.console (ctrl_c l)
unfolding ctrl_c
ctrl_c-Keeps l h = elim (Bool-cases (text_eq l.text [])) [
  | inl empty ↦ elim (Bool-cases (l.ctrl_count + 1 == l.console.interrupt_count)) [
    | inl limit ↦ rw (empty, limit) (refl, refl)
    | inr below ↦ rw (empty, below) ((refl, refl), h)
  ]
  | inr typed ↦ rw typed ((refl, refl), h)
]

newline-Keeps : (l : Line) → InHistory l → Keeps l.console (newline l)
unfolding newline
newline-Keeps l h = elim (Bool-cases (text_eq l.text [])) [
  | inl empty ↦ rw empty (refl, refl)
  | inr typed ↦ rw typed (refl, refl)
]

backspace-Keeps : (l : Line) → InHistory l → Keeps l.console (backspace l)
unfolding backspace
backspace-Keeps l h = elim (Bool-cases (leb 1 (length l.text))) [
  | inl typed ↦ rw typed ((refl, refl), h)
  | inr empty ↦ rw empty ((refl, refl), h)
]

keep-Keeps : (max x : ℕ) (l : Line) → InHistory l → Keeps l.console (keep max x l)
unfolding keep
keep-Keeps max x l h = elim (Bool-cases (leb max (length l.text))) [
  | inl full ↦ rw full (refl, refl)
  | inr room ↦ elim (Bool-cases (is_print x)) [
    | inl shown ↦ rw (room, shown) ((refl, refl), h)
    | inr dropped ↦ rw (room, dropped) ((refl, refl), h)
  ]
]

turn-Keeps : (max x : ℕ) (l : Line) → InHistory l → Keeps l.console (turn max x l)
unfolding turn erase_input
turn-Keeps max x l h = ground (
  arith,
  newer-Keeps l h,
  older-Keeps l h,
  ctrl_c-Keeps l h,
  newline-Keeps (record l { ctrl_count = 0 }) h,
  backspace-Keeps (record l { ctrl_count = 0 }) h,
  keep-Keeps max x (record l { ctrl_count = 0 }) h,
)

-- A character that is read is one less to come.
abbrev Reads : ConsoleIn → Read → Type 0
Reads co (Read.key c co') = (available co ≡ suc (available co')) × (co'.history ≡ co.history)
Reads co _ = Unit

block_no_echo-Reads : (co : ConsoleIn) → Reads co (block_no_echo co)
unfolding block_no_echo
block_no_echo-Reads co = from co.stuffed co.driver.keys
  where
    from :
        (s : Text) (keys : List (Option ℕ))
        → Reads
            (record co { stuffed = s; driver = record (co.driver) { keys = keys } })
            (block_no_echo (record co { stuffed = s; driver = record (co.driver) { keys = keys } }))
    from [] [] = tt
    from [] (none ∷ keys) = tt
    from [] (some c ∷ keys) = (omega arith, refl)
    from (c ∷ s) keys = (omega arith, refl)

-- The call ends, and used some of the input if it ends with a line.
abbrev Ends : ℕ → Outcome → Type 0
Ends n (Outcome.line t co) = available co < n
Ends n Outcome.spent = ⊥
Ends n Outcome.panicked = ⊥
Ends n _ = Unit

Ends-mono : (m n : ℕ) (o : Outcome) → m ≤ n → Ends m o → Ends n o
Ends-mono m n (Outcome.line t co) h e = omega arith
Ends-mono m n (Outcome.interrupted co) h e = tt
Ends-mono m n _ h e = e

after_turn-Ends :
    (co : ConsoleIn) (again : Line → Outcome) (t : Turn)
    → Keeps co t
    → ((l : Line) → InHistory l → SameInput co l.console → Ends (suc (available co)) (again l))
    → Ends (suc (available co)) (after_turn again t)
unfolding after_turn
after_turn-Ends co again (Turn.go l) k f = f l k.1 k.0
after_turn-Ends co again (Turn.stop l) k f =
    omega (arith, ap length k.0, ap (λ (d : Driver). length d.keys) k.1)
after_turn-Ends co again (Turn.interrupt l) k f = tt
after_turn-Ends co again Turn.panic k f = k

same-available : (a b : ConsoleIn) → SameInput a b → available b ≡ available a
same-available a b s = omega (arith, ap length s.0, ap (λ (d : Driver). length d.keys) s.1)

loop-Ends :
    (max fuel : ℕ) (l : Line)
    → InHistory l
    → available l.console < fuel
    → Ends (available l.console) (loop max fuel l)
unfolding loop after_read
loop-Ends max zero l h f = absurd (omega arith)
loop-Ends max (suc fuel) l h f =
    on (block_no_echo l.console) (block_no_echo-Reads l.console) (λ m. loop-Ends max fuel m)
  where
    on :
        (r : Read)
        → Reads l.console r
        → ((m : Line)
            → InHistory m
            → available m.console < fuel
            → Ends (available m.console) (loop max fuel m))
        → Ends (available l.console) (after_read max (loop max fuel) l r)
    on (Read.key x co) reads ih =
        subst⁻¹ (λ n. Ends n (after_turn (loop max fuel) (turn max x (record l { console = co }))))
          reads.0
          (after_turn-Ends co (loop max fuel) (turn max x (record l { console = co }))
            (turn-Keeps max x (record l { console = co }) (rw reads.1 h))
            (λ m hm s.
              let e = same-available co m.console s in
              Ends-mono (available m.console) (suc (available co)) (loop max fuel m) (omega arith)
                (ih m hm (omega arith))))
    on (Read.error co) reads ih = tt
    on Read.wait reads ih = tt

-- The call comes to an end that the source has: no index is out of range, the fuel of the model is
-- not used up, and a text that is returned has no more than `max` bytes.
abbrev pub IsProper : ℕ → Outcome → Type 0
IsProper max (Outcome.line t co) = length t ≤ max
IsProper max Outcome.spent = ⊥
IsProper max Outcome.panicked = ⊥
IsProper max _ = Unit

length-finish : (max : ℕ) (t : Text) → length (finish max t) ≤ max
unfolding finish
length-finish max t = elim (Bool-cases (ltb max (length (trim_newline t)))) [
  | inl long ↦ rw long (omega (arith, length-take max (trim_newline t)))
  | inr short ↦ rw short (ground arith)
]

module _ (perform : Action → Text) where
  after_line-IsProper :
      (max n : ℕ) (again : ConsoleIn → Outcome) (o : Outcome)
      → Ends n o
      → ((co : ConsoleIn) → available co < n → IsProper max (again co))
      → IsProper max (after_line perform max again o)
  unfolding after_line
  after_line-IsProper max n again (Outcome.line t co) e f =
      elim (Bool-cases (is_system co.system_prefix (finish max t))) [
        | inl system ↦ rw system (f _ e)
        | inr plain ↦ rw plain (length-finish max t)
      ]
  after_line-IsProper max n again (Outcome.interrupted co) e f = tt
  after_line-IsProper max n again (Outcome.failed co) e f = tt
  after_line-IsProper max n again Outcome.blocked e f = tt
  after_line-IsProper max n again Outcome.panicked e f = e
  after_line-IsProper max n again Outcome.spent e f = e

  read_lines-IsProper :
      (rounds fuel max : ℕ) (co : ConsoleIn)
      → available co < rounds
      → available co < fuel
      → IsProper max (read_lines perform rounds fuel max co)
  unfolding read_lines
  read_lines-IsProper zero fuel max co h k = absurd (omega arith)
  read_lines-IsProper (suc rounds) fuel max co h k =
      after_line-IsProper max (available co) (read_lines perform rounds fuel max)
        (loop max fuel start) (loop-Ends max fuel start (omega arith) k)
        (λ co' p. read_lines-IsProper rounds fuel max co' (omega arith) (omega arith))
    where
      start : Line
      start = record { text = []; ctrl_count = 0; offset = 0; console = co }

  -- `ReadLine` ends whatever is typed, by a line, an interrupt, an error, or by waiting for keys
  -- that do not come; it never reads outside the history; and a line has at most `max` bytes.
  pub read_line-IsProper : (max : ℕ) (co : ConsoleIn) → IsProper max (read_line perform max co)
  unfolding read_line
  read_line-IsProper max co =
      read_lines-IsProper (suc (available co)) (suc (available co)) max co (omega arith)
        (omega arith)
