-- ===== src/ConsoleIn/Line/Interrupt.antt =====
-- consolein/consolein.go, `ReadLine`: when Ctrl-C interrupts it.
use cpmulator.Base.{
  ℕ, zero, suc, ◌+◌, ◌<◌, ◌≡◌, ◌≢◌, ◌⊎◌, ◌∙◌, refl, sym, ap, inl, inr, false, some, Option, List,
  [], ◌∷◌, ◌++◌, map, length, Text, All, arith, append-nil, ◌==◌, ◌||◌, if◌then◌else◌,
}
use mathlib.Core.Path.{subst⁻¹}
use cpmulator.ConsoleIn.{ConsoleIn}
use cpmulator.Text.{has_prefix}
use cpmulator.ConsoleIn.Line.Typed.{Entered, loop-typed, finish-snoc}
use cpmulator.ConsoleIn.Line.Incoming.{incoming, Same, take, length-incoming, length-some}
use cpmulator.ConsoleIn.Line.{
  Line, Turn, Outcome, Action, turn, ctrl_c, backspace, erase_input, rub_out, after_turn,
  after_read, loop, after_line, read_lines, read_line, is_system,
}

-- A key that leaves an empty line empty: Ctrl-C, Escape, Ctrl-X, backspace or delete.
abbrev pub IsQuiet : ℕ → Type 0
IsQuiet x = (x ≡ 3) ⊎ (x ≡ 27) ⊎ (x ≡ 24) ⊎ (x ≡ 8) ⊎ (x ≡ 127)

-- The count of Ctrl-Cs after one of them: backspace and delete reset it, Escape and Ctrl-X do not.
abbrev pub count : ℕ → ℕ → ℕ
count x n = if x == 3 then n + 1 else if x == 8 || x == 127 then 0 else n

abbrev pub counted : ℕ → Text → ℕ
counted n [] = n
counted n (x ∷ keys) = counted (count x n) keys

-- The count never reaches the limit.
abbrev pub StaysBelow : ℕ → ℕ → Text → Type 0
StaysBelow limit n [] = Unit
StaysBelow limit n (x ∷ keys) = (count x n ≢ limit) × StaysBelow limit (count x n) keys

abbrev empty_line : ℕ → ℕ → ConsoleIn → Line
empty_line n offset co = record { text = []; ctrl_count = n; offset = offset; console = co }

turn-Quiet :
    (max x n offset : ℕ) (co : ConsoleIn)
    → IsQuiet x
    → count x n ≢ co.interrupt_count
    → turn max x (empty_line n offset co) ≡ Turn.go (empty_line (count x n) offset co)
unfolding turn ctrl_c erase_input rub_out backspace
turn-Quiet max x n offset co (inl e) k = rw e (ground (arith, k, e))
turn-Quiet max x n offset co (inr (inl e)) k = rw (e, append-nil co.screen) refl
turn-Quiet max x n offset co (inr (inr (inl e))) k = rw (e, append-nil co.screen) refl
turn-Quiet max x n offset co (inr (inr (inr (inl e)))) k = rw e refl
turn-Quiet max x n offset co (inr (inr (inr (inr e)))) k = rw e refl

turn-interrupts :
    (max n offset : ℕ) (co : ConsoleIn)
    → n + 1 ≡ co.interrupt_count
    → turn max 3 (empty_line n offset co) ≡ Turn.interrupt (empty_line (n + 1) offset co)
unfolding turn ctrl_c
turn-interrupts max n offset co e = ground (arith, e)

-- What the loop has come to after quiet keys.
record Quiet (max n offset : ℕ) (rest : List (Option ℕ)) (co : ConsoleIn) (o : Outcome)
    : Type 0 where
  fuel : ℕ
  console : ConsoleIn
  goes_on : o ≡ loop max (suc fuel) (empty_line n offset console)
  left : incoming console ≡ rest
  same : Same co console

loop-Quiet :
    (keys : Text) (max fuel n offset : ℕ) (rest : List (Option ℕ)) (co : ConsoleIn)
    → All IsQuiet keys
    → StaysBelow co.interrupt_count n keys
    → length keys < fuel
    → incoming co ≡ map some keys ++ rest
    → Quiet max (counted n keys) offset rest co (loop max fuel (empty_line n offset co))
unfolding loop after_read after_turn
loop-Quiet keys max zero n offset rest co h b f e = absurd (omega (arith, f))
loop-Quiet [] max (suc fuel) n offset rest co h b f e = record {
  fuel = fuel;
  console = co;
  goes_on = refl;
  left = e;
  same = record { screen = refl; history = refl; prefix = refl; limit = refl };
}
loop-Quiet (x ∷ keys) max (suc fuel) n offset rest co h b f e =
    let next = take x (map some keys ++ rest) co e in
    let below : count x n ≢ next.console.interrupt_count = λ k. b.0 (k ∙ next.same.limit) in
    let stays : StaysBelow next.console.interrupt_count (count x n) keys =
      subst⁻¹ (λ m. StaysBelow m (count x n) keys) next.same.limit b.1 in
    let v =
      loop-Quiet keys max fuel (count x n) offset rest next.console h.1 stays (omega (arith, f))
        next.left in
    record {
      fuel = v.fuel;
      console = v.console;
      goes_on =
          rw (next.reads, loop)
            (ap (after_turn (loop max fuel)) (turn-Quiet max x n offset next.console h.0 below)
              ∙ v.goes_on);
      left = v.left;
      same = record {
        screen = v.same.screen ∙ next.same.screen;
        history = v.same.history ∙ next.same.history;
        prefix = v.same.prefix ∙ next.same.prefix;
        limit = v.same.limit ∙ next.same.limit;
      };
    }

-- An empty line is no command for the host.
not_system : (prefix : Text) → is_system prefix [] ≡ false
unfolding has_prefix
not_system [] = refl
not_system (c ∷ prefix) = refl

-- Keys that leave the line empty, Ctrl-C, Escape, Ctrl-X, backspace or delete, are the next to come,
-- stuffed or from the driver, no Ctrl-C among them makes the count reach the limit, and one more
-- Ctrl-C, which comes then, makes it; the count goes up by one with each Ctrl-C, back to zero with
-- backspace or delete, and stays with Escape and Ctrl-X. Then the call is interrupted there, with the
-- keys after that still to be read, and nothing shown.
pub read_line-interrupted :
    (perform : Action → Text) (keys : Text) (rest : List (Option ℕ)) (max : ℕ) (co : ConsoleIn)
    → All IsQuiet keys
    → StaysBelow co.interrupt_count 0 keys
    → counted 0 keys + 1 ≡ co.interrupt_count
    → incoming co ≡ map some keys ++ some 3 ∷ rest
    → (co' : ConsoleIn) × (read_line perform max co ≡ Outcome.interrupted co')
      × (incoming co' ≡ rest)
      × Same co co'
unfolding read_line read_lines after_line loop after_read after_turn
read_line-interrupted perform keys rest max co h b limit e =
    let n = length co.stuffed + length co.driver.keys in
    let size : length keys < suc n =
      omega (arith, length-incoming co, ap length e, length-some keys (some 3 ∷ rest)) in
    let v = loop-Quiet keys max (suc n) 0 0 (some 3 ∷ rest) co h b size e in
    let next = take 3 rest v.console v.left in
    let reached : counted 0 keys + 1 ≡ next.console.interrupt_count =
      limit ∙ sym (next.same.limit ∙ v.same.limit) in
    let stops : loop max (suc v.fuel) (empty_line (counted 0 keys) 0 v.console)
        ≡ Outcome.interrupted next.console =
      rw (next.reads, loop)
        (ap (after_turn (loop max v.fuel))
          (turn-interrupts max (counted 0 keys) 0 next.console reached)) in
    (
      next.console,
      ap (after_line perform max (read_lines perform n (suc n) max)) (v.goes_on ∙ stops),
      next.left,
      record {
        screen = next.same.screen ∙ v.same.screen;
        history = next.same.history ∙ v.same.history;
        prefix = next.same.prefix ∙ v.same.prefix;
        limit = next.same.limit ∙ v.same.limit;
      },
    )

-- Keys that leave the line empty, Ctrl-C, Escape, Ctrl-X, backspace or delete, and then a return are
-- the next to come, stuffed or from the driver, and no Ctrl-C among them makes the count reach the
-- limit; the count goes up by one with each Ctrl-C, back to zero with backspace or delete, and stays
-- with Escape and Ctrl-X. Then the call is not interrupted: it returns the empty line, with nothing
-- shown and the history as it was, and leaves the keys after the return still to be read.
pub read_line-below_limit :
    (perform : Action → Text) (keys : Text) (rest : List (Option ℕ)) (max : ℕ) (co : ConsoleIn)
    → All IsQuiet keys
    → StaysBelow co.interrupt_count 0 keys
    → incoming co ≡ map some keys ++ some 13 ∷ rest
    → (co' : ConsoleIn) × (read_line perform max co ≡ Outcome.line [] co')
      × Entered [] [] rest co co'
unfolding read_line read_lines after_line
read_line-below_limit perform keys rest max co h b e =
    let n = length co.stuffed + length co.driver.keys in
    let size : length keys < suc n =
      omega (arith, length-incoming co, ap length e, length-some keys (some 13 ∷ rest)) in
    let v = loop-Quiet keys max (suc n) 0 0 (some 13 ∷ rest) co h b size e in
    let (co', ends, w) =
      loop-typed [] max (suc v.fuel) 13 rest (empty_line (counted 0 keys) 0 v.console) tt (inr refl)
        (omega arith) (omega arith) v.left in
    (
      co',
      ap (after_line perform max (read_lines perform n (suc n) max)) (v.goes_on ∙ ends)
          ∙ rw (finish-snoc max [] (omega arith), not_system co'.system_prefix, after_line) refl,
      record {
        left = w.left;
        screen = w.screen ∙ ap (λ t. t ++ []) v.same.screen;
        history = w.history ∙ v.same.history;
        prefix = w.prefix ∙ v.same.prefix;
      },
    )
