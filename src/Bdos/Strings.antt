-- ===== src/Bdos/Strings.antt =====
-- cpm/cpm_bdos.go, `BdosSysCallWriteString` and `BdosSysCallReadString`.
use cpmulator.Base.{
  ℕ, zero, suc, ◌+◌, ◌-◌, ◌%◌, ◌≤◌, ◌<◌, ◌≡◌, ◌≢◌, refl, ◌∙◌, ◌⊎◌, some, none, [], ◌∷◌, ◌++◌,
  length, Text, arith, All, u8, u16, IsByte,
}
use cpmulator.Memory
use cpmulator.Memory.{Memory, get, get_range}
use cpmulator.Memory.Laws.{get-set}
use cpmulator.ConsoleOut
use cpmulator.ConsoleOut.{ConsoleOut}
use cpmulator.ConsoleIn.Line.{Outcome, Action, read_line}
use cpmulator.ConsoleIn.Line.Safety.{IsProper, read_line-IsProper}
use cpmulator.Cpm.{Cpm, Result, Pairs, done}
use cpmulator.Bdos.Console.{
  write_from, write_string, return_zero, store_text, line_buffer, after_line, read_string,
}

-- Characters are written one after another.
abbrev pub put_all : Text → ConsoleOut → ConsoleOut
put_all [] out = out
put_all (c ∷ t) out = put_all t (ConsoleOut.put c out)

write_from_ends :
    (t : Text) (fuel : ℕ) (m : Memory) (addr : ℕ) (out : ConsoleOut)
    → length t < fuel
    → get_range m addr (suc (length t)) ≡ t ++ b'$' ∷ []
    → All (λ c. c ≢ b'$') t
    → write_from fuel m addr out ≡ some (put_all t out)
unfolding write_from get_range
write_from_ends t zero m addr out h e k = absurd (omega arith)
write_from_ends [] (suc fuel) m addr out h e k = let here : get m addr ≡ b'$' = cc in ground arith
write_from_ends (c ∷ t) (suc fuel) m addr out h e k =
    let here : get m addr ≡ c = cc in
    let later : get_range m (u16 (addr + 1)) (suc (length t)) ≡ t ++ b'$' ∷ [] = cc in
    let goes =
      write_from_ends t fuel m (u16 (addr + 1)) (ConsoleOut.put c out) (omega arith) later k.1 in
    let other = k.0 in rw (here, write_from) (ground (arith, goes, other))

write_from_never :
    (fuel : ℕ) (m : Memory) (addr : ℕ) (out : ConsoleOut)
    → ((a : ℕ) → get m a ≢ b'$')
    → write_from fuel m addr out ≡ none
unfolding write_from
write_from_never zero m addr out h = refl
write_from_never (suc fuel) m addr out h =
    let goes = write_from_never fuel m (u16 (addr + 1)) (ConsoleOut.put (get m addr) out) h in
    let other = h addr in ground (arith, goes, other)

-- A string in RAM is written up to the dollar sign that ends it, which is not written, wherever it
-- lies, also across the end of the RAM, and the call returns with HL, B and A cleared. Where no cell
-- holds a dollar sign the call never returns.
pub write_string_lem :
    (pairs : Pairs) (s : Cpm) (t : Text)
    → (length t < 65536
        → get_range s.memory (pairs.to_u16 s.cpu.de) (suc (length t)) ≡ t ++ b'$' ∷ []
        → All (λ c. c ≢ b'$') t
        → write_string pairs s ≡ done (return_zero (record s { output = put_all t s.output })))
      × (((a : ℕ) → get s.memory a ≢ b'$') → write_string pairs s ≡ Result.hang)
unfolding write_string
write_string_lem pairs s t = (
  λ h e k.
      rw (write_from_ends t 65536 s.memory (pairs.to_u16 s.cpu.de) s.output h e k, write_string)
        refl,
  λ h. rw (write_from_never 65536 s.memory (pairs.to_u16 s.cpu.de) s.output h, write_string) refl,
)

-- How far a cell lies behind an address, with wrap.
abbrev pub distance : ℕ → ℕ → ℕ
distance addr b = (b + 65536 - addr) % 65536

get-store_text :
    (addr : ℕ) (t : Text) (m : Memory) (b : ℕ)
    → addr < 65536
    → b < 65536
    → length t ≤ distance addr b
    → get (store_text addr t m) b ≡ get m b
unfolding store_text
get-store_text addr [] m b ha hb h = refl
get-store_text addr (c ∷ t) m b ha hb h =
    get-store_text (u16 (addr + 1)) t (Memory.set m addr c) b (omega arith) hb (omega arith)
    ∙ ground (arith, get-set m addr c b)

-- A call that returns has left a cell of the RAM as it was.
abbrev pub Leaves : Memory → ℕ → Result → Type 0
Leaves m b (Result.returns e t) = get t.memory b ≡ get m b
Leaves m b Result.panic = ⊥
Leaves m b Result.hang = Unit

after_line-Leaves :
    (pairs : Pairs) (max addr : ℕ) (s : Cpm) (o : Outcome) (b : ℕ)
    → IsProper max o
    → addr < 65536
    → b < 65536
    → (distance addr b ≡ 0) ⊎ (max + 1 < distance addr b)
    → max < 256
    → Leaves s.memory b (after_line pairs addr s o)
unfolding after_line
after_line-Leaves pairs max addr s (Outcome.line t co) b v ha hb d hm =
    get-store_text (u16 (addr + 2)) t (Memory.set s.memory (u16 (addr + 1)) (u8 (length t))) b
      (omega arith) hb (omega arith)
    ∙ ground (arith, get-set s.memory (u16 (addr + 1)) (u8 (length t)) b)
after_line-Leaves pairs max addr s (Outcome.interrupted co) b v ha hb d hm = refl
after_line-Leaves pairs max addr s (Outcome.failed co) b v ha hb d hm = refl
after_line-Leaves pairs max addr s Outcome.blocked b v ha hb d hm = tt
after_line-Leaves pairs max addr s Outcome.panicked b v ha hb d hm = v
after_line-Leaves pairs max addr s Outcome.spent b v ha hb d hm = absurd v

-- Reading a line into a buffer never panics; and where it returns, with an error or without, the cell
-- that holds the size of the buffer, and every cell beyond the length and the maximum number of
-- characters, is as it was, with the wrap at the end of the RAM counted in.
pub read_string-Leaves :
    (pairs : Pairs) (perform : Action → Text) (s : Cpm) (b : ℕ)
    → let addr = line_buffer pairs s in
      let max = get s.memory addr in
      addr < 65536
      → IsByte max
      → b < 65536
      → (distance addr b ≡ 0) ⊎ (max + 1 < distance addr b)
      → Leaves s.memory b (read_string pairs perform s)
unfolding read_string
read_string-Leaves pairs perform s b ha hm hb d =
    let max = get s.memory (line_buffer pairs s) in
    after_line-Leaves pairs max (line_buffer pairs s) s (read_line perform max s.input) b
      (read_line-IsProper perform max s.input) ha hb d hm
