-- ===== src/ConsoleIn/Line/Typed.antt =====
-- consolein/consolein.go, `ReadLine`: what is typed is what is returned.
use cpmulator.Base.{
  ℕ, zero, suc, ◌+◌, ◌≤◌, ◌<◌, ◌≡◌, refl, sym, ap, ◌∙◌, Bool-cases, inl, inr, Option, some, List,
  map, ◌⊎◌, [], ◌∷◌, ◌++◌, length, Text, All, arith, append_assoc, append-nil, text_eq,
  if◌then◌else◌, le→not_ltb, length-append,
}
use cpmulator.ConsoleIn.{ConsoleIn}
use cpmulator.ConsoleIn.Line.Incoming.{incoming, Same, take}
use cpmulator.ConsoleIn.Line.{
  Line, Turn, Outcome, turn, keep, newline, after_turn, after_read, loop, finish, add_history,
  trim_newline,
}

-- A key that shows: from the space to the tilde.
abbrev pub IsKey : ℕ → Type 0
IsKey c = (32 ≤ c) × (c ≤ 126)

-- Return or line feed.
abbrev pub IsReturn : ℕ → Type 0
IsReturn c = (c ≡ 10) ⊎ (c ≡ 13)

turn-key :
    (max x : ℕ) (l : Line)
    → IsKey x
    → length l.text < max
    → turn max x l
      ≡ Turn.go (record l {
        text = l.text ++ x ∷ [];
        ctrl_count = 0;
        console = record (l.console) { screen = l.console.screen ++ x ∷ [] };
      })
unfolding turn keep
turn-key max x l h k = ground arith

turn-return :
    (max x : ℕ) (l : Line) → IsReturn x → turn max x l ≡ newline (record l { ctrl_count = 0 })
unfolding turn
turn-return max x l h = ground arith

-- The console after a line: the text `shown` is on the screen, the history has the text `t`, unless
-- it is empty, and `rest` is still to be read.
pub record Entered (t shown : Text) (rest : List (Option ℕ)) (co co' : ConsoleIn) : Type 0 where
  pub left : incoming co' ≡ rest
  pub screen : co'.screen ≡ co.screen ++ shown
  pub history : co'.history ≡ (if text_eq t [] then co.history else add_history t co.history)
  pub prefix : co'.system_prefix ≡ co.system_prefix

-- The loop returns a line, without its line feed `t`.
abbrev pub Returns : Text → Text → List (Option ℕ) → ConsoleIn → Outcome → Type 0
Returns t shown rest co o =
    (co' : ConsoleIn) × (o ≡ Outcome.line (t ++ 10 ∷ []) co') × Entered t shown rest co co'

newline-Returns :
    (l : Line) (rest : List (Option ℕ)) (co : ConsoleIn) (again : Line → Outcome)
    → incoming l.console ≡ rest
    → Same co l.console
    → Returns l.text [] rest co (after_turn again (newline l))
unfolding newline after_turn
newline-Returns l rest co again e v = elim (Bool-cases (text_eq l.text [])) [
  | inl b ↦
      rw (b, newline)
        (
          l.console,
          refl,
          record {
            left = e;
            screen = v.screen ∙ sym (append-nil co.screen);
            history = rw b v.history;
            prefix = v.prefix;
          },
        )
  | inr b ↦
      rw (b, newline)
        (
          record (l.console) { history = add_history l.text l.console.history },
          refl,
          record {
            left = e;
            screen = v.screen ∙ sym (append-nil co.screen);
            history = rw b (ap (add_history l.text) v.history);
            prefix = v.prefix;
          },
        )
]

pub loop-typed :
    (s : Text) (max fuel c : ℕ) (rest : List (Option ℕ)) (l : Line)
    → All IsKey s
    → IsReturn c
    → length l.text + length s ≤ max
    → length s < fuel
    → incoming l.console ≡ map some s ++ some c ∷ rest
    → Returns (l.text ++ s) s rest l.console (loop max fuel l)
unfolding loop after_read
loop-typed s max zero c rest l h r b f e = absurd (omega arith)
loop-typed [] max (suc fuel) c rest l h r b f e =
    let next = take c rest l.console e in
    rw
      (
        next.reads,
        loop,
        turn-return max c (record l { console = next.console }) r,
        append-nil l.text,
      )
      (newline-Returns (record l { console = next.console; ctrl_count = 0 }) rest l.console
        (loop max fuel) next.left next.same)
loop-typed (x ∷ s) max (suc fuel) c rest l h r b f e =
    let next = take x (map some s ++ some c ∷ rest) l.console e in
    let here : Line = record l {
      text = l.text ++ x ∷ [];
      ctrl_count = 0;
      console = record (next.console) { screen = next.console.screen ++ x ∷ [] };
    } in
    let (co', ends, v) =
      loop-typed s max fuel c rest here h.1 r (omega (arith, length-append l.text (x ∷ [])))
        (omega arith) next.left in
    rw (next.reads, loop, turn-key max x (record l { console = next.console }) h.0 (omega arith))
      (
        co',
        ends ∙ ap (λ t. Outcome.line (t ++ 10 ∷ []) co') (append_assoc l.text (x ∷ []) s),
        record {
          left = v.left;
          screen =
              v.screen
              ∙ ap (λ t. (t ++ x ∷ []) ++ s) next.same.screen
              ∙ append_assoc l.console.screen (x ∷ []) s;
          history = v.history ∙ rw (append_assoc l.text (x ∷ []) s, next.same.history) refl;
          prefix = v.prefix ∙ next.same.prefix;
        },
      )

trim_newline-snoc : (s : Text) → trim_newline (s ++ 10 ∷ []) ≡ s
unfolding trim_newline
trim_newline-snoc [] = refl
trim_newline-snoc (c ∷ []) = refl
trim_newline-snoc (c ∷ d ∷ s) = ap (λ t. c ∷ t) (trim_newline-snoc (d ∷ s))

pub finish-snoc : (max : ℕ) (s : Text) → length s ≤ max → finish max (s ++ 10 ∷ []) ≡ s
unfolding finish
finish-snoc max s h = rw (trim_newline-snoc s, le→not_ltb max (length s) h)
