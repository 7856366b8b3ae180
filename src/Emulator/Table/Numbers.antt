-- ===== src/Emulator/Table/Numbers.antt =====
-- cpm/cpm.go, `New`: which numbers have a call.
use cpmulator.Base.{
  ℕ, zero, suc, ◌≤◌, ◌<◌, ◌≡◌, ◌≢◌, ◌⊎◌, ◌↔◌, ◌∙◌, refl, inl, inr, arith, Bool, true, false, ◌&&◌,
  ◌||◌, Option, none, some, ◌==◌, leb, Bool-cases, sym,
}
use cpmulator.Env.{Env}
use cpmulator.Emulator.Table.{Calls, bdos_calls, bios_calls, call_of}

abbrev is_some : {A : Type 0} → Option A → Bool
is_some none = false
is_some (some a) = true

abbrev has_call : Calls → ℕ → Bool
has_call calls n = is_some (call_of calls n)

abbrev in_bdos : ℕ → Bool
in_bdos n = leb n 37 || n == 40 || n == 45 || n == 105 || n == 113 || n == 248

abbrev in_bios : ℕ → Bool
in_bios n = leb n 5 || n == 15 || n == 17 || n == 18 || n == 19 || n == 31

abbrev agree : Bool → Bool → Bool
agree true b = b
agree false true = false
agree false false = true

-- A test of all numbers below a bound.
abbrev all_below : ℕ → (ℕ → Bool) → Bool
all_below zero p = true
all_below (suc n) p = p n && all_below n p

all_below-lt : (n : ℕ) (p : ℕ → Bool) (i : ℕ) → all_below n p ≡ true → i < n → p i ≡ true
all_below-lt zero p i h k = absurd (omega arith)
all_below-lt (suc n) p i h k = elim (Bool-cases (p n)) [
  | inr e ↦ absurd (ground arith)
  | inl here ↦ elim (Bool-cases (i == n)) [
    | inl e ↦ let at : i ≡ n = ground arith in rw at here
    | inr e ↦ all_below-lt n p i (ground arith) (ground arith)
  ]
]

bdos_all : (env : Env) → all_below 256 (λ n. agree (has_call (bdos_calls env) n) (in_bdos n)) ≡ true
unfolding bdos_calls
bdos_all env = refl

bios_all : (env : Env) → all_below 256 (λ n. agree (has_call (bios_calls env) n) (in_bios n)) ≡ true
unfolding bios_calls
bios_all env = refl

-- The numbers of the calls of the BDOS, and of the BIOS.
abbrev pub IsBdos : ℕ → Type 0
IsBdos n = (n ≤ 37) ⊎ (n ≡ 40) ⊎ (n ≡ 45) ⊎ (n ≡ 105) ⊎ (n ≡ 113) ⊎ (n ≡ 248)

abbrev pub IsBios : ℕ → Type 0
IsBios n = (n ≤ 5) ⊎ (n ≡ 15) ⊎ (n ≡ 17) ⊎ (n ≡ 18) ⊎ (n ≡ 19) ⊎ (n ≡ 31)

in_bdos-IsBdos : (n : ℕ) → in_bdos n ≡ true ↔ IsBdos n
in_bdos-IsBdos n = (λ h. ground arith, λ h. ground arith)

in_bios-IsBios : (n : ℕ) → in_bios n ≡ true ↔ IsBios n
in_bios-IsBios n = (λ h. ground arith, λ h. ground arith)

is_some_lem : {A : Type 0} (o : Option A) → is_some o ≡ true ↔ (o ≢ none)
is_some_lem none = (λ h. absurd cc, λ h. absurd (h refl))
is_some_lem (some a) = (λ h k. cc, λ h. refl)

agree→eq : (a b : Bool) → agree a b ≡ true → a ≡ b
agree→eq true b h = sym h
agree→eq false true h = absurd cc
agree→eq false false h = refl

-- Of the numbers that fit in a register, the BDOS has a call for 0 to 37, 40, 45, 105, 113 and 248,
-- and the BIOS for 0 to 5, 15, 17, 18, 19 and 31, and neither for any other.
pub calls_lem :
    (env : Env) (n : ℕ)
    → n < 256
    → ((call_of (bdos_calls env) n ≢ none) ↔ IsBdos n)
      × ((call_of (bios_calls env) n ≢ none) ↔ IsBios n)
calls_lem env n h =
    let d = agree→eq _ _ (
      all_below-lt 256 (λ x. agree (has_call (bdos_calls env) x) (in_bdos x)) n (bdos_all env) h) in
    let i = agree→eq _ _ (
      all_below-lt 256 (λ x. agree (has_call (bios_calls env) x) (in_bios x)) n (bios_all env) h) in
    (
      (
        λ k. (in_bdos-IsBdos n).0 (sym d ∙ (is_some_lem (call_of (bdos_calls env) n)).1 k),
        λ k. (is_some_lem (call_of (bdos_calls env) n)).0 (d ∙ (in_bdos-IsBdos n).1 k),
      ),
      (
        λ k. (in_bios-IsBios n).0 (sym i ∙ (is_some_lem (call_of (bios_calls env) n)).1 k),
        λ k. (is_some_lem (call_of (bios_calls env) n)).0 (i ∙ (in_bios-IsBios n).1 k),
      ),
    )
