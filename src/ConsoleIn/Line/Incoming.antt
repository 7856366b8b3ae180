-- ===== src/ConsoleIn/Line/Incoming.antt =====
-- consolein/consolein.go: the keys that are still to be read, stuffed or from the driver.
use cpmulator.Base.{
  ℕ, ◌+◌, ◌≡◌, refl, ap, Option, none, some, List, [], ◌∷◌, ◌++◌, map, length, Text, arith,
}
use cpmulator.ConsoleIn.{ConsoleIn, Read, block_no_echo, available}

-- What is stuffed is read first, and then what the driver has.
abbrev pub incoming : ConsoleIn → List (Option ℕ)
incoming co = map some co.stuffed ++ co.driver.keys

-- The same console, but for its input.
pub record Same (a b : ConsoleIn) : Type 0 where
  pub screen : b.screen ≡ a.screen
  pub history : b.history ≡ a.history
  pub prefix : b.system_prefix ≡ a.system_prefix
  pub limit : b.interrupt_count ≡ a.interrupt_count

-- The next key is read.
pub record Took (x : ℕ) (rest : List (Option ℕ)) (co : ConsoleIn) : Type 0 where
  pub console : ConsoleIn
  pub reads : block_no_echo co ≡ Read.key x console
  pub left : incoming console ≡ rest
  pub same : Same co console

abbrev Keys : Type 0
Keys = List (Option ℕ)

head_is : {a b : Option ℕ} {l m : Keys} → a ∷ l ≡ b ∷ m → a ≡ b
head_is {a} e = ap (λ x. elim x as (λ y. Option ℕ) [ [] ↦ a | c ∷ k ↦ c ]) e

tail_is : {a b : Option ℕ} {l m : Keys} → a ∷ l ≡ b ∷ m → l ≡ m
tail_is {l = l} e = ap (λ x. elim x as (λ y. Keys) [ [] ↦ l | c ∷ k ↦ k ]) e

none-some : {x : ℕ} → none ≡ some x → ⊥
none-some e = cc

some_is : {x y : ℕ} → some x ≡ some y → x ≡ y
some_is {x} e = ap (λ o. elim o [ none ↦ x | some z ↦ z ]) e

pub take :
    (x : ℕ) (rest : List (Option ℕ)) (co : ConsoleIn) → incoming co ≡ some x ∷ rest → Took x rest co
unfolding block_no_echo
take x rest co e = from co.stuffed co.driver.keys e
  where
    with_input : Text → List (Option ℕ) → ConsoleIn
    with_input s keys = record co { stuffed = s; driver = record (co.driver) { keys = keys } }

    from :
        (s : Text) (keys : List (Option ℕ))
        → map some s ++ keys ≡ some x ∷ rest
        → Took x rest (with_input s keys)
    from [] [] e = absurd cc
    from [] (none ∷ keys) e = absurd (none-some (head_is e))
    from [] (some c ∷ keys) e = record {
      console = with_input [] keys;
      reads = ap (λ y. Read.key y (with_input [] keys)) (some_is (head_is e));
      left = tail_is e;
      same = record { screen = refl; history = refl; prefix = refl; limit = refl };
    }
    from (c ∷ s) keys e = record {
      console = with_input s keys;
      reads = ap (λ y. Read.key y (with_input s keys)) (some_is (head_is e));
      left = tail_is e;
      same = record { screen = refl; history = refl; prefix = refl; limit = refl };
    }

pub length-some :
    (s : Text) (keys : List (Option ℕ)) → length (map some s ++ keys) ≡ length s + length keys
length-some [] keys = omega arith
length-some (c ∷ s) keys = omega (arith, length-some s keys)

pub length-incoming : (co : ConsoleIn) → length (incoming co) ≡ available co
length-incoming co = length-some co.stuffed co.driver.keys
