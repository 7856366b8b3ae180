-- ===== src/Host/Runs.antt =====
-- Several records written one behind the other.
use cpmulator.Base.{
  ℕ, zero, suc, ◌+◌, ◌-◌, ◌*◌, ◌<◌, ◌≡◌, ap, ap₂, sym, ◌∙◌, List, [], ◌∷◌, ◌++◌, arith, length,
  take, drop, replicate, get_or, All, Text, append_assoc, length-append, drop_all, drop-drop,
  take-append, drop-append,
}
use cpmulator.Host.{written}
use cpmulator.Host.Written.{written_start, written_next}

-- The records one behind the other.
abbrev pub join : List Text → Text
join [] = []
join (r ∷ rs) = r ++ join rs

abbrev pub IsRecord : Text → Type 0
IsRecord r = length r ≡ 128

-- A write at the end of what stands before it.
written_behind :
    (xs bytes old : Text)
    → written (length xs) bytes (xs ++ old) ≡ xs ++ bytes ++ drop (length bytes) old
written_behind [] bytes old = written_start bytes old
written_behind (x ∷ xs) bytes old =
    written_next (length xs) x bytes (xs ++ old) ∙ ap (λ t. x ∷ t) (written_behind xs bytes old)

-- A write behind the end of a content fills the gap with zeros.
written_gap : (p : ℕ) (bytes : Text) → written (suc p) bytes [] ≡ 0 ∷ written p bytes []
unfolding written
written_gap p bytes =
    let gap : suc p - 0 ≡ suc (p - 0) = omega arith in
    let rest : drop (suc p + length bytes) [] ≡ drop (p + length bytes) [] =
      drop_all (suc p + length bytes) [] (omega arith)
      ∙ sym (drop_all (p + length bytes) [] (omega arith)) in
    ap₂ (λ a b. take (suc p) (replicate a 0) ++ bytes ++ b) gap rest

-- Two writes, the second where the first ends, are one.
pub written-after :
    (p : ℕ) (xs ys old : Text)
    → written (p + length xs) ys (written p xs old) ≡ written p (xs ++ ys) old
written-after zero xs ys old =
    ap (written (zero + length xs) ys) (written_start xs old)
    ∙ ap (λ n. written n ys (xs ++ drop (length xs) old)) (omega arith)
    ∙ written_behind xs ys (drop (length xs) old)
    ∙ ap (λ t. xs ++ ys ++ t)
        (drop-drop (length ys) (length xs) old ∙ ap (λ n. drop n old) (sym (length-append xs ys)))
    ∙ sym (written_start (xs ++ ys) old)
written-after (suc p) xs ys [] =
    ap (written (suc p + length xs) ys) (written_gap p xs)
    ∙ ap (λ n. written n ys (0 ∷ written p xs [])) {y = suc (p + length xs)} (omega arith)
    ∙ written_next (p + length xs) 0 ys (written p xs [])
    ∙ ap (λ t. 0 ∷ t) (written-after p xs ys [])
    ∙ sym (written_gap p (xs ++ ys))
written-after (suc p) xs ys (c ∷ old) =
    ap (written (suc p + length xs) ys) (written_next p c xs old)
    ∙ ap (λ n. written n ys (c ∷ written p xs old)) {y = suc (p + length xs)} (omega arith)
    ∙ written_next (p + length xs) c ys (written p xs old)
    ∙ ap (λ t. c ∷ t) (written-after p xs ys old)
    ∙ sym (written_next p c (xs ++ ys) old)

-- Each record stands at its place.
pub take-drop-join :
    (rs : List Text) (k : ℕ) (rest : Text)
    → All IsRecord rs
    → k < length rs
    → take 128 (drop (k * 128) (join rs ++ rest)) ≡ get_or rs k []
take-drop-join [] k rest h p = absurd (omega arith)
take-drop-join (r ∷ rs) zero rest h p =
    ap (take 128) (append_assoc r (join rs) rest) ∙ take-append 128 r (join rs ++ rest) h.0
take-drop-join (r ∷ rs) (suc k) rest h p =
    ap (take 128) (
      ap₂ drop {y = 128 + k * 128} (omega arith) (append_assoc r (join rs) rest)
      ∙ sym (drop-drop (k * 128) 128 (r ++ (join rs ++ rest)))
      ∙ ap (drop (k * 128)) (drop-append 128 r (join rs ++ rest) h.0))
    ∙ take-drop-join rs k rest h.1 (omega arith)
