-- ===== src/Host/Written.antt =====
-- Writes that follow one another.
use cpmulator.Base.{
  ℕ, zero, suc, ◌+◌, ◌-◌, ◌≤◌, ◌≡◌, ap, ap₂, sym, ◌∙◌, [], ◌∷◌, ◌++◌, arith, length, take, drop,
  replicate, Text, drop_all, length-append, length-take, length-drop, length-replicate,
}
use cpmulator.Host.{written}

pub length-written :
    (p : ℕ) (bytes old : Text)
    → length (written p bytes old) ≡ p + length bytes + (length old - (p + length bytes))
unfolding written
length-written p bytes old =
    let before = take p (old ++ replicate (p - length old) 0) in
    omega (
      arith,
      length-append (before ++ bytes) (drop (p + length bytes) old),
      length-append before bytes,
      length-take p (old ++ replicate (p - length old) 0),
      length-append old (replicate (p - length old) 0),
      length-replicate {A = ℕ} (p - length old) 0,
      length-drop (p + length bytes) old,
    )

pub written_start : (bytes old : Text) → written 0 bytes old ≡ bytes ++ drop (length bytes) old
unfolding written
written_start bytes old = ap (λ n. bytes ++ drop n old) {x = 0 + length bytes} (omega arith)

pub written_next :
    (p c : ℕ) (bytes old : Text) → written (suc p) bytes (c ∷ old) ≡ c ∷ written p bytes old
unfolding written
written_next p c bytes old =
    let gap : suc p - suc (length old) ≡ p - length old = omega arith in
    let end : suc p + length bytes ≡ suc (p + length bytes) = omega arith in
    ap₂ (λ a b. (c ∷ take p (old ++ replicate a 0)) ++ bytes ++ drop b (c ∷ old)) gap end

-- Nothing is written inside a content.
pub written-nil : (p : ℕ) (old : Text) → p ≤ length old → written p [] old ≡ old
written-nil zero old h = written_start [] old
written-nil (suc p) [] h = absurd (omega arith)
written-nil (suc p) (c ∷ old) h =
    written_next p c [] old ∙ ap (λ t. c ∷ t) (written-nil p old (omega arith))

byte_first :
    (c : ℕ) (bytes old : Text)
    → written 1 bytes (c ∷ drop 1 old) ≡ c ∷ bytes ++ drop (suc (length bytes)) old
byte_first c bytes [] =
    written_next 0 c bytes []
    ∙ ap (λ t. c ∷ t) (written_start bytes [])
    ∙ ap (λ t. c ∷ bytes ++ t) (drop_all (length bytes) [] (omega arith))
byte_first c bytes (d ∷ old) =
    written_next 0 c bytes old ∙ ap (λ t. c ∷ t) (written_start bytes old)

-- A byte and then the bytes after it are all of them.
pub written-written :
    (p c : ℕ) (bytes old : Text)
    → p ≤ length old
    → written (p + 1) bytes (written p (c ∷ []) old) ≡ written p (c ∷ bytes) old
written-written zero c bytes old h =
    ap (written 1 bytes) (written_start (c ∷ []) old)
    ∙ byte_first c bytes old
    ∙ sym (written_start (c ∷ bytes) old)
written-written (suc p) c bytes [] h = absurd (omega arith)
written-written (suc p) c bytes (d ∷ old) h =
    ap (written (suc p + 1) bytes) (written_next p d (c ∷ []) old)
    ∙ ap (λ n. written n bytes (d ∷ written p (c ∷ []) old)) {y = suc (p + 1)} (omega arith)
    ∙ written_next (p + 1) d bytes (written p (c ∷ []) old)
    ∙ ap (λ t. d ∷ t) (written-written p c bytes old (omega arith))
    ∙ sym (written_next p d (c ∷ bytes) old)
