-- ===== src/Memory/Laws.antt =====
-- What the operations of memory/memory.go read back and leave alone.
use cpmulator.Base.{
  ℕ, zero, suc, ◌+◌, ◌-◌, ◌%◌, ◌≤◌, ◌<◌, ◌≡◌, refl, ap, ap₂, ◌∙◌, true, false, ◌&&◌, ◌⊎◌, inl, inr,
  leb→le, none, some, List, [], ◌∷◌, ◌==◌, leb, ltb, if◌then◌else◌, length, get_or, u16, arith,
  Bool-cases, All, IsByte, Text, le→leb,
}
use cpmulator.Memory.{Memory, set, get, fill_range, get_range, copy_at, set_range, load_file, empty}

-- Every cell of the RAM holds a byte.
abbrev pub IsValid : Memory → Type 0
IsValid m = (a : ℕ) → IsByte (get m a)

pub get-set : (m : Memory) (a v b : ℕ) → get (set m a v) b ≡ (if b == a then v else get m b)
unfolding get set
get-set m a v b = refl

pub set-IsValid : (m : Memory) (a v : ℕ) → IsValid m → IsByte v → IsValid (set m a v)
set-IsValid m a v h p b = ground (arith, get-set m a v b, h b)

-- Reading any cell after a fill: the cells `addr, addr + 1, …` (wrapping at 64k) hold the filler,
-- all others are as before.
pub get-fill_range :
    (m : Memory) (addr size char b : ℕ)
    → addr < 65536
    → b < 65536
    → get (fill_range m addr size char) b
      ≡ (if ltb ((b + 65536 - addr) % 65536) size then char else get m b)
unfolding fill_range
get-fill_range m addr zero char b ha hb = ground arith
get-fill_range m addr (suc size) char b ha hb = ground (
  arith,
  get-fill_range (set m addr char) (u16 (addr + 1)) size char b (omega arith) hb,
  get-set m addr char b,
)

pub length-get_range : (m : Memory) (a n : ℕ) → length (get_range m a n) ≡ n
unfolding get_range
length-get_range m a zero = refl
length-get_range m a (suc n) = ap suc (length-get_range m (u16 (a + 1)) n)

pub get_range-bytes : (m : Memory) (a n : ℕ) → IsValid m → All IsByte (get_range m a n)
unfolding get_range
get_range-bytes m a zero h = tt
get_range-bytes m a (suc n) h = (h a, get_range-bytes m (u16 (a + 1)) n h)

-- The `i`th byte of a range comes from the address `a + i`, wrapped.
pub get_or-get_range :
    (m : Memory) (a n i : ℕ)
    → a < 65536
    → i < n
    → get_or (get_range m a n) i 0 ≡ get m (u16 (a + i))
unfolding get_range
get_or-get_range m a zero i ha h = absurd (omega arith)
get_or-get_range m a (suc n) zero ha h = ap (get m) (omega arith)
get_or-get_range m a (suc n) (suc i) ha h =
    get_or-get_range m (u16 (a + 1)) n i (omega arith) (omega arith) ∙ ap (get m) (omega arith)

-- Reading any cell after a copy.
pub get-copy_at :
    (m : Memory) (a : ℕ) (xs : List ℕ) (b : ℕ)
    → get (copy_at m a xs) b
      ≡ (if leb a b && ltb b (a + length xs) then get_or xs (b - a) 0 else get m b)
unfolding copy_at
get-copy_at m a [] b = ground arith
get-copy_at m a (x ∷ xs) b = get-copy_at (set m a x) (a + 1) xs b ∙ split (b - a) refl
  where
    split :
        (d : ℕ)
        → b - a ≡ d
        → (if leb (a + 1) b && ltb b (a + 1 + length xs)
            then get_or xs (b - (a + 1)) 0
            else get (set m a x) b)
          ≡ (if leb a b && ltb b (a + suc (length xs)) then get_or (x ∷ xs) (b - a) 0 else get m b)
    split zero e = rw e (ground (arith, get-set m a x b))
    split (suc d) e =
        let f : b - (a + 1) ≡ d = omega arith in rw (e, f) (ground (arith, get-set m a x b))

-- A range is the list whose `i`th byte stands at `a + i`, wrapped.
get_range_ext :
    (m : Memory) (a : ℕ) (ys : List ℕ)
    → ((i : ℕ) → i < length ys → get m (u16 (a + i)) ≡ get_or ys i 0)
    → a < 65536
    → get_range m a (length ys) ≡ ys
unfolding get_range
get_range_ext m a [] k h = refl
get_range_ext m a (y ∷ ys) k h = ap₂ ◌∷◌ (ap (get m) (omega arith) ∙ k 0 (omega arith)) (
    get_range_ext m (u16 (a + 1)) ys (λ i p. ap (get m) (omega arith) ∙ k (suc i) (omega arith))
      (omega arith))

get_range-copy_at :
    (m : Memory) (a : ℕ) (xs : List ℕ)
    → a + length xs ≤ 65536
    → get_range (copy_at m a xs) a (length xs) ≡ xs
unfolding get_range
get_range-copy_at m a [] h = refl
get_range-copy_at m a (x ∷ xs) h = get_range_ext (copy_at m a (x ∷ xs)) a (x ∷ xs) at (omega arith)
  where
    at :
        (i : ℕ)
        → i < length (x ∷ xs)
        → get (copy_at m a (x ∷ xs)) (u16 (a + i)) ≡ get_or (x ∷ xs) i 0
    at i p =
        let e : u16 (a + i) ≡ a + i = omega arith in
        let d : a + i - a ≡ i = omega arith in
        rw (e, get-copy_at m a (x ∷ xs) (a + i), d) (ground arith)

-- If `SetRange` returns, the range ends within the 64k, `GetRange` gives back the bytes, and every
-- cell outside the range is as before.
pub set_range_lem :
    (m : Memory) (a : ℕ) (xs : List ℕ) (m' : Memory)
    → set_range m a xs ≡ some m'
    → (a + length xs ≤ 65536)
      × (get_range m' a (length xs) ≡ xs)
      × ((b : ℕ) → (b < a) ⊎ (a + length xs ≤ b) → get m' b ≡ get m b)
unfolding set_range
set_range_lem m a xs m' h = elim (Bool-cases (leb (a + length xs) 65536)) [
  | inl e ↦ (
    leb→le _ _ e,
    ground (arith, get_range-copy_at m a xs),
    λ b p. ground (arith, get-copy_at m a xs b),
  )
  | inr e ↦ absurd (ground arith)
]

pub set_range_fits :
    (m : Memory) (a : ℕ) (xs : List ℕ)
    → a + length xs ≤ 65536
    → set_range m a xs ≡ some (copy_at m a xs)
unfolding set_range
set_range_fits m a xs h = rw (le→leb _ _ h)

-- A range that ends beyond the 64k panics.
pub set_range_panics :
    (m : Memory) (a : ℕ) (xs : List ℕ) → 65536 < a + length xs → set_range m a xs ≡ none
unfolding set_range
set_range_panics m a xs h = ground arith

pub copy_at-IsValid :
    (m : Memory) (a : ℕ) (xs : List ℕ) → IsValid m → All IsByte xs → IsValid (copy_at m a xs)
unfolding copy_at
copy_at-IsValid m a [] h k = h
copy_at-IsValid m a (x ∷ xs) h k =
    copy_at-IsValid (set m a x) (a + 1) xs (set-IsValid m a x h k.0) k.1

pub set_range-IsValid :
    (m : Memory) (a : ℕ) (xs : List ℕ) {m' : Memory}
    → set_range m a xs ≡ some m'
    → IsValid m
    → All IsByte xs
    → IsValid m'
unfolding set_range
set_range-IsValid m a xs e h k b = ground (arith, copy_at-IsValid m a xs h k b)

pub fill_range-IsValid :
    (m : Memory) (a n c : ℕ) → IsValid m → IsByte c → IsValid (fill_range m a n c)
unfolding fill_range
fill_range-IsValid m a zero c h k = h
fill_range-IsValid m a (suc n) c h k =
    fill_range-IsValid (set m a c) (u16 (a + 1)) n c (set-IsValid m a c h k) k

-- A loaded program stands at the offset, and the rest of the RAM is zero; a failed read leaves the
-- RAM zeroed and returns the error; a program that does not fit panics.
pub load_file_lem :
    (m : Memory) (offset : ℕ) (prog : Text)
    → (load_file m offset none ≡ some (empty, true))
      × (65536 < offset + length prog → load_file m offset (some prog) ≡ none)
      × (offset + length prog ≤ 65536
          → (m' : Memory) × (load_file m offset (some prog) ≡ some (m', false))
            × (get_range m' offset (length prog) ≡ prog)
            × ((b : ℕ) → (b < offset) ⊎ (offset + length prog ≤ b) → get m' b ≡ 0))
unfolding load_file get
load_file_lem m offset prog = (
  refl,
  λ h. rw (set_range_panics empty offset prog h, load_file),
  λ h.
      let m' = copy_at empty offset prog in
      let e = set_range_fits empty offset prog h in
      let laws = set_range_lem empty offset prog m' e in
      (m', rw (e, load_file), laws.1, λ b p. laws.2 b p ∙ empty_zero b),
)
  where
    empty_zero : (b : ℕ) → get empty b ≡ 0
    empty_zero b = refl
