-- ===== src/Fcb/Codec.antt =====
-- fcb/fcb.go, `AsBytes` and `FromBytes`: the 36 bytes of a control block.
use cpmulator.Base.{
  inl, inr, ℕ, suc, ◌+◌, ◌≤◌, ◌<◌, ◌≡◌, refl, sym, ap, ◌∙◌, some, List, [], ◌∷◌, ◌++◌, append-nil,
  arith, leb, Bool-cases, le→leb, length, get_or, take, drop, replicate, length-append, length-take,
  length-drop, take-append, drop-append, take-append-drop, drop_all, get_or-append, get_or-drop,
  drop-drop, All, All-append, All-take, All-drop, All-get_or, IsByte,
}
use mathlib.Core.Path.{subst}
use cpmulator.Fcb.{Fcb, as_bytes, from_bytes, fields, copy_into}

-- The arrays have their sizes, and all is bytes.
pub record IsValid (f : Fcb) : Type 0 where
  pub name_size : length f.name ≡ 8
  pub type_size : length f.type ≡ 3
  pub al_size : length f.al ≡ 16
  pub name_bytes : All IsByte f.name
  pub type_bytes : All IsByte f.type
  pub al_bytes : All IsByte f.al
  pub drive_byte : IsByte f.drive
  pub ex_byte : IsByte f.ex
  pub s1_byte : IsByte f.s1
  pub s2_byte : IsByte f.s2
  pub rc_byte : IsByte f.rc
  pub cr_byte : IsByte f.cr
  pub r0_byte : IsByte f.r0
  pub r1_byte : IsByte f.r1
  pub r2_byte : IsByte f.r2

pub length-copy_into : (dst src : List ℕ) → length (copy_into dst src) ≡ length dst
unfolding copy_into
length-copy_into dst src = omega (
  arith,
  length-append (take (length dst) src) (drop (length src) dst),
  length-take (length dst) src,
  length-drop (length src) dst,
)

pub copy_into_full :
    (dst src : List ℕ) → length dst ≤ length src → copy_into dst src ≡ take (length dst) src
unfolding copy_into
copy_into_full dst src h = rw (drop_all (length src) dst h, append-nil)

pub copy_into-bytes :
    (dst src : List ℕ) → All IsByte dst → All IsByte src → All IsByte (copy_into dst src)
unfolding copy_into
copy_into-bytes dst src h k =
    All-append IsByte (take (length dst) src) (drop (length src) dst)
      (All-take IsByte (length dst) src k) (All-drop IsByte (length src) dst h)

pub length-as_bytes : (f : Fcb) → IsValid f → length (as_bytes f) ≡ 36
unfolding as_bytes
length-as_bytes f v = omega (arith, length-append {0})

pub as_bytes-bytes : (f : Fcb) → IsValid f → All IsByte (as_bytes f)
unfolding as_bytes
as_bytes-bytes f v = (
  v.drive_byte,
  All-append IsByte f.name _ v.name_bytes (
      All-append IsByte f.type _ v.type_bytes (
        v.ex_byte,
        (
          v.s1_byte,
          (
            v.s2_byte,
            (
              v.rc_byte,
              All-append IsByte f.al _ v.al_bytes
                  (v.cr_byte, (v.r0_byte, (v.r1_byte, (v.r2_byte, tt)))),
            ),
          ),
        ),
      )),
)

fields-IsValid : (bs : List ℕ) → All IsByte bs → IsValid (fields bs)
unfolding fields
fields-IsValid bs h = record {
  name_size = length-copy_into (replicate 8 0) (drop 1 bs);
  type_size = length-copy_into (replicate 3 0) (drop 9 bs);
  al_size = length-copy_into (replicate 16 0) (drop 16 bs);
  name_bytes = copy_into-bytes (replicate 8 0) _ (omega arith) (All-drop IsByte 1 bs h);
  type_bytes = copy_into-bytes (replicate 3 0) _ (omega arith) (All-drop IsByte 9 bs h);
  al_bytes = copy_into-bytes (replicate 16 0) _ (omega arith) (All-drop IsByte 16 bs h);
  drive_byte = byte 0;
  ex_byte = byte 12;
  s1_byte = byte 13;
  s2_byte = byte 14;
  rc_byte = byte 15;
  cr_byte = byte 32;
  r0_byte = byte 33;
  r1_byte = byte 34;
  r2_byte = byte 35;
}
  where
    byte : (n : ℕ) → IsByte (get_or bs n 0)
    byte n = All-get_or IsByte n bs 0 h (omega arith)

-- What is read from bytes is a control block with arrays of the right sizes.
pub from_bytes-IsValid :
    (bs : List ℕ) {f : Fcb} → All IsByte bs → from_bytes bs ≡ some f → IsValid f
unfolding from_bytes
from_bytes-IsValid bs {f} h e = elim (Bool-cases (leb 36 (length bs))) [
  | inl p ↦ subst IsValid (ground arith) (fields-IsValid bs h)
  | inr p ↦ absurd (ground arith)
]

-- `FromBytes` reads any 36 bytes or more, and panics on fewer.
pub from_bytes-total : (bs : List ℕ) → 36 ≤ length bs → from_bytes bs ≡ some (fields bs)
unfolding from_bytes
from_bytes-total bs h = rw (le→leb 36 (length bs) h)

-- An array of a control block, copied back out of its bytes.
copy_into-slice :
    (dst xs ys : List ℕ) (n : ℕ) → length dst ≡ n → length xs ≡ n → copy_into dst (xs ++ ys) ≡ xs
copy_into-slice dst xs ys n h k =
    copy_into_full dst (xs ++ ys) (omega (arith, length-append xs ys))
    ∙ take-append (length dst) xs ys (omega arith)

fields-as_bytes : (f : Fcb) → IsValid f → fields (as_bytes f) ≡ f
unfolding fields as_bytes
fields-as_bytes f v = λ i. record {
  drive = f.drive;
  name = copy_into-slice (replicate 8 0) f.name (f.type ++ tail1) 8 refl v.name_size i;
  type =
      (ap (copy_into (replicate 3 0)) (drop-append 8 f.name (f.type ++ tail1) v.name_size)
          ∙ copy_into-slice (replicate 3 0) f.type tail1 3 refl v.type_size)
        i;
  ex = past_type 0 i;
  s1 = past_type 1 i;
  s2 = past_type 2 i;
  rc = past_type 3 i;
  al =
      (ap (copy_into (replicate 16 0)) from_al
          ∙ copy_into-slice (replicate 16 0) f.al tail2 16 refl v.al_size)
        i;
  cr = past_al 0 i;
  r0 = past_al 1 i;
  r1 = past_al 2 i;
  r2 = past_al 3 i;
}
  where
    tail2 : List ℕ
    tail2 = f.cr ∷ f.r0 ∷ f.r1 ∷ f.r2 ∷ []

    tail1 : List ℕ
    tail1 = f.ex ∷ f.s1 ∷ f.s2 ∷ f.rc ∷ (f.al ++ tail2)

    past_type : (i : ℕ) → get_or (f.name ++ (f.type ++ tail1)) (8 + (3 + i)) 0 ≡ get_or tail1 i 0
    past_type i =
        get_or-append 8 (3 + i) f.name (f.type ++ tail1) 0 v.name_size
        ∙ get_or-append 3 i f.type tail1 0 v.type_size

    past_al :
        (i : ℕ)
        → get_or (f.name ++ (f.type ++ tail1)) (8 + (3 + (4 + (16 + i)))) 0 ≡ get_or tail2 i 0
    past_al i =
        past_type (4 + (16 + i))
        ∙ get_or-append 4 (16 + i) (f.ex ∷ f.s1 ∷ f.s2 ∷ f.rc ∷ []) (f.al ++ tail2) 0 refl
        ∙ get_or-append 16 i f.al tail2 0 v.al_size

    from_al : drop 15 (f.name ++ (f.type ++ tail1)) ≡ f.al ++ tail2
    from_al =
        sym (drop-drop 7 8 (f.name ++ (f.type ++ tail1)))
        ∙ ap (drop 7) (drop-append 8 f.name (f.type ++ tail1) v.name_size)
        ∙ sym (drop-drop 4 3 (f.type ++ tail1))
        ∙ ap (drop 4) (drop-append 3 f.type tail1 v.type_size)

-- Reading back the bytes of a control block gives the same control block.
pub from_bytes-as_bytes : (f : Fcb) → IsValid f → from_bytes (as_bytes f) ≡ some f
from_bytes-as_bytes f v =
    from_bytes-total (as_bytes f) (omega (arith, length-as_bytes f v))
    ∙ ap some (fields-as_bytes f v)

-- A byte, or an array, of a control block before the rest of the bytes that it was read from.
module _ (bs : List ℕ) {rest : List ℕ} where
  byte_before : (k : ℕ) → k < length bs → rest ≡ drop (suc k) bs → get_or bs k 0 ∷ rest ≡ drop k bs
  byte_before k h e = ap (λ l. get_or bs k 0 ∷ l) e ∙ sym (get_or-drop k bs 0 h)

  array_before :
      (dst : List ℕ) (k m : ℕ)
      → m ≤ length bs
      → m ≡ k + length dst
      → rest ≡ drop m bs
      → copy_into dst (drop k bs) ++ rest ≡ drop k bs
  array_before dst k m h e r =
      rw
        (
          r,
          e,
          copy_into_full dst (drop k bs) (omega (arith, length-drop k bs)),
          ← drop-drop (length dst) k bs,
        )
        (take-append-drop (length dst) (drop k bs))

as_bytes-fields : (bs : List ℕ) → length bs ≡ 36 → as_bytes (fields bs) ≡ bs
unfolding as_bytes fields
as_bytes-fields bs h =
    let end : [] ≡ drop 36 bs = sym (drop_all 36 bs (omega arith)) in
    let random =
      byte_before bs 33 (omega arith)
        (byte_before bs 34 (omega arith) (byte_before bs 35 (omega arith) end)) in
    let map_on =
      array_before bs (replicate 16 0) 16 32 (omega arith) refl
        (byte_before bs 32 (omega arith) random) in
    let counts = byte_before bs 14 (omega arith) (byte_before bs 15 (omega arith) map_on) in
    let extent = byte_before bs 12 (omega arith) (byte_before bs 13 (omega arith) counts) in
    byte_before bs 0 (omega arith) (
      array_before bs (replicate 8 0) 1 9 (omega arith) refl
        (array_before bs (replicate 3 0) 9 12 (omega arith) refl extent))

-- Any 36 bytes are written back as they were read.
pub as_bytes-from_bytes :
    (bs : List ℕ) (f : Fcb) → length bs ≡ 36 → from_bytes bs ≡ some f → as_bytes f ≡ bs
as_bytes-from_bytes bs f h e = subst (λ g. as_bytes g ≡ bs) is_fields (as_bytes-fields bs h)
  where
    is_fields : fields bs ≡ f
    is_fields = ground (arith, from_bytes-total bs (omega arith))
