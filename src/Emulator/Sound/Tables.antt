-- ===== src/Emulator/Sound/Tables.antt =====
-- cpm/cpm.go, `fileIsOpen` of `CPM`: the cache of open files, as the host changes.
use cpmulator.Base.{
  ℕ, ◌≡◌, ◌∙◌, ◌⊎◌, sym, ap, refl, inl, inr, none, some, List, arith, ◌==◌, Text, ◌≢◌, Bool, true,
  false, Option, if◌then◌else◌,
}
use cpmulator.Assoc.{lookup, store, erase, lookup-store, lookup-erase}
use cpmulator.Host.{Host, Call, get_handle, with_handle, close, closed}
use cpmulator.Host.Records.{same_iff}
use cpmulator.Host.Handles.{Extends}
use cpmulator.Host.Fresh.{Fresh, closed-apart}
use cpmulator.Cpm.{FileCache}
use cpmulator.Emulator.Sound.{IsOpenTable}

abbrev Files : Type 0
Files = List (ℕ × FileCache)

pub Extends-IsOpenTable :
    (files : Files) (g h : Host) → IsOpenTable files g → Extends g h → IsOpenTable files h
Extends-IsOpenTable files g h v (n, w, same_faults) = record {
  is_open = λ key fd obj e f.
      let (o, found, named, early) = v.is_open key fd obj e f in
      let (q, there, same) = w fd o early found in (q, there, same ∙ named, omega arith);
  apart = v.apart;
  closes = λ p. ap (λ faults. faults Call.closing p) same_faults ∙ v.closes p;
}

if-some :
    {A : Type 0} (b : Bool) (a x : A) (o : Option A)
    → (if b then some a else o) ≡ some x
    → ((b ≡ true) × (a ≡ x)) ⊎ ((b ≡ false) × (o ≡ some x))
if-some true a x o e = inl (refl, ap (λ p. elim p [ none ↦ a | some y ↦ y ]) e)
if-some false a x o e = inr (refl, e)

pub if-none :
    {A : Type 0} (b : Bool) (x : A) (o : Option A)
    → (if b then none else o) ≡ some x
    → (b ≡ false) × (o ≡ some x)
if-none true x o e = absurd cc
if-none false x o e = (refl, e)

-- What stands in the table after an entry is stored.
stored :
    (key j : ℕ) (obj x : FileCache) (files : Files)
    → lookup ◌==◌ j (store ◌==◌ key obj files) ≡ some x
    → ((key ≡ j) × (obj ≡ x)) ⊎ (lookup ◌==◌ j files ≡ some x)
stored key j obj x files e =
    let e' = sym (lookup-store ◌==◌ same_iff key j obj files) ∙ e in
    elim (if-some (key == j) obj x (lookup ◌==◌ j files) e') [
      | inl (b, same) ↦ inl (ground arith, same)
      | inr (b, there) ↦ inr there
    ]

kept :
    (key j : ℕ) (x : FileCache) (files : Files)
    → lookup ◌==◌ j (erase ◌==◌ key files) ≡ some x
    → (key ≢ j) × (lookup ◌==◌ j files ≡ some x)
kept key j x files e =
    let (b, there) =
      if-none (key == j) x (lookup ◌==◌ j files)
        (sym (lookup-erase ◌==◌ same_iff key j files) ∙ e) in
    (ground arith, there)

none-some : {n : ℕ} → none ≡ some n → ⊥
none-some e = cc

the_handle :
    (x : FileCache) (obj : FileCache) (fd : ℕ) → obj ≡ x → x.handle ≡ some fd → obj.handle ≡ some fd
the_handle x obj fd same e = ap (λ c. c.handle) same ∙ e

-- An embedded file has no handle.
pub virtual-IsOpenTable :
    (files : Files) (h : Host) (key : ℕ) (name : Text)
    → IsOpenTable files h
    → IsOpenTable (store ◌==◌ key (record { name = name; handle = none }) files) h
virtual-IsOpenTable files h key name v =
    let obj : FileCache = record { name = name; handle = none } in
    let old : (j fd : ℕ) (x : FileCache)
        → lookup ◌==◌ j (store ◌==◌ key obj files) ≡ some x
        → x.handle ≡ some fd
        → lookup ◌==◌ j files ≡ some x =
      λ j fd x e f. elim (stored key j obj x files e) [
        | inl (a, same) ↦ absurd (none-some (the_handle x obj fd same f))
        | inr there ↦ there
      ] in
    record {
      is_open = λ j fd x e f. v.is_open j fd x (old j fd x e f) f;
      apart = λ j k fd x y a b f g. v.apart j k fd x y (old j fd x a f) (old k fd y b g) f g;
      closes = v.closes;
    }

-- A file that has just been opened is added with its handle.
pub opened-IsOpenTable :
    (files : Files) (g h : Host) (fd key : ℕ) (name : Text)
    → IsOpenTable files g
    → Fresh g h fd name
    → IsOpenTable (store ◌==◌ key (record { name = name; handle = some fd }) files) h
opened-IsOpenTable files g h fd key name v w =
    let obj : FileCache = record { name = name; handle = some fd } in
    let old = Extends-IsOpenTable files g h v w.extends in
    let early : (j i : ℕ) (x : FileCache)
        → lookup ◌==◌ j files ≡ some x
        → x.handle ≡ some i
        → i ≡ fd
        → ⊥ =
      λ j i x e f same. let (o, a, b, l) = v.is_open j i x e f in absurd (omega (arith, w.late)) in
    let is_new : (i : ℕ) (x : FileCache) → obj ≡ x → x.handle ≡ some i → i ≡ fd =
      λ i x same f. ap (λ p. elim p [ none ↦ i | some n ↦ n ]) (sym (the_handle x obj i same f)) in
    record {
      is_open = λ j i x e f. elim (stored key j obj x files e) [
        | inl (at, same) ↦ (
          w.handle,
          ap (get_handle h) (is_new i x same f) ∙ w.found,
          w.named ∙ ap (λ c. c.name) same,
          omega (arith, w.given, is_new i x same f),
        )
        | inr there ↦ old.is_open j i x there f
      ];
      apart = λ j k i x y a b f e. elim (stored key j obj x files a) [
        | inl (at, same) ↦ elim (stored key k obj y files b) [
          | inl (at', same') ↦ sym at ∙ at'
          | inr there ↦ absurd (early k i y there e (is_new i x same f))
        ]
        | inr there ↦ elim (stored key k obj y files b) [
          | inl (at, same) ↦ absurd (early j i x there f (is_new i y same e))
          | inr there' ↦ v.apart j k i x y there there' f e
        ]
      ];
      closes = old.closes;
    }

-- A file of the cache can be closed.
pub close-cached :
    (files : Files) (h : Host) (key fd : ℕ) (obj : FileCache)
    → IsOpenTable files h
    → lookup ◌==◌ key files ≡ some obj
    → obj.handle ≡ some fd
    → close fd h ≡ some (closed fd h)
unfolding close
close-cached files h key fd obj v e f =
    let (o, found, rest, early) = v.is_open key fd obj e f in
    rw (found, with_handle) (rw (v.closes o.path, with_handle) refl)

-- A file that is closed goes from the table with its handle.
pub closed-IsOpenTable :
    (files : Files) (h : Host) (key fd : ℕ) (obj : FileCache)
    → IsOpenTable files h
    → lookup ◌==◌ key files ≡ some obj
    → obj.handle ≡ some fd
    → IsOpenTable (erase ◌==◌ key files) (closed fd h)
closed-IsOpenTable files h key fd obj v e f = record {
  is_open = λ j i x a b.
      let (ne, there) = kept key j x files a in
      let (o, found, named, early) = v.is_open j i x there b in
      let same =
        closed-apart fd i h (λ at. ne (v.apart key j fd obj x e there f (b ∙ ap some (sym at)))) in
      (o, same ∙ found, named, early);
  apart =
      λ j k i x y a b p q. v.apart j k i x y (kept key j x files a).1 (kept key k y files b).1 p q;
  closes = v.closes;
}
