-- ===== src/Host/Handles.antt =====
-- The open handles of the host: what its calls do to those that are open.
use cpmulator.Base.{
  ℕ, ◌≤◌, ◌<◌, ◌≡◌, ◌∙◌, refl, sym, ap, inl, inr, true, false, ◌==◌, if◌then◌else◌, Bool, Option,
  none, some, arith, Text, Bool-cases,
}
use mathlib.Core.Path.{subst}
use cpmulator.Assoc.{lookup}
use cpmulator.Host.{
  Host, Handle, Call, get_handle, with_handle, move_to, seek, seek_end, read, write, append,
  truncate,
}
use cpmulator.Host.Records.{find-store_self, find-store_ne}

-- Handles are given out in order, what was open stays open, by the name it was opened by, and the
-- same calls fail.
abbrev pub Extends : Host → Host → Type 0
Extends g h =
    (g.next ≤ h.next)
    × ((fd : ℕ) (o : Handle)
        → fd < g.next
        → get_handle g fd ≡ some o
        → (q : Handle) × (get_handle h fd ≡ some q) × (q.path ≡ o.path))
    × (h.faults ≡ g.faults)

pub Extends-refl : (h : Host) → Extends h h
Extends-refl h = (omega arith, λ fd o l e. (o, e, refl), refl)

pub Extends-trans : (f g h : Host) → Extends f g → Extends g h → Extends f h
Extends-trans f g h (n, v, a) (m, w, b) = (
  omega arith,
  λ fd o l e. let (p, x, y) = v fd o l e in let (q, c, d) = w fd p (omega arith) x in (q, c, d ∙ y),
  b ∙ a,
)

unless-some : {A : Type 0} (b : Bool) (y x : A) → (if b then none else some y) ≡ some x → y ≡ x
unless-some true y x e = absurd cc
unless-some false y x e = ap (λ o. elim o [ none ↦ y | some z ↦ z ]) e

-- A call by a handle that has a result was one of an open handle.
pub with_handle-some :
    {A : Type 0} (c : Call) (fd : ℕ) (h : Host) (k : Handle → A) (x : A)
    → with_handle c fd h k ≡ some x
    → (o : Handle) × (get_handle h fd ≡ some o) × (k o ≡ x)
with_handle-some c fd h k x e = found (get_handle h fd) refl e
  where
    found :
        (g : Option Handle)
        → get_handle h fd ≡ g
        → (elim g [ none ↦ none | some o ↦ if h.faults c o.path then none else some (k o) ])
          ≡ some x
        → (o : Handle) × (get_handle h fd ≡ some o) × (k o ≡ x)
    found none n e = absurd cc
    found (some o) n e = (o, n, unless-some (h.faults c o.path) (k o) x e)

pub move_to-Extends :
    (fd position : ℕ) (h : Host) (o : Handle)
    → get_handle h fd ≡ some o
    → Extends h (move_to fd position h o)
move_to-Extends fd position h o e = (
  omega arith,
  λ j q l f. elim (Bool-cases (fd == j)) [
    | inl same ↦
        let at : fd ≡ j = ground arith in
        let inner : some o ≡ some q = sym e ∙ ap (get_handle h) at ∙ f in
        (
          record o { position = position },
          ap (λ n. lookup ◌==◌ n (move_to fd position h o).handles) (sym at)
              ∙ find-store_self fd (record o { position = position }) h.handles,
          ap (λ x. elim x [ none ↦ q.path | some p ↦ p.path ]) inner,
        )
    | inr other ↦ (
      q,
      find-store_ne fd j (record o { position = position }) h.handles (λ at. absurd (ground arith))
          ∙ f,
      refl,
    )
  ],
  refl,
)

-- A call that moves a handle, whatever it does to the contents.
moves :
    {A : Type 0} (c : Call) (fd : ℕ) (h : Host) (k : Handle → A) (x : A) (to_host : A → Host)
    → ((o : Handle) → get_handle h fd ≡ some o → Extends h (to_host (k o)))
    → with_handle c fd h k ≡ some x
    → Extends h (to_host x)
moves c fd h k x to_host v e =
    let (o, found, same) = with_handle-some c fd h k x e in
    subst (λ y. Extends h (to_host y)) same (v o found)

module _ (fd : ℕ) (h : Host) where
  pub seek-Extends : (p : ℕ) (g : Host) → seek fd p h ≡ some g → Extends h g
  unfolding seek
  seek-Extends p g e =
      moves Call.seeking fd h (move_to fd p h) g (λ x. x) (move_to-Extends fd p h) e

  pub seek_end-Extends : (r : ℕ × Host) → seek_end fd h ≡ some r → Extends h r.1
  unfolding seek_end
  seek_end-Extends r e = moves Call.seeking fd h _ r (λ x. x.1) (λ o. move_to-Extends fd _ h o) e

  pub read-Extends : (n : ℕ) (r : Text × Host) → read fd n h ≡ some r → Extends h r.1
  unfolding read
  read-Extends n r e = moves Call.reading fd h _ r (λ x. x.1) (λ o. move_to-Extends fd _ h o) e

  pub write-Extends : (bytes : Text) (g : Host) → write fd bytes h ≡ some g → Extends h g
  unfolding write
  write-Extends bytes g e = moves Call.writing fd h _ g (λ x. x) (λ o. move_to-Extends fd _ h o) e

  pub append-Extends : (bytes : Text) (g : Host) → append fd bytes h ≡ some g → Extends h g
  unfolding append
  append-Extends bytes g e = moves Call.writing fd h _ g (λ x. x) (λ o. move_to-Extends fd _ h o) e

  pub truncate-Extends : (size : ℕ) (g : Host) → truncate fd size h ≡ some g → Extends h g
  unfolding truncate
  truncate-Extends size g e = moves Call.truncating fd h _ g (λ x. x) (λ o found. Extends-refl h) e
