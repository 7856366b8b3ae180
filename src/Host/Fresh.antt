-- ===== src/Host/Fresh.antt =====
-- Handles that the host gives out anew.
use cpmulator.Base.{
  ℕ, ◌+◌, ◌≤◌, ◌<◌, ◌≡◌, ◌≢◌, ◌∙◌, refl, true, false, ◌||◌, ◌==◌, if◌then◌else◌, Bool, Option, none,
  some, [], arith, Text, ne→not_eq,
}
use cpmulator.Assoc.{store, lookup-erase}
use cpmulator.Host.{
  Host, Handle, Call, Opened, get_handle, get_inode, add_handle, add_path, open_file, create_file,
  close, closed, is_dir,
}
use cpmulator.Host.Records.{same_iff, find-store_self, find-store_ne}
use cpmulator.Host.Handles.{Extends, Extends-trans, with_handle-some}

-- A handle that was given out after those of another host.
pub record Fresh (g h : Host) (fd : ℕ) (p : Text) : Type 0 where
  pub extends : Extends g h
  pub late : g.next ≤ fd
  pub given : fd < h.next
  pub handle : Handle
  pub found : get_handle h fd ≡ some handle
  pub named : handle.path ≡ p

-- Handles are closed one at a time.
pub closed-apart : (fd j : ℕ) (h : Host) → fd ≢ j → get_handle (closed fd h) j ≡ get_handle h j
closed-apart fd j h n = lookup-erase ◌==◌ same_iff fd j h.handles ∙ rw (ne→not_eq fd j n) refl

pub close-closed : (fd : ℕ) (h g : Host) → close fd h ≡ some g → closed fd h ≡ g
unfolding close
close-closed fd h g e = let (o, found, same) = with_handle-some Call.closing fd h _ g e in same

-- A handle that is closed may be one of a call that opened it.
pub closed-Extends : (f g : Host) (fd : ℕ) → Extends f g → f.next ≤ fd → Extends f (closed fd g)
closed-Extends f g fd (n, v, a) l = (
  n,
  λ j o k found.
      let (q, there, named) = v j o k found in
      (q, closed-apart fd j g (λ s. absurd (omega arith)) ∙ there, named),
  a,
)

add_handle-Fresh :
    (p : Text) (i : ℕ) (h : Host) → Fresh h (add_handle p i h).1 (add_handle p i h).0 p
add_handle-Fresh p i h =
    let o : Handle = record { inode = i; path = p; position = 0 } in
    record {
      extends = (
        omega arith,
        λ j q l e. (q, find-store_ne h.next j o h.handles (λ s. absurd (omega arith)) ∙ e, refl),
        refl,
      );
      late = omega arith;
      given = omega arith;
      handle = o;
      found = find-store_self h.next o h.handles;
      named = refl;
    }

-- What opening a file leads to.
abbrev pub OpensFresh : Host → Text → Opened → Type 0
OpensFresh g p (Opened.opened fd h) = Fresh g h fd p
OpensFresh g p Opened.not_exist = Unit
OpensFresh g p Opened.failed = Unit

refused :
    (g : Host) (p : Text) (b : Bool) (x : Opened)
    → OpensFresh g p x
    → OpensFresh g p (if b then Opened.failed else x)
refused g p true x v = tt
refused g p false x v = v

pub open_file-Fresh : (p : Text) (h : Host) → OpensFresh h p (open_file p h)
unfolding open_file
open_file-Fresh p h =
    refused h p (h.faults Call.opening p || is_dir p h.dirs) _ (by_inode (get_inode h p))
  where
    by_inode :
        (i : Option ℕ)
        → OpensFresh h p (elim i [
          | none ↦ Opened.not_exist
          | some j ↦ let (fd, g) = add_handle p j h in Opened.opened fd g
        ])
    by_inode none = tt
    by_inode (some j) = add_handle-Fresh p j h

pub create_file-Fresh : (p : Text) (h : Host) → OpensFresh h p (create_file p h)
unfolding create_file
create_file-Fresh p h =
    refused h p (h.faults Call.opening p || is_dir p h.dirs) _ (by_inode (get_inode h p))
  where
    made : Host
    made = record h {
      paths = add_path p h.next h.paths;
      contents = store ◌==◌ h.next [] h.contents;
      next = h.next + 1;
    }

    after_made : Fresh made (add_handle p h.next made).1 (add_handle p h.next made).0 p
    after_made = add_handle-Fresh p h.next made

    by_inode :
        (i : Option ℕ)
        → OpensFresh h p (elim i [
          | none ↦ let (fd, g) = add_handle p h.next made in Opened.opened fd g
          | some j ↦ let (fd, g) = add_handle p j h in Opened.opened fd g
        ])
    by_inode none = record {
      extends =
          Extends-trans h made (add_handle p h.next made).1
            (omega arith, λ fd o l e. (o, e, refl), refl) after_made.extends;
      late = omega arith;
      given = omega arith;
      handle = after_made.handle;
      found = after_made.found;
      named = after_made.named;
    }
    by_inode (some j) = add_handle-Fresh p j h
