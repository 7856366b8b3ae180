-- ===== src/Host/Records.antt =====
-- What was written to an open file is read back at the same place.
use cpmulator.Base.{
  ℕ, ◌+◌, ◌-◌, ◌≡◌, refl, ap, ◌∙◌, ◌≢◌, true, false, ◌↔◌, some, List, ◌++◌, arith, length, take,
  drop, replicate, Text, ◌==◌, length-append, length-take, length-replicate, take-append,
  drop-append, append_assoc, eq_refl, ne→not_eq,
}
use cpmulator.Assoc.{lookup, store, erase, lookup-store}
use cpmulator.Host.{
  Host, Handle, Call, get_handle, content, stat_size, seek, read, write, written, move_to,
  with_handle, append, close,
}

pub same_iff : (a b : ℕ) → ((a == b) ≡ true) ↔ (a ≡ b)
same_iff a b = ground arith

-- An open file of which no call fails.
pub record IsOpen (h : Host) (fd : ℕ) (o : Handle) : Type 0 where
  pub found : get_handle h fd ≡ some o
  pub works : (c : Call) → h.faults c o.path ≡ false

pub find-store_self :
    {V : Type 0} (k : ℕ) (v : V) (m : List (ℕ × V)) → lookup ◌==◌ k (store ◌==◌ k v m) ≡ some v
find-store_self k v m = lookup-store ◌==◌ same_iff k k v m ∙ rw (eq_refl k)

pub find-store_ne :
    {V : Type 0} (k j : ℕ) (v : V) (m : List (ℕ × V))
    → k ≢ j
    → lookup ◌==◌ j (store ◌==◌ k v m) ≡ lookup ◌==◌ j m
find-store_ne k j v m h = lookup-store ◌==◌ same_iff k j v m ∙ rw (ne→not_eq k j h)

-- The part before the written bytes has the length of the position.
length_before : (p : ℕ) (old : Text) → length (take p (old ++ replicate (p - length old) 0)) ≡ p
length_before p old = omega (
  arith,
  length-take p (old ++ replicate (p - length old) 0),
  length-append old (replicate (p - length old) 0),
  length-replicate {A = ℕ} (p - length old) 0,
)

-- The bytes stand where they were written.
pub take-drop-written :
    (p : ℕ) (bytes old : Text) → take (length bytes) (drop p (written p bytes old)) ≡ bytes
unfolding written
take-drop-written p bytes old =
    let before = take p (old ++ replicate (p - length old) 0) in
    let after = drop (p + length bytes) old in
    ap (λ t. take (length bytes) (drop p t)) (append_assoc before bytes after)
    ∙ ap (take (length bytes)) (drop-append p before (bytes ++ after) (length_before p old))
    ∙ take-append (length bytes) bytes after refl

-- The host after writing at the position of a handle.
abbrev pub put : Host → ℕ → Handle → Text → Host
put h fd o bytes =
    move_to fd (o.position + length bytes)
      (record h {
        contents = store ◌==◌ o.inode (written o.position bytes (content h o.inode)) h.contents;
      })
      o

module _ (h : Host) (fd : ℕ) (o : Handle) (v : IsOpen h fd o) where
  with_handle-open : {A : Type 0} (c : Call) (k : Handle → A) → with_handle c fd h k ≡ some (k o)
  with_handle-open c k = rw (v.found, with_handle) (rw (v.works c))

  pub seek-IsOpen :
      (p : ℕ)
      → let h' = move_to fd p h o in
        (seek fd p h ≡ some h') × IsOpen h' fd (record o { position = p })
  unfolding seek
  seek-IsOpen p = (
    with_handle-open Call.seeking (move_to fd p h),
    record { found = find-store_self fd _ h.handles; works = v.works },
  )

  pub write-IsOpen :
      (bytes : Text)
      → (write fd bytes h ≡ some (put h fd o bytes))
        × IsOpen (put h fd o bytes) fd (record o { position = o.position + length bytes })
        × (content (put h fd o bytes) o.inode ≡ written o.position bytes (content h o.inode))
        × ((i : ℕ) → o.inode ≢ i → content (put h fd o bytes) i ≡ content h i)
  unfolding write
  write-IsOpen bytes = (
    with_handle-open Call.writing _,
    record { found = find-store_self fd _ h.handles; works = v.works },
    rw (find-store_self o.inode (written o.position bytes (content h o.inode)) h.contents, content),
    λ i n. rw (
      find-store_ne o.inode i (written o.position bytes (content h o.inode)) h.contents n,
      content,
    ),
  )

  pub read-open :
      (n : ℕ)
      → let bytes = take n (drop o.position (content h o.inode)) in
        read fd n h ≡ some (bytes, move_to fd (o.position + length bytes) h o)
  unfolding read
  read-open n = with_handle-open Call.reading _

  pub stat_size-IsOpen : stat_size fd h ≡ some (length (content h o.inode))
  unfolding stat_size
  stat_size-IsOpen = with_handle-open Call.stating (λ p. length (content h p.inode))

  -- The host after bytes are appended.
  abbrev pub appended : Text → Host
  appended bytes =
      move_to fd (length (content h o.inode) + length bytes)
        (record h { contents = store ◌==◌ o.inode (content h o.inode ++ bytes) h.contents }) o

  pub append-IsOpen :
      (bytes : Text)
      → (append fd bytes h ≡ some (appended bytes))
        × IsOpen
            (appended bytes)
            fd
            (record o { position = length (content h o.inode) + length bytes })
        × (content (appended bytes) o.inode ≡ content h o.inode ++ bytes)
        × ((i : ℕ) → o.inode ≢ i → content (appended bytes) i ≡ content h i)
  unfolding append
  append-IsOpen bytes = (
    with_handle-open Call.writing _,
    record { found = find-store_self fd _ h.handles; works = v.works },
    rw (find-store_self o.inode (content h o.inode ++ bytes) h.contents, content),
    λ i n. rw (find-store_ne o.inode i (content h o.inode ++ bytes) h.contents n, content),
  )

  pub close-open : close fd h ≡ some (record h { handles = erase ◌==◌ fd h.handles })
  unfolding close
  close-open = with_handle-open Call.closing _
