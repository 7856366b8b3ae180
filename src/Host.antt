-- ===== src/Host.antt =====
-- What the program uses of Go's `os`: the files of the host. The paths are clean and stand in the
-- order in which `os.ReadDir` lists them. A fault is an error that the host may return for any
-- call; which calls fail is given by the field `faults`.
pub mod Renaming
pub mod Records
pub mod Paths
pub mod Opening
pub mod Written
pub mod Runs
pub mod Handles
pub mod Fresh
use cpmulator.Base.{
  ℕ, zero, suc, ◌+◌, ◌-◌, Bool, true, false, Option, none, some, List, [], ◌∷◌, ◌++◌, if◌then◌else◌,
  length, take, drop, replicate, Text, text_eq, ◌==◌, leb, ◌||◌,
}
use cpmulator.Assoc.{lookup, store, erase}
use cpmulator.FilePath.{base, join_path}
use cpmulator.Fcb.{DirEntry}

pub data Call : Type 0 where
  listing opening stating seeking reading writing truncating closing removing renaming making : Call

-- An open file: which one, the name it was opened by, and the position in it.
pub record Handle : Type 0 where
  pub inode : ℕ
  pub path : Text
  pub position : ℕ

pub record Host : Type 0 where
  pub dirs : List Text
  pub paths : List (Text × ℕ)
  pub contents : List (ℕ × Text)
  pub handles : List (ℕ × Handle)
  pub next : ℕ
  pub faults : Call → Text → Bool

abbrev pub get_inode : Host → Text → Option ℕ
get_inode h p = lookup text_eq p h.paths

abbrev pub get_handle : Host → ℕ → Option Handle
get_handle h fd = lookup ◌==◌ fd h.handles

-- The content of a file.
abbrev pub content : Host → ℕ → Text
content h i = elim (lookup ◌==◌ i h.contents) [ none ↦ [] | some t ↦ t ]

unfoldable pub is_in_dir : Text → Text → Bool
unfolding base join_path
is_in_dir dir p = text_eq (join_path dir (base p)) p

abbrev files_in : Text → List (Text × ℕ) → List DirEntry
files_in dir [] = []
files_in dir ((p, i) ∷ m) =
    let rest = files_in dir m in
    if is_in_dir dir p then record { name = base p; is_dir = false } ∷ rest else rest

abbrev dirs_in : Text → List Text → List DirEntry
dirs_in dir [] = []
dirs_in dir (p ∷ m) =
    let rest = dirs_in dir m in
    if text_eq p dir
    then rest
    else if is_in_dir dir p
    then record { name = base p; is_dir = true } ∷ rest
    else rest

abbrev pub is_dir : Text → List Text → Bool
is_dir p [] = false
is_dir p (d ∷ ds) = text_eq p d || is_dir p ds

-- `os.ReadDir`; `none` is an error. The directories stand before the files, which no caller can tell
-- but by a directory and a file whose names differ in case only.
unfoldable pub list_dir : Text → Host → Option (List DirEntry)
unfolding is_in_dir
list_dir p h =
    if h.faults Call.listing p
    then none
    else if is_dir p h.dirs
    then some (dirs_in p h.dirs ++ files_in p h.paths)
    else none

-- A new handle at the start of a file.
abbrev pub add_handle : Text → ℕ → Host → ℕ × Host
add_handle p i h = (
  h.next,
  record h {
    handles = store ◌==◌ h.next (record { inode = i; path = p; position = 0 }) h.handles;
    next = h.next + 1;
  },
)

pub data Opened : Type 0 where
  opened : ℕ → Host → Opened
  not_exist : Opened
  failed : Opened

-- `os.OpenFile` without `O_CREATE`.
unfoldable pub open_file : Text → Host → Opened
open_file p h =
    if h.faults Call.opening p || is_dir p h.dirs then Opened.failed else (elim (get_inode h p) [
      | none ↦ Opened.not_exist
      | some i ↦ let (fd, h') = add_handle p i h in Opened.opened fd h'
    ])

-- Text before another in byte order.
abbrev pub text_le : Text → Text → Bool
text_le [] t = true
text_le (a ∷ s) [] = false
text_le (a ∷ s) (b ∷ t) = if a == b then text_le s t else leb a b

-- A path is added in its place in the order.
abbrev pub add_path : Text → ℕ → List (Text × ℕ) → List (Text × ℕ)
add_path p i [] = (p, i) ∷ []
add_path p i ((q, j) ∷ m) =
    if text_eq q p
    then (p, i) ∷ m
    else if text_le p q
    then (p, i) ∷ (q, j) ∷ m
    else (q, j) ∷ add_path p i m

-- `os.OpenFile` with `O_CREATE`.
unfoldable pub create_file : Text → Host → Opened
create_file p h =
    if h.faults Call.opening p || is_dir p h.dirs then Opened.failed else (elim (get_inode h p) [
      | none ↦
          let made = record h {
            paths = add_path p h.next h.paths;
            contents = store ◌==◌ h.next [] h.contents;
            next = h.next + 1;
          } in
          let (fd, h') = add_handle p h.next made in Opened.opened fd h'
      | some i ↦ let (fd, h') = add_handle p i h in Opened.opened fd h'
    ])

-- A call on a handle that is closed or never was, or that the host refuses, is an error.
abbrev pub with_handle : {A : Type 0} → Call → ℕ → Host → (Handle → A) → Option A
with_handle c fd h use_it = elim (get_handle h fd) [
  | none ↦ none
  | some o ↦ if h.faults c o.path then none else some (use_it o)
]

-- The size that `Stat` gives.
unfoldable pub stat_size : ℕ → Host → Option ℕ
stat_size fd h = with_handle Call.stating fd h (λ o. length (content h o.inode))

abbrev pub move_to : ℕ → ℕ → Host → Handle → Host
move_to fd position h o = record h {
  handles = store ◌==◌ fd (record o { position = position }) h.handles;
}

-- `Seek` from the start.
unfoldable pub seek : ℕ → ℕ → Host → Option Host
seek fd position h = with_handle Call.seeking fd h (move_to fd position h)

-- `Seek` to the end, with the position there.
unfoldable pub seek_end : ℕ → Host → Option (ℕ × Host)
seek_end fd h =
    with_handle Call.seeking fd h
      (λ o. (length (content h o.inode), move_to fd (length (content h o.inode)) h o))

-- `Read` of at most `n` bytes; no byte is the error `io.EOF`.
unfoldable pub read : ℕ → ℕ → Host → Option (Text × Host)
read fd n h = with_handle Call.reading fd h (λ o.
    let bytes = take n (drop o.position (content h o.inode)) in
    (bytes, move_to fd (o.position + length bytes) h o))

-- A content with bytes written at a position; a gap before them is filled with zeros.
unfoldable pub written : ℕ → Text → Text → Text
written position bytes old =
    take position (old ++ replicate (position - length old) 0)
    ++ bytes
    ++ drop (position + length bytes) old

unfoldable pub write : ℕ → Text → Host → Option Host
unfolding written
write fd bytes h = with_handle Call.writing fd h (λ o.
    let put = record h {
      contents = store ◌==◌ o.inode (written o.position bytes (content h o.inode)) h.contents;
    } in
    move_to fd (o.position + length bytes) put o)

-- `Write` to a file that was opened with `O_APPEND`.
unfoldable pub append : ℕ → Text → Host → Option Host
append fd bytes h = with_handle Call.writing fd h (λ o.
    let old = content h o.inode in
    let put = record h { contents = store ◌==◌ o.inode (old ++ bytes) h.contents } in
    move_to fd (length old + length bytes) put o)

-- `os.ReadFile`; `none` is an error.
unfoldable pub read_file : Text → Host → Option Text
read_file p h =
    if h.faults Call.opening p || h.faults Call.reading p || is_dir p h.dirs
    then none
    else (elim (get_inode h p) [ none ↦ none | some i ↦ some (content h i) ])

unfoldable pub truncate : ℕ → ℕ → Host → Option Host
truncate fd size h = with_handle Call.truncating fd h (λ o.
    let old = content h o.inode in
    record h {
      contents = store ◌==◌ o.inode (take size (old ++ replicate (size - length old) 0)) h.contents;
    })

-- The host after `Close`, which gives up the handle also where it returns an error.
abbrev pub closed : ℕ → Host → Host
closed fd h = record h { handles = erase ◌==◌ fd h.handles }

-- `Close`; `none` is its error, after which the host is `closed` all the same.
unfoldable pub close : ℕ → Host → Option Host
close fd h = with_handle Call.closing fd h (λ o. closed fd h)

-- `os.Remove` of a file.
unfoldable pub remove : Text → Host → Option Host
remove p h = if h.faults Call.removing p then none else (elim (get_inode h p) [
  | none ↦ none
  | some i ↦ some (record h { paths = erase text_eq p h.paths })
])

-- `os.Stat`: a file or a directory is there, or there is none, or the host refuses.
pub data Stat : Type 0 where
  there missing refused : Stat

unfoldable pub stat : Text → Host → Stat
stat p h =
    if h.faults Call.stating p
    then Stat.refused
    else if is_dir p h.dirs
    then Stat.there
    else (elim (get_inode h p) [ none ↦ Stat.missing | some i ↦ Stat.there ])

-- `os.Mkdir`
unfoldable pub mkdir : Text → Host → Option Host
mkdir p h =
    if h.faults Call.making p || is_dir p h.dirs
    then none
    else (elim (get_inode h p) [ none ↦ some (record h { dirs = p ∷ h.dirs }) | some i ↦ none ])
