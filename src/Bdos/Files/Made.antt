-- ===== src/Bdos/Files/Made.antt =====
-- cpm/cpm_bdos.go, `BdosSysCallMakeFile` and `BdosSysCallFileClose`: the states they leave.
use cpmulator.Base.{[], ℕ, ◌+◌, ◌≤◌, ◌≡◌, false, some, arith, length, set, Text, text_eq, ◌==◌}
use cpmulator.Text.{contains}
use cpmulator.Assoc.{erase}
use cpmulator.Memory
use cpmulator.Fcb
use cpmulator.Fcb.{Fcb, as_bytes}
use cpmulator.Fcb.Codec.{IsValid, length-as_bytes}
use cpmulator.Host.{Host, Handle, content, create_file, opened}
use cpmulator.Host.Records.{stat_size-IsOpen, close-open}
use cpmulator.Host.Opening.{
  IsFile, at_start, with_open, with_made, with_open-IsOpen, create_file-made,
}
use cpmulator.Cpm.{Cpm, done}
use cpmulator.Bdos.Console.{return_zero}
use cpmulator.Bdos.Block.{cache_key}
use cpmulator.Bdos.Files.{
  make_block, made_file, close_block, close_cached, close_handle, host_name, add_cache,
}
use cpmulator.Bdos.Files.Opened.{opened_block, opened_block-IsValid, after_opening, al-IsValid}
use cpmulator.Bdos.Records.{IsReady, with_stored-fits}

-- The state with the file that a block names on the host.
abbrev pub with_file : Fcb → Cpm → Cpm
with_file f s = record s { host = with_made (host_name f s) s.host }

make_block-created :
    (ptr : ℕ) (f : Fcb) (i : ℕ) (s : Cpm) (h1 : Host)
    → IsValid f
    → ptr + 36 ≤ 65536
    → text_eq (Fcb.get_file_name f) [] ≡ false
    → IsFile h1 (host_name f s) i
    → create_file (host_name f s) s.host ≡ opened h1.next (with_open h1 (host_name f s) i)
    → make_block ptr f s ≡ done (after_opening ptr f (host_name f s) i (record s { host = h1 }))
unfolding make_block made_file
make_block-created ptr f i s h1 v h n k e =
    let name : Text = host_name f s in
    let s1 : Cpm =
      add_cache ptr (record { name = name; handle = some h1.next })
        (record s { host = with_open h1 name i }) in
    let g : Fcb = opened_block ptr f (length (content h1 i)) in
    let size = length-as_bytes g (opened_block-IsValid ptr f (length (content h1 i)) v) in
    let size_of =
      stat_size-IsOpen (with_open h1 name i) h1.next (at_start name i)
        (with_open-IsOpen h1 name i k) in
    rw (n, e, make_block)
      (rw (size_of, made_file)
        (with_stored-fits ptr (as_bytes g) s1 (λ s'. done (return_zero s')) (omega (arith, size))))

-- Making a file that is there, or can be, leads where opening it would.
pub make_block-after :
    (ptr : ℕ) (f : Fcb) (i : ℕ) (s : Cpm)
    → IsValid f
    → ptr + 36 ≤ 65536
    → text_eq (Fcb.get_file_name f) [] ≡ false
    → IsFile (with_made (host_name f s) s.host) (host_name f s) i
    → make_block ptr f s ≡ done (after_opening ptr f (host_name f s) i (with_file f s))
make_block-after ptr f i s v h n k =
    make_block-created ptr f i s (with_made (host_name f s) s.host) v h n k
      (create_file-made s.host (host_name f s) i k)

-- The block of a file that has been closed.
abbrev pub closed_block : Fcb → Fcb
closed_block f = record f { al = set (set f.al 0 0) 1 0 }

closed_block-IsValid : (f : Fcb) → IsValid f → IsValid (closed_block f)
closed_block-IsValid f v = al-IsValid f 0 0 v (omega arith) (omega arith)

-- The state after an open file is closed.
abbrev pub after_closing : ℕ → Fcb → ℕ → Cpm → Cpm
after_closing ptr f fd s = return_zero (record s {
  host = record (s.host) { handles = erase ◌==◌ fd s.host.handles };
  files = erase ◌==◌ (cache_key f) s.files;
  memory = Memory.copy_at s.memory ptr (as_bytes (closed_block f));
})

-- An open file whose name has no "$" is closed as it is.
pub close_block-after :
    (ptr : ℕ) (f : Fcb) (fd : ℕ) (name : Text) (o : Handle) (s : Cpm)
    → IsReady ptr f fd name o s
    → contains b'$' name ≡ false
    → close_block ptr f s ≡ done (after_closing ptr f fd s)
unfolding close_block close_cached close_handle
close_block-after ptr f fd name o s r e =
    let g : Fcb = closed_block f in
    let h = record (s.host) { handles = erase ◌==◌ fd s.host.handles } in
    let size = length-as_bytes g (closed_block-IsValid f r.valid) in
    rw (r.cached, e, close_block)
      (rw (close-open s.host fd o r.is_open, close_handle)
        (with_stored-fits ptr (as_bytes g)
          (record s { host = h; files = erase ◌==◌ (cache_key f) s.files })
          (λ s'. done (return_zero s')) (omega (arith, size, r.block_in))))
