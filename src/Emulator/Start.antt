-- ===== src/Emulator/Start.antt =====
-- cpm/cpm.go, `Execute` up to its loop: the processor, and the arguments of the program.
pub mod Arguments
use cpmulator.Base.{ℕ, suc, none, some, List, [], ◌∷◌, length, Text, u8}
use cpmulator.Text.{join, trim_space, to_upper}
use cpmulator.Memory
use cpmulator.Host.{Host}
use cpmulator.Fcb.{as_bytes, from_string}
use cpmulator.Cpm.{Cpm, FileCache, Result, user_drive, done}
use cpmulator.Bdos.Block.{with_stored}
use cpmulator.Bdos.Random.{close_quietly}
use cpmulator.Bios.Reserved.{store_string}
use cpmulator.Emulator.Options.{zero_cpu}

-- "Reset any cached filehandles": to close the handle of an embedded file is an error, which is not
-- looked at.
unfoldable pub close_all : List (ℕ × FileCache) → Host → Host
close_all [] h = h
close_all ((key, obj) ∷ files) h =
    close_all files (elim obj.handle [ none ↦ h | some fd ↦ close_quietly fd h ])

-- The state before the arguments are stored.
unfoldable pub fresh_start : Cpm → Cpm
unfolding close_all user_drive Memory.set
fresh_start s = record s {
  host = close_all s.files s.host;
  files = [];
  cpu = record zero_cpu { pc = s.start; bc = record { hi = 0; lo = user_drive s } };
  memory = Memory.set s.memory 4 (user_drive s);
}

-- "Convert our array of CLI arguments to a string."
unfoldable pub command_line : List Text → Text
unfolding join trim_space to_upper
command_line args = trim_space (to_upper (join (b' ' ∷ []) args))

-- "Poke in the CLI argument as a Pascal string."
unfoldable pub poke_line : Text → Cpm → Cpm
unfolding store_string
poke_line [] s = s
poke_line (c ∷ cli) s = record s {
  memory = store_string 0x81 (c ∷ cli) (Memory.set s.memory 0x80 (u8 (suc (length cli))));
}

-- A control block for an argument, and the rest.
abbrev pub with_block : ℕ → Text → Cpm → (Cpm → Result) → Result
with_block addr arg s k = with_stored addr (as_bytes (from_string arg)) s k

-- The control blocks of the first two arguments.
unfoldable pub with_blocks : List Text → Cpm → (Cpm → Result) → Result
unfolding as_bytes from_string
with_blocks [] s k = k s
with_blocks (a ∷ []) s k = with_block 0x5c a s k
with_blocks (a ∷ b ∷ args) s k = with_block 0x5c a s (λ t. with_block 0x6c b t k)

-- All that `Execute` does before its loop.
unfoldable pub start_up : List Text → Cpm → Result
unfolding fresh_start command_line poke_line with_blocks
start_up args s = with_blocks args (fresh_start s) (λ t. done (poke_line (command_line args) t))
