-- ===== src/Emulator/Patch.antt =====
-- cpm/cpm.go, `fixupRAM`: the code in RAM by which a program that jumps to the BIOS reaches `Out`.
pub mod Entries
use cpmulator.Base.{ℕ, zero, suc, ◌+◌, ◌*◌, ◌/◌, ◌%◌, u8, u16}
use cpmulator.Memory
use cpmulator.Memory.{Memory}

-- `SETMEM`
unfoldable pub set_mem : ℕ → ℕ → Memory → Memory
unfolding Memory.set
set_mem a v m = Memory.set m (u16 a) (u8 v)

-- The address of the code of an entry: `BIOS+NENTRY*3+i*5`.
abbrev pub code_of : ℕ → ℕ → ℕ
code_of bios i = bios + 90 + i * 5

-- The cells below 8.
unfoldable pub low_memory : ℕ → ℕ → Memory → Memory
unfolding set_mem
low_memory bios bdos m =
    let m1 = set_mem 0 0x76 m in
    let m2 = set_mem 1 ((bios + 3) % 256) m1 in
    let m3 = set_mem 2 ((bios + 3) / 256) m2 in
    let m4 = set_mem 5 0x76 m3 in
    let m5 = set_mem 6 ((bdos + 6) % 256) m4 in
    let m6 = set_mem 7 ((bdos + 6) / 256) m5 in set_mem 3 0 m6

-- The jump of an entry to its code.
unfoldable pub jump : ℕ → ℕ → Memory → Memory
unfolding set_mem
jump bios i m =
    let m1 = set_mem (bios + 3 * i) 0xc3 m in
    let m2 = set_mem (bios + 3 * i + 1) (code_of bios i % 256) m1 in
    set_mem (bios + 3 * i + 2) (code_of bios i / 256) m2

-- The code of an entry: the number of the call goes to A, and A to port 0xFF.
unfoldable pub stub : ℕ → ℕ → Memory → Memory
unfolding set_mem
stub bios i m =
    let m1 = set_mem (code_of bios i) 0x3e m in
    let m2 = set_mem (code_of bios i + 1) i m1 in
    let m3 = set_mem (code_of bios i + 2) 0xd3 m2 in
    let m4 = set_mem (code_of bios i + 3) 0xff m3 in set_mem (code_of bios i + 4) 0xc9 m4

-- The loop over the entries from `i` on, `n` of them.
unfoldable pub entries : ℕ → ℕ → ℕ → Memory → Memory
unfolding jump stub
entries bios i zero m = m
entries bios i (suc n) m = entries bios (suc i) n (stub bios i (jump bios i m))

unfoldable pub fixup_ram : ℕ → ℕ → Memory → Memory
unfolding low_memory entries
fixup_ram bios bdos m = entries bios 0 30 (low_memory bios bdos m)
