-- ===== src/Emulator/Start/Arguments.antt =====
-- cpm/cpm.go, `Execute` up to its loop: where the arguments of a program come to stand.
use cpmulator.Base.{
  ℕ, suc, ◌+◌, ◌≤◌, ◌<◌, ◌≡◌, ◌≢◌, ◌⊎◌, ◌∙◌, refl, arith, List, [], ◌∷◌, length, All, Text, u8, ap,
}
use cpmulator.Text.Ascii.{IsAscii}
use cpmulator.Memory.{Memory, get, set, get_range, copy_at}
use cpmulator.Memory.Laws.{get-set, set_range_fits, set_range_lem}
use cpmulator.Fcb.{as_bytes, from_string}
use cpmulator.Fcb.Sized.{length-sized, from_string-IsSized}
use cpmulator.Cpm.{Cpm, Result, done, user_drive}
use cpmulator.Bdos.Records.{with_stored-fits}
use cpmulator.Bios.Reserved.Settings.{store_string-copy_at}
use cpmulator.Emulator.Options.{zero_cpu}
use cpmulator.Emulator.Start.{
  fresh_start, command_line, poke_line, with_block, with_blocks, start_up,
}

-- A block at `addr` changes 36 cells.
with_block_lem :
    (addr : ℕ) (a : Text) (s : Cpm) (k : Cpm → Result)
    → addr < 65000
    → (m : Memory) × (with_block addr a s k ≡ k (record s { memory = m }))
      × ((b : ℕ) → (b < addr) ⊎ (addr + 36 ≤ b) → get m b ≡ get s.memory b)
with_block_lem addr a s k h =
    let bytes : List ℕ = as_bytes (from_string a) in
    let n : length bytes ≡ 36 = length-sized (from_string a) (from_string-IsSized a) in
    (
      copy_at s.memory addr bytes,
      with_stored-fits addr bytes s k (omega arith),
      λ b o.
          (set_range_lem s.memory addr bytes _ (set_range_fits s.memory addr bytes (omega arith))).2
            b (omega arith),
    )

-- The blocks of the arguments change the cells from 0x5C to 0x8F.
with_blocks_lem :
    (args : List Text) (s : Cpm) (k : Cpm → Result)
    → (m : Memory) × (with_blocks args s k ≡ k (record s { memory = m }))
      × ((b : ℕ) → (b < 0x5c) ⊎ (0x90 ≤ b) → get m b ≡ get s.memory b)
unfolding with_blocks
with_blocks_lem [] s k = (s.memory, refl, λ b o. refl)
with_blocks_lem (a ∷ []) s k =
    let (m, e, apart) = with_block_lem 0x5c a s k (omega arith) in
    (m, e, λ b o. apart b (omega arith))
with_blocks_lem (a ∷ a' ∷ args) s k =
    let (m, e, apart) = with_block_lem 0x5c a s (λ t. with_block 0x6c a' t k) (omega arith) in
    let (m', e', apart') = with_block_lem 0x6c a' (record s { memory = m }) k (omega arith) in
    (m', e ∙ e', λ b o. apart' b (omega arith) ∙ apart b (omega arith))

-- The command line stands behind its length, in the `uint8` of it.
abbrev pub IsTold : Text → Memory → Type 0
IsTold cli m = (get m 0x80 ≡ u8 (length cli)) × (get_range m 0x81 (length cli) ≡ cli)

poke_line_lem :
    (cli : Text) (s : Cpm)
    → All IsAscii cli
    → length cli ≤ 65000
    → (m : Memory) × (poke_line cli s ≡ record s { memory = m })
      × (0 < length cli → IsTold cli m)
      × ((b : ℕ) → (b < 0x80) ⊎ (0x81 + length cli ≤ b) → get m b ≡ get s.memory b)
unfolding poke_line
poke_line_lem [] s h k = (s.memory, refl, λ p. absurd (omega arith), λ b o. refl)
poke_line_lem (c ∷ cli) s h k =
    let m : Memory = set s.memory 0x80 (u8 (suc (length cli))) in
    let law = set_range_lem m 0x81 (c ∷ cli) _ (set_range_fits m 0x81 (c ∷ cli) (omega arith)) in
    (
      copy_at m 0x81 (c ∷ cli),
      ap (λ x. record s { memory = x }) (store_string-copy_at 0x81 (c ∷ cli) m h (omega arith)),
      λ p. (law.2 0x80 (omega arith) ∙ get-set s.memory 0x80 _ 0x80, law.1),
      λ b o. law.2 b (omega arith) ∙ get-set s.memory 0x80 _ b ∙ ground arith,
    )

-- For arguments whose command line is ASCII and has at most 65000 characters, the start returns no
-- error and leaves a processor with all registers zero but the program counter, at the start of programs,
-- and C, with user and drive; no file is open, and the cell 4 holds user and drive; a command line
-- that is not empty stands at 0x81 with its length at 0x80; and every cell below 0x5C but that at 4,
-- and every cell from 0x90 on that is behind the command line, is as before.
pub start_up_lem :
    (args : List Text) (s : Cpm)
    → All IsAscii (command_line args)
    → length (command_line args) ≤ 65000
    → (t : Cpm) × (start_up args s ≡ done t)
      × (t.cpu ≡ record zero_cpu { pc = s.start; bc = record { hi = 0; lo = user_drive s } })
      × (t.files ≡ [])
      × (get t.memory 4 ≡ user_drive s)
      × (0 < length (command_line args) → IsTold (command_line args) t.memory)
      × ((b : ℕ)
          → ((b < 0x5c) × (b ≢ 4)) ⊎ ((0x90 ≤ b) × (0x81 + length (command_line args) ≤ b))
          → get t.memory b ≡ get s.memory b)
unfolding start_up fresh_start
start_up_lem args s h k =
    let s1 : Cpm = fresh_start s in
    let (m, e, apart) = with_blocks_lem args s1 (λ t. done (poke_line (command_line args) t)) in
    let (m', e', told, apart') = poke_line_lem (command_line args) (record s1 { memory = m }) h k in
    (
      record s1 { memory = m' },
      e ∙ ap done e',
      refl,
      refl,
      apart' 4 (omega arith) ∙ apart 4 (omega arith) ∙ get-set s.memory 4 _ 4,
      told,
      λ b o. apart' b (omega arith) ∙ apart b (omega arith) ∙ get-set s.memory 4 _ b ∙ ground arith,
    )
