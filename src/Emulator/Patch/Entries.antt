-- ===== src/Emulator/Patch/Entries.antt =====
-- cpm/cpm.go, `fixupRAM`: what stands in RAM after it.
use cpmulator.Base.{
  ℕ, zero, suc, ◌+◌, ◌*◌, ◌/◌, ◌%◌, ◌≤◌, ◌<◌, ◌≡◌, ◌∙◌, ◌⊎◌, refl, sym, arith, Bool-cases, inl, inr,
  u8, u16, if◌then◌else◌, ◌==◌,
}
use mathlib.Core.Path.{subst}
use cpmulator.Memory.{Memory, get, get_u16}
use cpmulator.Memory.Laws.{get-set}
use cpmulator.Emulator.Patch.{set_mem, code_of, low_memory, jump, stub, entries, fixup_ram}

-- The entry of a call: a jump to the code that sends its number to port 0xFF.
abbrev pub IsEntry : ℕ → ℕ → Memory → Type 0
IsEntry bios i m =
    (get m (bios + 3 * i) ≡ 0xc3)
    × (get m (bios + 3 * i + 1) ≡ code_of bios i % 256)
    × (get m (bios + 3 * i + 2) ≡ code_of bios i / 256)
    × (get m (code_of bios i) ≡ 0x3e)
    × (get m (code_of bios i + 1) ≡ i)
    × (get m (code_of bios i + 2) ≡ 0xd3)
    × (get m (code_of bios i + 3) ≡ 0xff)
    × (get m (code_of bios i + 4) ≡ 0xc9)

get-set_mem :
    (a v b : ℕ) (m : Memory)
    → a < 65536
    → v < 256
    → get (set_mem a v m) b ≡ (if b == a then v else get m b)
unfolding set_mem
get-set_mem a v b m h k = get-set m (u16 a) (u8 v) b ∙ ground arith

get-jump :
    (bios i b : ℕ) (m : Memory)
    → bios + 240 ≤ 65536
    → i < 30
    → get (jump bios i m) b ≡ (
        if b == bios + 3 * i + 2
        then code_of bios i / 256
        else if b == bios + 3 * i + 1
        then code_of bios i % 256
        else if b == bios + 3 * i
        then 0xc3
        else get m b)
unfolding jump
get-jump bios i b m h k = rw (
  get-set_mem (bios + 3 * i + 2) (code_of bios i / 256) b _ (omega arith) (omega arith),
  get-set_mem (bios + 3 * i + 1) (code_of bios i % 256) b _ (omega arith) (omega arith),
  get-set_mem (bios + 3 * i) 0xc3 b m (omega arith) (omega arith),
)

get-stub :
    (bios i b : ℕ) (m : Memory)
    → bios + 240 ≤ 65536
    → i < 30
    → get (stub bios i m) b ≡ (
        if b == code_of bios i + 4
        then 0xc9
        else if b == code_of bios i + 3
        then 0xff
        else if b == code_of bios i + 2
        then 0xd3
        else if b == code_of bios i + 1
        then i
        else if b == code_of bios i
        then 0x3e
        else get m b)
unfolding stub
get-stub bios i b m h k = rw (
  get-set_mem (code_of bios i + 4) 0xc9 b _ (omega arith) (omega arith),
  get-set_mem (code_of bios i + 3) 0xff b _ (omega arith) (omega arith),
  get-set_mem (code_of bios i + 2) 0xd3 b _ (omega arith) (omega arith),
  get-set_mem (code_of bios i + 1) i b _ (omega arith) (omega arith),
  get-set_mem (code_of bios i) 0x3e b m (omega arith) (omega arith),
)

-- A cell outside of the jump and the code of an entry.
abbrev IsOutside : ℕ → ℕ → ℕ → Type 0
IsOutside bios i b =
    ((b < bios + 3 * i) ⊎ (bios + 3 * i + 3 ≤ b))
    × ((b < code_of bios i) ⊎ (code_of bios i + 5 ≤ b))

entry_apart :
    (bios i b : ℕ) (m : Memory)
    → bios + 240 ≤ 65536
    → i < 30
    → IsOutside bios i b
    → get (stub bios i (jump bios i m)) b ≡ get m b
entry_apart bios i b m h k o =
    rw (get-stub bios i b (jump bios i m) h k, get-jump bios i b m h k) (ground arith)

entry_lem :
    (bios i : ℕ) (m : Memory)
    → bios + 240 ≤ 65536
    → i < 30
    → IsEntry bios i (stub bios i (jump bios i m))
entry_lem bios i m h k = (
  rw (get-stub bios i _ m' h k, get-jump bios i _ m h k) (ground arith),
  rw (get-stub bios i _ m' h k, get-jump bios i _ m h k) (ground arith),
  rw (get-stub bios i _ m' h k, get-jump bios i _ m h k) (ground arith),
  rw (get-stub bios i _ m' h k) (ground arith),
  rw (get-stub bios i _ m' h k) (ground arith),
  rw (get-stub bios i _ m' h k) (ground arith),
  rw (get-stub bios i _ m' h k) (ground arith),
  rw (get-stub bios i _ m' h k) (ground arith),
)
  where
    m' : Memory
    m' = jump bios i m

-- An entry stands in a RAM that agrees with another on its cells.
IsEntry-cong :
    (bios i : ℕ) (m m' : Memory)
    → ((b : ℕ)
        → ((bios + 3 * i ≤ b) × (b < bios + 3 * i + 3))
          ⊎ ((code_of bios i ≤ b) × (b < code_of bios i + 5))
        → get m' b ≡ get m b)
    → IsEntry bios i m
    → IsEntry bios i m'
IsEntry-cong bios i m m' e h = (
  e _ (omega arith) ∙ h.0,
  e _ (omega arith) ∙ h.1,
  e _ (omega arith) ∙ h.2,
  e _ (omega arith) ∙ h.3,
  e _ (omega arith) ∙ h.4,
  e _ (omega arith) ∙ h.5,
  e _ (omega arith) ∙ h.6,
  e _ (omega arith) ∙ h.7,
)

-- The entries from `i` on leave all other cells alone.
entries_apart :
    (bios i n b : ℕ) (m : Memory)
    → bios + 240 ≤ 65536
    → i + n ≤ 30
    → (b < bios + 3 * i)
      ⊎ ((bios + 3 * (i + n) ≤ b) × (b < code_of bios i))
      ⊎ (code_of bios (i + n) ≤ b)
    → get (entries bios i n m) b ≡ get m b
unfolding entries
entries_apart bios i zero b m h k o = refl
entries_apart bios i (suc n) b m h k o =
    entries_apart bios (suc i) n b (stub bios i (jump bios i m)) h (omega arith) (omega arith)
    ∙ entry_apart bios i b m h (omega arith) (omega arith)

entries_lem :
    (bios i n j : ℕ) (m : Memory)
    → bios + 240 ≤ 65536
    → i + n ≤ 30
    → i ≤ j
    → j < i + n
    → IsEntry bios j (entries bios i n m)
unfolding entries
entries_lem bios i zero j m h k p q = absurd (omega arith)
entries_lem bios i (suc n) j m h k p q = elim (Bool-cases (j == i)) [
  | inl e ↦
      let same : j ≡ i = ground arith in
      subst (λ x. IsEntry bios x (entries bios i (suc n) m)) (sym same)
        (IsEntry-cong bios i (stub bios i (jump bios i m)) _
          (λ b o. entries_apart bios (suc i) n b _ h (omega arith) (omega arith))
          (entry_lem bios i m h (omega arith)))
  | inr e ↦ entries_lem bios (suc i) n j _ h (omega arith) (ground arith) (omega arith)
]

get-low_memory :
    (bios bdos b : ℕ) (m : Memory)
    → bios + 3 < 65536
    → bdos + 6 < 65536
    → get (low_memory bios bdos m) b ≡ (
        if b == 3
        then 0
        else if b == 7
        then (bdos + 6) / 256
        else if b == 6
        then (bdos + 6) % 256
        else if b == 5
        then 0x76
        else if b == 2
        then (bios + 3) / 256
        else if b == 1
        then (bios + 3) % 256
        else if b == 0
        then 0x76
        else get m b)
unfolding low_memory
get-low_memory bios bdos b m h k = rw (
  get-set_mem 3 0 b _ (omega arith) (omega arith),
  get-set_mem 7 ((bdos + 6) / 256) b _ (omega arith) (omega arith),
  get-set_mem 6 ((bdos + 6) % 256) b _ (omega arith) (omega arith),
  get-set_mem 5 0x76 b _ (omega arith) (omega arith),
  get-set_mem 2 ((bios + 3) / 256) b _ (omega arith) (omega arith),
  get-set_mem 1 ((bios + 3) % 256) b _ (omega arith) (omega arith),
  get-set_mem 0 0x76 b m (omega arith) (omega arith),
)

-- The cells below 8: a HALT at 0 and at 5, the addresses that programs read behind them, the byte
-- of the devices; the drive at 4 stays.
abbrev pub IsLow : ℕ → ℕ → ℕ → Memory → Type 0
IsLow bios bdos drive m =
    (get m 0 ≡ 0x76)
    × (get_u16 m 1 ≡ bios + 3)
    × (get m 3 ≡ 0)
    × (get m 4 ≡ drive)
    × (get m 5 ≡ 0x76)
    × (get_u16 m 6 ≡ bdos + 6)

below_entries :
    (bios bdos b : ℕ) (m : Memory)
    → 8 ≤ bios
    → bios + 240 ≤ 65536
    → b < 8
    → get (fixup_ram bios bdos m) b ≡ get (low_memory bios bdos m) b
unfolding fixup_ram
below_entries bios bdos b m h k p = entries_apart bios 0 30 b _ k (omega arith) (omega arith)

low_lem :
    (bios bdos b : ℕ) (m : Memory)
    → 8 ≤ bios
    → bios + 240 ≤ 65536
    → bdos + 6 < 65536
    → b < 8
    → get (fixup_ram bios bdos m) b ≡ (
        if b == 3
        then 0
        else if b == 7
        then (bdos + 6) / 256
        else if b == 6
        then (bdos + 6) % 256
        else if b == 5
        then 0x76
        else if b == 2
        then (bios + 3) / 256
        else if b == 1
        then (bios + 3) % 256
        else if b == 0
        then 0x76
        else get m b)
low_lem bios bdos b m h k q p =
    below_entries bios bdos b m h k p ∙ get-low_memory bios bdos b m (omega arith) q

-- With the BIOS at 8 or above and its 240 bytes within the RAM, and BDOS + 6 below 65536, patching
-- any RAM makes each of the 30 entries of the BIOS a jump to code that sends the number of the
-- entry to port 0xFF and returns; it puts a HALT at 0 and at 5 and the addresses BIOS + 3 and
-- BDOS + 6 behind them and 0 at 3; and it leaves the cell 4 and all cells from 8 on outside of the
-- 240 bytes as they are.
pub fixup_ram_lem :
    (bios bdos : ℕ) (m : Memory)
    → 8 ≤ bios
    → bios + 240 ≤ 65536
    → bdos + 6 < 65536
    → ((i : ℕ) → i < 30 → IsEntry bios i (fixup_ram bios bdos m))
      × IsLow bios bdos (get m 4) (fixup_ram bios bdos m)
      × ((b : ℕ) → 8 ≤ b → (b < bios) ⊎ (bios + 240 ≤ b) → get (fixup_ram bios bdos m) b ≡ get m b)
unfolding fixup_ram get_u16
fixup_ram_lem bios bdos m h k q = (
  λ i p. entries_lem bios 0 30 i _ k (omega arith) (omega arith) (omega arith),
  (
    low_lem bios bdos 0 m h k q (omega arith),
    ground (
      arith,
      low_lem bios bdos 1 m h k q (omega arith),
      low_lem bios bdos 2 m h k q (omega arith),
    ),
    low_lem bios bdos 3 m h k q (omega arith),
    low_lem bios bdos 4 m h k q (omega arith),
    low_lem bios bdos 5 m h k q (omega arith),
    ground (
      arith,
      low_lem bios bdos 6 m h k q (omega arith),
      low_lem bios bdos 7 m h k q (omega arith),
    ),
  ),
  λ b p o.
      entries_apart bios 0 30 b _ k (omega arith) (omega arith)
      ∙ get-low_memory bios bdos b m (omega arith) q
      ∙ ground arith,
)
