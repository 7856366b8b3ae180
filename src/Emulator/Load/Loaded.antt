-- ===== src/Emulator/Load/Loaded.antt =====
-- cpm/cpm.go, `LoadBinary` and `LoadCCP`: what they leave in RAM.
use cpmulator.Base.{
  ℕ, ◌+◌, ◌≤◌, ◌<◌, ◌≡◌, ◌⊎◌, ◌∙◌, ◌==◌, ltb, leb, ◌&&◌, ◌||◌, if◌then◌else◌, inl, arith, none,
  some, length, u16, Text,
}
use mathlib.Core.Path.{subst}
use cpmulator.Memory.{Memory, get, get_range, copy_at, empty}
use cpmulator.Memory.Laws.{get-set, get-fill_range, set_range_fits, set_range_lem, load_file_lem}
use cpmulator.Memory.Ranges.{get_range_cong}
use cpmulator.FilePath.{clean}
use cpmulator.Host
use cpmulator.Ccp
use cpmulator.Cpm.{Cpm, Error, Result, done, fails}
use cpmulator.Env.{Env}
use cpmulator.Bdos.Records.{with_stored-fits}
use cpmulator.Emulator.Patch.{fixup_ram}
use cpmulator.Emulator.Patch.Entries.{IsEntry, IsLow, fixup_ram_lem}
use cpmulator.Emulator.Load.{default_area, prepared, load_binary, load_ccp}

-- No arguments: the command line is empty, and the two control blocks have the default drive and
-- spaces for a name.
abbrev pub IsBare : Memory → Type 0
IsBare m =
    (get m 0x80 ≡ 0)
    × ((i : ℕ) → i < 31 → get m (0x81 + i) ≡ 0)
    × (get m 0x5c ≡ 0)
    × ((i : ℕ) → i < 11 → get m (0x5d + i) ≡ b' ')
    × (get m 0x6c ≡ 0)
    × ((i : ℕ) → i < 11 → get m (0x6d + i) ≡ b' ')

get-default_area :
    (m : Memory) (b : ℕ)
    → b < 65536
    → get (default_area m) b ≡ (
        if (leb 0x5d b && ltb b 0x68) || (leb 0x6d b && ltb b 0x78)
        then b' '
        else if b == 0x5c || b == 0x6c || (leb 0x80 b && ltb b 0xa0)
        then 0
        else get m b)
unfolding default_area
get-default_area m b h =
    rw
      (
        get-fill_range _ 0x6d 11 b' ' b (omega arith) h,
        get-set _ 0x6c 0 b,
        get-fill_range _ 0x5d 11 b' ' b (omega arith) h,
        get-set _ 0x5c 0 b,
        get-fill_range _ 0x81 31 0 b (omega arith) h,
        get-set m 0x80 0 b,
      )
      (ground arith)

default_apart :
    (m : Memory) (b : ℕ) → b < 65536 → (b < 0x5c) ⊎ (0xa0 ≤ b) → get (default_area m) b ≡ get m b
default_apart m b h o = get-default_area m b h ∙ ground arith

default_area-IsBare : (m : Memory) → IsBare (default_area m)
default_area-IsBare m = (
  get-default_area m 0x80 (omega arith),
  λ i p. get-default_area m (0x81 + i) (omega arith) ∙ ground arith,
  get-default_area m 0x5c (omega arith),
  λ i p. get-default_area m (0x5d + i) (omega arith) ∙ ground arith,
  get-default_area m 0x6c (omega arith),
  λ i p. get-default_area m (0x6d + i) (omega arith) ∙ ground arith,
)

-- The BIOS lies behind the first 256 bytes, and it and the address of the BDOS end in the RAM.
abbrev pub IsPlaced : ℕ → ℕ → Type 0
IsPlaced bios bdos = (0x100 ≤ bios) × (bios + 240 ≤ 65536) × (bdos + 6 < 65536)

-- Cells from 256 on outside of the BIOS are as they were.
patched_apart :
    (bios bdos : ℕ) (m : Memory) (b : ℕ)
    → IsPlaced bios bdos
    → b < 65536
    → 0x100 ≤ b
    → (b < bios) ⊎ (bios + 240 ≤ b)
    → get (fixup_ram bios bdos (default_area m)) b ≡ get m b
patched_apart bios bdos m b (h, k, l) p q o =
    (fixup_ram_lem bios bdos (default_area m) (omega arith) k l).2 b (omega arith) o
    ∙ default_apart m b p (omega arith)

-- What each load leaves in RAM but for the program.
abbrev pub IsSetUp : ℕ → ℕ → ℕ → Memory → Type 0
IsSetUp bios bdos drive m =
    ((i : ℕ) → i < 30 → IsEntry bios i m) × IsLow bios bdos drive m × IsBare m

patched-IsSetUp :
    (bios bdos drive : ℕ) (m : Memory)
    → IsPlaced bios bdos
    → get m 4 ≡ drive
    → IsSetUp bios bdos drive (fixup_ram bios bdos (default_area m))
patched-IsSetUp bios bdos drive m (h, k, l) e =
    let laws = fixup_ram_lem bios bdos (default_area m) (omega arith) k l in
    let bare = default_area-IsBare m in
    (
      laws.0,
      subst (λ d. IsLow bios bdos d m') (default_apart m 4 (omega arith) (omega arith) ∙ e) laws.1,
      (
        same 0x80 (omega arith) (omega arith) ∙ bare.0,
        λ i p. same (0x81 + i) (omega arith) (omega arith) ∙ bare.1 i p,
        same 0x5c (omega arith) (omega arith) ∙ bare.2,
        λ i p. same (0x5d + i) (omega arith) (omega arith) ∙ bare.3 i p,
        same 0x6c (omega arith) (omega arith) ∙ bare.4,
        λ i p. same (0x6d + i) (omega arith) (omega arith) ∙ bare.5 i p,
      ),
    )
  where
    m' : Memory
    m' = fixup_ram bios bdos (default_area m)

    same : (b : ℕ) → 8 ≤ b → b < bios → get m' b ≡ get (default_area m) b
    same b p q = (fixup_ram_lem bios bdos (default_area m) (omega arith) k l).2 b p (inl q)

-- A program in RAM outside of the BIOS stays.
patched-program :
    (bios bdos : ℕ) (m : Memory) (a n : ℕ)
    → IsPlaced bios bdos
    → 0x100 ≤ a
    → a < 65536
    → a + n ≤ 65536
    → (a + n ≤ bios) ⊎ (bios + 240 ≤ a)
    → get_range (fixup_ram bios bdos (default_area m)) a n ≡ get_range m a n
patched-program bios bdos m a n h k l p o =
    get_range_cong (fixup_ram bios bdos (default_area m)) m a n l
      (λ i q. patched_apart bios bdos m (u16 (a + i)) h (omega arith) (omega arith) (omega arith))

-- With the BIOS at 256 or above, and its 240 bytes and BDOS + 6 within the RAM: a file that can be
-- read, and whose bytes fit between the start of programs, at 256 or above, and the BIOS, is loaded
-- without an error, and only RAM changes. The program stands at its start; the entries of the BIOS,
-- the cells below 8 and the empty arguments are set up, and the drive at 4 is 0. A file that cannot
-- be read is an error that leaves the RAM zero, and one that does not fit in the RAM is a panic.
pub load_binary_lem :
    (filename : Text) (prog : Text) (s : Cpm)
    → IsPlaced s.bios_address s.bdos_address
    → 0x100 ≤ s.start
    → (Host.read_file (clean filename) s.host ≡ none
        → load_binary filename s ≡ fails Error.other (record s { memory = empty }))
      × (Host.read_file (clean filename) s.host ≡ some prog
          → 65536 < s.start + length prog
          → load_binary filename s ≡ Result.panic)
      × (Host.read_file (clean filename) s.host ≡ some prog
          → s.start < s.bios_address
          → s.start + length prog ≤ s.bios_address
          → (m : Memory) × (load_binary filename s ≡ done (record s { memory = m }))
            × (get_range m s.start (length prog) ≡ prog)
            × IsSetUp s.bios_address s.bdos_address 0 m)
unfolding load_binary
load_binary_lem filename prog s h k = (
  λ e. rw (e, load_binary),
  λ e l. rw (e, (load_file_lem s.memory s.start prog).1 l, load_binary),
  λ e p q.
      let (m, loaded, there, clear) = (load_file_lem s.memory s.start prog).2 (omega arith) in
      (
        fixup_ram s.bios_address s.bdos_address (default_area m),
        rw (e, loaded, load_binary),
        patched-program s.bios_address s.bdos_address m s.start (length prog) h k (omega arith)
              (omega arith) (inl q)
            ∙ there,
        patched-IsSetUp s.bios_address s.bdos_address 0 m h (clear 4 (inl (omega arith))),
      ),
)

-- With the BIOS at 256 or above, and its 240 bytes and BDOS + 6 within the RAM: the load of a
-- command processor whose name is known, and that fits in the RAM from 256 on and apart from the
-- BIOS, returns no error and changes the start of programs and RAM only. The processor stands at its
-- start; the entries of the BIOS, the cells below 8 and the empty arguments are set up; and the drive
-- at 4 and every other cell from 256 on outside of the BIOS are as they were. A name that is not
-- known is an error that changes nothing.
pub load_ccp_lem :
    (env : Env) (s : Cpm)
    → IsPlaced s.bios_address s.bdos_address
    → (Ccp.get env.dr env.ccpz s.ccp ≡ none → load_ccp env s ≡ fails Error.other s)
      × ((helper : Ccp.Flavour)
          → Ccp.get env.dr env.ccpz s.ccp ≡ some helper
          → 0x100 ≤ helper.start
          → helper.start < 65536
          → helper.start + length helper.bytes ≤ 65536
          → (helper.start + length helper.bytes ≤ s.bios_address)
            ⊎ (s.bios_address + 240 ≤ helper.start)
          → (m : Memory) × (load_ccp env s ≡ done (record s { memory = m; start = helper.start }))
            × (get_range m helper.start (length helper.bytes) ≡ helper.bytes)
            × IsSetUp s.bios_address s.bdos_address (get s.memory 4) m
            × ((b : ℕ)
                → 0x100 ≤ b
                → b < 65536
                → (b < helper.start) ⊎ (helper.start + length helper.bytes ≤ b)
                → (b < s.bios_address) ⊎ (s.bios_address + 240 ≤ b)
                → get m b ≡ get s.memory b))
unfolding load_ccp
load_ccp_lem env s h = (
  λ e. rw (e, load_ccp),
  λ helper e k l p q.
      let m = copy_at s.memory helper.start helper.bytes in
      let law = set_range_lem _ _ _ m (set_range_fits s.memory helper.start helper.bytes p) in
      (
        fixup_ram s.bios_address s.bdos_address (default_area m),
        rw (e, load_ccp)
            (with_stored-fits helper.start helper.bytes s
              (λ t. done (prepared (record t { start = helper.start }))) p),
        patched-program s.bios_address s.bdos_address m helper.start (length helper.bytes) h k l p q
            ∙ law.1,
        patched-IsSetUp s.bios_address s.bdos_address _ m h (law.2 4 (inl (omega arith))),
        λ b u v w x. patched_apart s.bios_address s.bdos_address m b h v u x ∙ law.2 b w,
      ),
)
