-- ===== src/Bios/Reserved/Settings.antt =====
-- cpm/cpm_bios.go, `BiosSysCallReserved1`: settings that are told, and how they are read back.
use cpmulator.Base.{
  ℕ, zero, suc, ◌+◌, ◌-◌, ◌≤◌, ◌<◌, ◌≡◌, ◌⊎◌, ◌∙◌, refl, ap, inl, inr, arith, Option, none, some,
  false, [], ◌∷◌, ◌++◌, length, All, Text, u16, lt→ltb, ◌==◌, if◌then◌else◌, get_or, leb, ltb, ◌&&◌,
}
use cpmulator.Text.{to_lower, utf8}
use cpmulator.Text.Ascii.{IsAscii, utf8_ascii}
use cpmulator.Memory.{Memory, get, set, copy_at}
use cpmulator.Memory.Laws.{get-set, get-copy_at}
use cpmulator.ConsoleIn
use cpmulator.ConsoleOut
use cpmulator.Cpm.{Cpm, done}
use cpmulator.Env.{Env}
use cpmulator.Bios.Reserved.{
  store_string, clear_down, clear_dma, string_from, get_string_from_memory, tell, reserved1,
}

-- Of ASCII, a text is stored byte by byte.
pub store_string-copy_at :
    (addr : ℕ) (t : Text) (m : Memory)
    → All IsAscii t
    → addr + length t ≤ 65535
    → store_string addr t m ≡ copy_at m addr t
unfolding store_string copy_at
store_string-copy_at addr [] m h k = refl
store_string-copy_at addr (b ∷ []) m h k = refl
store_string-copy_at addr (b ∷ c ∷ t) m h k =
    let e : u16 (addr + 1) ≡ addr + 1 = omega arith in
    rw (lt→ltb b 0xc0 (omega arith), e, store_string)
      (store_string-copy_at (addr + 1) (c ∷ t) (set m addr b) h.1 (omega arith))

-- A visible ASCII character: no space, and no end of a string.
abbrev pub IsWord : ℕ → Type 0
IsWord c = (32 < c) × (c < 128)

All-IsAscii : (t : Text) → All IsWord t → All IsAscii t
All-IsAscii [] h = tt
All-IsAscii (c ∷ t) h = (h.0.1, All-IsAscii t h.1)

get-clear_down :
    (addr n b : ℕ) (m : Memory)
    → get (clear_down addr n m) b ≡ (if ltb addr b && leb b (addr + n) then 0 else get m b)
unfolding clear_down
get-clear_down addr zero b m = ground arith
get-clear_down addr (suc n) b m =
    get-clear_down addr n b (set m (addr + suc n) 0) ∙ ground (arith, get-set m (addr + suc n) 0 b)

-- A word in RAM with a zero behind it is read as it is.
string_from-word :
    (t : Text) (fuel addr : ℕ) (m : Memory)
    → All IsWord t
    → length t < fuel
    → addr + length t < 65536
    → ((i : ℕ) → i < length t → get m (addr + i) ≡ get_or t i 0)
    → get m (addr + length t) ≡ 0
    → string_from fuel m addr ≡ some t
unfolding string_from
string_from-word t zero addr m h k l at end = absurd (omega arith)
string_from-word [] (suc fuel) addr m h k l at end =
    let here : get m addr ≡ 0 = ap (get m) {y = addr + 0} (omega arith) ∙ end in
    rw (here, string_from) refl
string_from-word (c ∷ t) (suc fuel) addr m h k l at end =
    let here : get m addr ≡ c = ap (get m) {y = addr + 0} (omega arith) ∙ at 0 (omega arith) in
    let e : u16 (addr + 1) ≡ addr + 1 = omega arith in
    let rest : string_from fuel m (addr + 1) ≡ some t =
      string_from-word t fuel (addr + 1) m h.1 (omega arith) (omega arith)
        (λ i p. ap (get m) {y = addr + suc i} (omega arith) ∙ at (suc i) (omega arith))
        (ap (get m) {y = addr + suc (length t)} (omega arith) ∙ end) in
    let no_space : (c == 32) ≡ false = ground arith in
    let no_end : (c == 0) ≡ false = ground arith in
    let char : utf8 (get m addr) ≡ c ∷ [] = ap utf8 here ∙ utf8_ascii c (omega arith) in
    rw (here, e, rest, no_space, no_end, string_from) (ap (λ u. some (u ++ t)) char)

in_text :
    (addr n b x y : ℕ)
    → addr ≤ b
    → b < addr + n
    → (if leb addr b && ltb b (addr + n) then x else y) ≡ x
in_text addr n b x y h k = ground arith

not_in_text :
    (addr n b x y : ℕ)
    → (b < addr) ⊎ (addr + n ≤ b)
    → (if leb addr b && ltb b (addr + n) then x else y) ≡ y
not_in_text addr n b x y h = ground arith

in_zeros :
    (addr n b x : ℕ)
    → addr < b
    → b ≤ addr + n
    → (if ltb addr b && leb b (addr + n) then 0 else x) ≡ 0
in_zeros addr n b x h k = ground arith

not_in_zeros :
    (addr n b x : ℕ)
    → (b < addr) ⊎ (addr + n < b)
    → (if ltb addr b && leb b (addr + n) then 0 else x) ≡ x
not_in_zeros addr n b x h = ground arith

-- What is told is read back at the DMA area, in small letters.
told_lem :
    (str : Text) (addr : ℕ) (m : Memory)
    → All IsWord str
    → 0 < length str
    → length str ≤ 127
    → addr + 127 < 65536
    → (get_string_from_memory (store_string addr str (clear_dma addr m)) addr ≡ some (to_lower str))
      × ((b : ℕ)
          → (b < addr) ⊎ (addr + 127 < b)
          → get (store_string addr str (clear_dma addr m)) b ≡ get m b)
unfolding get_string_from_memory clear_dma
told_lem str addr m h k l r =
    let cleared : Memory = clear_dma addr m in
    let n : u16 (addr + 127) - addr ≡ 127 = omega arith in
    let store = store_string-copy_at addr str cleared (All-IsAscii str h) (omega arith) in
    let zeros : (b : ℕ)
        → get cleared b ≡ (if ltb addr b && leb b (addr + 127) then 0 else get m b) =
      λ b. ap (λ k. get (clear_down addr k m) b) n ∙ get-clear_down addr 127 b m in
    let cells : (b : ℕ)
        → get (store_string addr str cleared) b ≡ (
            if leb addr b && ltb b (addr + length str)
            then get_or str (b - addr) 0
            else get cleared b) =
      λ b. ap (λ x. get x b) store ∙ get-copy_at cleared addr str b in
    (
      ap (λ o. elim o as (λ x. Option Text) [ none ↦ none | some t ↦ some (to_lower t) ])
          (string_from-word str 65536 addr (store_string addr str cleared) h (omega arith)
            (omega arith)
            (λ i p.
              let d : addr + i - addr ≡ i = omega arith in
              cells (addr + i)
              ∙ in_text addr (length str) (addr + i) _ _ (omega arith) (omega arith)
              ∙ ap (λ k. get_or str k 0) d)
            (cells (addr + length str)
              ∙ not_in_text addr (length str) (addr + length str) _ _ (omega arith)
              ∙ zeros (addr + length str)
              ∙ in_zeros addr 127 (addr + length str) _ (omega arith) (omega arith))),
      λ b o.
          cells b
          ∙ not_in_text addr (length str) b _ _ (omega arith)
          ∙ zeros b
          ∙ not_in_zeros addr 127 b _ o,
    )

-- What HL asks for: the output driver, the command processor, the input driver, or the prefix of
-- commands for the host.
abbrev pub IsSetting : ℕ → Text → Cpm → Type 0
IsSetting hl str s =
    ((hl ≡ 2) × (str ≡ ConsoleOut.get_name s.output))
    ⊎ ((hl ≡ 3) × (str ≡ s.ccp))
    ⊎ ((hl ≡ 7) × (str ≡ ConsoleIn.get_name s.input))
    ⊎ ((hl ≡ 8) × (str ≡ ConsoleIn.get_system_command_prefix s.input))

reserved1-tell :
    (env : Env) (s : Cpm) (str : Text)
    → env.pairs.to_u16 s.cpu.de ≡ 0
    → IsSetting (env.pairs.to_u16 s.cpu.hl) str s
    → reserved1 env s ≡ tell str s
unfolding reserved1
reserved1-tell env s str h (inl (e, k)) = rw (k, e, h, reserved1) refl
reserved1-tell env s str h (inr (inl (e, k))) = rw (k, e, h, reserved1) refl
reserved1-tell env s str h (inr (inr (inl (e, k)))) = rw (k, e, h, reserved1) refl
reserved1-tell env s str h (inr (inr (inr (e, k)))) = rw (k, e, h, reserved1) refl

-- Where a setting that HL asks for is not empty, has no space and at most 127 characters, all of
-- ASCII, and DE is 0 and the DMA area ends in the RAM, the call returns without an error and changes
-- only the 128 cells of the DMA area; a string read from there, as by the call that changes the
-- setting, is the setting in small letters.
pub reserved1-told :
    (env : Env) (s : Cpm) (str : Text)
    → env.pairs.to_u16 s.cpu.de ≡ 0
    → IsSetting (env.pairs.to_u16 s.cpu.hl) str s
    → All IsWord str
    → 0 < length str
    → length str ≤ 127
    → s.dma + 127 < 65536
    → (m : Memory) × (reserved1 env s ≡ done (record s { memory = m }))
      × (get_string_from_memory m s.dma ≡ some (to_lower str))
      × ((b : ℕ) → (b < s.dma) ⊎ (s.dma + 127 < b) → get m b ≡ get s.memory b)
unfolding tell
reserved1-told env s str h set_by w k l r =
    let (back, others) = told_lem str s.dma s.memory w k l r in
    (
      store_string s.dma str (clear_dma s.dma s.memory),
      reserved1-tell env s str h set_by,
      back,
      others,
    )
