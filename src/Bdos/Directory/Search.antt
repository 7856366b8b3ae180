-- ===== src/Bdos/Directory/Search.antt =====
-- cpm/cpm_bdos.go, `BdosSysCallFindFirst` and `BdosSysCallFindNext`: what a whole search delivers.
use cpmulator.Base.{ℕ, ◌+◌, ◌≡◌, Option, none, some, List, [], ◌∷◌}
use cpmulator.Memory
use cpmulator.Fcb.{Fcb, FcbFind, as_bytes}
use cpmulator.Fcb.Sized.{IsSized, from_string-IsSized}
use cpmulator.Host
use cpmulator.Cpm.{Cpm, Result, done, set_a}
use cpmulator.Bdos.Console.{return_zero}
use cpmulator.Bdos.Directory.{size_of, found_block, find_next}

pub found_block-IsSized : (x : FcbFind) (size : Option ℕ) → IsSized (found_block x size)
unfolding found_block
found_block-IsSized x none = from_string-IsSized x.name
found_block-IsSized x (some size) =
    let v = from_string-IsSized x.name in
    record { name_size = v.name_size; type_size = v.type_size; al_size = v.al_size }

-- The block of a result, as the host tells its size.
abbrev pub block_of : FcbFind → Cpm → Fcb
block_of x s = found_block x (size_of x.host s.host).0

-- A call has delivered a result: the DMA area holds its block, and A is 0.
pub record Delivers (r : Result) (x : FcbFind) (s t : Cpm) : Type 0 where
  pub returns : r ≡ done t
  pub stored : Memory.get_range t.memory t.dma 36 ≡ as_bytes (block_of x s)
  pub result : t.cpu.af.hi ≡ 0
  pub results : t.find_first_results ≡ s.find_first_results
  pub offset : t.find_offset ≡ s.find_offset
  pub dma : t.dma ≡ s.dma

after_found : FcbFind → Cpm → Cpm
after_found x s = return_zero (record s {
  host = (size_of x.host s.host).1;
  memory = Memory.copy_at s.memory s.dma (as_bytes (block_of x s));
})

-- The searches after the first: each delivers the next of the results, and the one after the last
-- finds nothing.
pub data Search : Cpm → List FcbFind → Type 0 where
  over : {s : Cpm} → find_next s ≡ done (set_a 0xff s) → Search s []
  next :
      {s t : Cpm} {x : FcbFind} {xs : List FcbFind}
      → Delivers (find_next s) x (record s { find_offset = s.find_offset + 1 }) t
      → Search t xs
      → Search s (x ∷ xs)

-- A whole search, from its first call.
pub data Searches (r : Result) (s : Cpm) : List FcbFind → Type 0 where
  nothing :
      r ≡ done (set_a 0xff (record s { find_first_results = []; find_offset = 0 }))
      → Searches r s []
  first :
      {t : Cpm} {x : FcbFind} {xs : List FcbFind}
      → Delivers r x (record s { find_first_results = xs; find_offset = 0 }) t
      → Search t xs
      → Searches r s (x ∷ xs)
