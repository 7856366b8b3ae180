-- ===== src/Tests/Disk.antt =====
-- cpm/cpm_bdos.go at a concrete state: one file of the host, opened by a block at 0x5c.
use cpmulator.Base.{
  ◌≡◌, refl, inl, false, none, some, [], ◌∷◌, arith, Text, codes, replicate, IsByte, All-replicate,
}
use cpmulator.Memory
use cpmulator.Fcb.{Fcb, fields, as_bytes, increase_sequential_offset}
use cpmulator.Fcb.Codec.{IsValid, from_bytes-IsValid, from_bytes-total}
use cpmulator.Host.{Host, Handle}
use cpmulator.ConsoleOut.{Driver}
use cpmulator.Cpm.{Cpm, Register, done}
use cpmulator.Bdos.Block.{sector, cache_key}
use cpmulator.Bdos.Files.{read_block}
use cpmulator.Bdos.Records.{IsReady, dma_record, after_reading, record_of_file}
use cpmulator.Bdos.Sequential.{block_bytes, end_flag, read_block_delivers}

abbrev pub f : Fcb
f = fields (replicate 36 0)

pub f-IsValid : IsValid f
f-IsValid =
    from_bytes-IsValid (replicate 36 0) (All-replicate IsByte 36 0 (omega arith))
      (from_bytes-total (replicate 36 0) (omega arith))

abbrev pub path : Text
path = codes "A/X"

abbrev pub o : Handle
o = record { inode = 1; path = path; position = 0 }

abbrev pub host : Host
host = record {
  dirs = codes "A" ∷ [];
  paths = (path, 1) ∷ [];
  contents = (1, codes "hello") ∷ [];
  handles = (7, o) ∷ [];
  next = 8;
  faults = λ c p. false;
}

abbrev pair : Register
pair = record { hi = 0; lo = 0x5c }

abbrev pub s : Cpm
s = record {
  cpu = record { af = pair; bc = pair; de = pair; hl = pair; pc = 0; sp = 0; halt = false };
  memory = Memory.empty;
  input = record {
    driver = record { name = codes "term"; keys = []; pending = false };
    system_prefix = [];
    stuffed = [];
    history = [];
    interrupt_count = 2;
    screen = [];
  };
  output = record { driver = Driver.null [] };
  dma = 0x80;
  start = 0x100;
  bios_address = 0xfe00;
  bdos_address = 0xf000;
  bios_err = none;
  ccp = codes "ccp";
  files = (cache_key f, record { name = path; handle = some 7 }) ∷ [];
  static = [];
  drives = (codes "A", codes "A") ∷ [];
  current_drive = 0;
  user_number = 0;
  find_first_results = [];
  find_offset = 0;
  simple_debug = false;
  printer = [];
  host = host;
}

pub ready : IsReady 0x5c f 7 path o s
unfolding fields
ready = record {
  cached = refl;
  is_open = record { found = refl; works = λ c. refl };
  valid = f-IsValid;
  block_in = omega arith;
  dma_in = omega arith;
  apart = inl (omega arith);
}

read_block_delivers_example :
    let t = after_reading 0x5c f 7 o s in
    (read_block 0x5c f s ≡ done t)
    × (dma_record t ≡ sector 128 (record_of_file f o host))
    × (block_bytes 0x5c t ≡ as_bytes (increase_sequential_offset f))
    × (t.cpu.af.hi ≡ end_flag (record_of_file f o host))
read_block_delivers_example = read_block_delivers 0x5c f 7 path o s ready
