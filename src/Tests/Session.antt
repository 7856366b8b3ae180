-- ===== src/Tests/Session.antt =====
-- cpm/cpm_bdos.go at a concrete state: a new file is made, written and read back.
use cpmulator.Base.{
  ◌≡◌, ◌≢◌, ◌+◌, ◌*◌, refl, inl, [], ◌∷◌, arith, replicate, All-replicate, IsByte, List, Text, ℕ,
}
use cpmulator.Text.{contains}
use cpmulator.Memory.{get, get_range, copy_at, set}
use cpmulator.FilePath.{join_path}
use cpmulator.Fcb
use cpmulator.Fcb.{Fcb, as_bytes, fields, get_sequential_offset}
use cpmulator.Fcb.Codec.{IsValid}
use cpmulator.Host
use cpmulator.Host.{content, written}
use cpmulator.Host.Runs.{join}
use cpmulator.Cpm.{Cpm, done, drive_path}
use cpmulator.Bdos.Block.{existing_name}
use cpmulator.Bdos.Files.{make_file, file_close, file_open, read}
use cpmulator.Bdos.Records.{dma_record}
use cpmulator.Bdos.Stream.{times, Stands}
use cpmulator.Bdos.Writes.{write_all, write_all_stores}
use cpmulator.Bdos.Session.{CanMake, put_block, records_come_back}
use cpmulator.Tests.Disk.{f, f-IsValid, path, o, host, s}
use cpmulator.Tests.Calls.{pairs, stands}

-- The block names the file Y, which is not there.
abbrev new_file : Fcb
new_file = record f { name = b'Y' ∷ replicate 7 b' '; type = replicate 3 b' ' }

new_file-IsValid : IsValid new_file
new_file-IsValid = record {
  name_size = refl;
  type_size = refl;
  al_size = f-IsValid.al_size;
  name_bytes = (omega arith, All-replicate IsByte 7 b' ' (omega arith));
  type_bytes = All-replicate IsByte 3 b' ' (omega arith);
  al_bytes = f-IsValid.al_bytes;
  drive_byte = f-IsValid.drive_byte;
  ex_byte = f-IsValid.ex_byte;
  s1_byte = f-IsValid.s1_byte;
  s2_byte = f-IsValid.s2_byte;
  rc_byte = f-IsValid.rc_byte;
  cr_byte = f-IsValid.cr_byte;
  r0_byte = f-IsValid.r0_byte;
  r1_byte = f-IsValid.r1_byte;
  r2_byte = f-IsValid.r2_byte;
}

abbrev begun : Cpm
begun = put_block pairs new_file s

can_make : CanMake pairs new_file 8 begun
unfolding fields Fcb.get_file_name existing_name drive_path join_path Host.list_dir as_bytes
    contains get_range get copy_at set
can_make = record {
  there = record {
    valid = new_file-IsValid;
    block_in = omega arith;
    named = refl;
    not_embedded = refl;
    on_host = (λ c. refl, refl, refl);
  };
  same_name = refl;
  plain = refl;
  block = refl;
  dma_in = omega arith;
  apart = inl (omega arith);
}

abbrev two_records : List Text
two_records = replicate 128 7 ∷ replicate 128 8 ∷ []

records_come_back_example :
    (t : Cpm) × (u : Cpm) × (v : Cpm) × (w : Cpm) × (x : Cpm) × (y : Cpm) × (make_file pairs begun
      ≡ done t)
    × (write_all pairs two_records t ≡ done u)
    × (file_close pairs u ≡ done v)
    × (file_open pairs (put_block pairs new_file v) ≡ done w)
    × (times 1 (read pairs) w ≡ done x)
    × (read pairs x ≡ done y)
    × (dma_record y ≡ replicate 128 8)
    × (y.cpu.af.hi ≡ 0)
unfolding fields
records_come_back_example =
    records_come_back pairs two_records new_file 8 begun 1 can_make (refl, (refl, tt))
      (record { cr_in = omega arith; ex_in = omega arith }) refl (omega arith) (omega arith)

write_all_stores_example :
    (t : Cpm) × (g : Fcb) × (position : ℕ) × (write_all pairs two_records s ≡ done t)
    × (content t.host 1 ≡ written (get_sequential_offset f) (join two_records) (content host 1))
    × ((i : ℕ) → 1 ≢ i → content t.host i ≡ content host i)
    × Stands pairs 7 path g (record o { position = position }) t
    × (get_sequential_offset g ≡ get_sequential_offset f + 2 * 128)
unfolding fields get_sequential_offset
write_all_stores_example =
    write_all_stores pairs 7 path two_records f o s (refl, (refl, tt)) stands
      (record { cr_in = omega arith; ex_in = omega arith }) (omega arith) (omega arith)
