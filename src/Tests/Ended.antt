-- ===== src/Tests/Ended.antt =====
-- cpm/cpm.go and main.go at a concrete state: programs run, and end.
use cpmulator.Base.{
  ◌∷◌, ◌++◌, In, ℕ, suc, ◌+◌, ◌≡◌, inl, inr, refl, arith, true, some, List, [], Text, codes,
  if◌then◌else◌, ◌==◌,
}
use cpmulator.Cpm.{Cpm, done, drive_path}
use cpmulator.Emulator.Table.{bdos_calls, bios_calls}
use cpmulator.Emulator.Options.{letters}
use cpmulator.Emulator.Load.{load_binary, load_ccp}
use cpmulator.Emulator.Start.{start_up, command_line, fresh_start, poke_line}
use cpmulator.Emulator.Loop.{Run, Stop}
use cpmulator.Main.{Flags, set_up_drives, run_program, run_ccp}
use mathlib.Core.List.Permᴰ
use cpmulator.Host
use cpmulator.Host.{Stat}
use cpmulator.Main.Directories.{
  Works, create_directories, count_drives, count_drives-create_directories,
}
use cpmulator.Main.Listing.{list_syscalls}
use cpmulator.Main.Listing.InOrder.{table_lines, numbers, list_syscalls_lem}
use cpmulator.Main.DrivePaths.{or_default, default_path, drive_path-set_up_drives}
use cpmulator.Main.Reboot.{Follows, Terminates, terminated_lem}
use cpmulator.Tests.Disk.{s}
use cpmulator.Tests.Emulated.{env}

-- A program whose first act is to end itself by a call of the BDOS.
abbrev stopped_at : Cpm → Cpm
stopped_at x = record x { cpu = record (x.cpu) { pc = 5; bc = record { hi = 0; lo = 0 } } }

abbrev run : List ℕ → Cpm → Run
run ps x = Run.stopped Stop.at_break_point (stopped_at x)

-- Directories, and a path of its own for B:.
abbrev flags : Flags
flags = record {
  ccp = codes "ccp";
  create_directories = true;
  embed_bin = true;
  exec_prefix = [];
  input = codes "term";
  output = codes "ansi";
  prn_path = codes "print.log";
  use_directories = true;
  drive = λ c. if c == 66 then codes "/tmp" else [];
}

drive_path-set_up_drives_example :
    drive_path (set_up_drives [] letters flags s) 66
    ≡ or_default (flags.drive 66) (default_path flags.use_directories 66)
drive_path-set_up_drives_example =
    drive_path-set_up_drives [] letters flags s 66 (inr (inl refl)) (inr (inl refl))

-- The state in which the loop starts.
abbrev begun : Cpm
begun = poke_line (command_line []) (fresh_start s)

started : start_up [] s ≡ done begun
unfolding start_up
started = refl

terminates : Terminates run begun (stopped_at begun)
unfolding poke_line fresh_start command_line
terminates = (refl, refl, λ e. omega arith, refl)

terminated_lem_example :
    (fuel : ℕ) × ((more : ℕ) (x : Cpm)
      → ((program : Text)
          → load_binary program x ≡ done s
          → run_program env run (fuel + more) program [] x ≡ some (done (stopped_at begun)))
        × ((runs : ℕ)
            → load_ccp env x ≡ done s
            → run_ccp env run (suc runs) (fuel + more) [] x
              ≡ run_ccp env run runs (fuel + more) [] (stopped_at begun)))
terminated_lem_example =
    terminated_lem env run [] s begun begun (stopped_at begun) started Follows.here terminates

works : Works s.host
works p = (refl, refl)

count_drives-create_directories_example :
    let ds = codes "A" ∷ codes "B" ∷ [] in
    (count_drives ds (create_directories ds s.host) ≡ 2)
    × ((d : Text) → In d ds → Host.stat d (create_directories ds s.host) ≡ Stat.there)
    × ((p : Text)
        → Host.stat p s.host ≡ Stat.there
        → Host.stat p (create_directories ds s.host) ≡ Stat.there)
count_drives-create_directories_example =
    count_drives-create_directories (codes "A" ∷ codes "B" ∷ []) s.host works

list_syscalls_lem_example :
    list_syscalls env (numbers (bdos_calls env)) (numbers (bios_calls env))
    ≡ (codes "BDOS syscalls:" ++ 10 ∷ table_lines (bdos_calls env))
      ++ codes "BIOS syscalls:"
      ++ 10 ∷ table_lines (bios_calls env)
list_syscalls_lem_example =
    list_syscalls_lem env (numbers (bdos_calls env)) (numbers (bios_calls env)) (Permᴰ.refl _)
      (Permᴰ.refl _)
