-- ===== src/Main.antt =====
-- main.go: the settings from the command line, and the run of a program or of the command processor.
-- The flags are given as they are parsed; messages to the user, the log and the change of the
-- directory are left out.
pub mod Sorted
pub mod Listing
pub mod DrivePaths
pub mod Directories
pub mod Reboot
use cpmulator.Base.{
  ℕ, zero, suc, Bool, true, false, Option, none, some, List, [], ◌∷◌, Text, if◌then◌else◌, map,
}
use cpmulator.Main.Directories
use cpmulator.Cpm.{Cpm, Error, Result, done}
use cpmulator.ConsoleIn.{ConsoleIn}
use cpmulator.Host.{Host}
use cpmulator.Env.{Env}
use cpmulator.Emulator.Options.{
  CpmOption, with_printer_path, with_output_driver, with_input_driver, with_host_exec, with_ccp,
  new_cpm, letters, set_drives, set_drive_path, set_static_filesystem, run_auto_exec,
}
use cpmulator.Emulator.Load.{load_binary, load_ccp}
use cpmulator.Emulator.Loop.{Run, execute}

-- The flags; `drive` gives the path for the letter of a drive, empty where there is none.
pub record Flags : Type 0 where
  pub ccp : Text
  pub create_directories : Bool
  pub embed_bin : Bool
  pub exec_prefix : Text
  pub input : Text
  pub output : Text
  pub prn_path : Text
  pub use_directories : Bool
  pub drive : ℕ → Text

unfoldable pub options_of : Env → Flags → List CpmOption
unfolding with_printer_path with_output_driver with_input_driver with_host_exec with_ccp
options_of env f =
    with_printer_path f.prn_path
    ∷ with_output_driver f.output
    ∷ with_input_driver env f.input
    ∷ with_host_exec f.exec_prefix
    ∷ with_ccp f.ccp
    ∷ []

-- "Do we have custom paths?": the loop over the drives, in any order.
unfoldable pub set_paths : List ℕ → (ℕ → Text) → Cpm → Cpm
unfolding set_drive_path
set_paths [] drive s = s
set_paths (d ∷ ds) drive s = elim (drive d) [
  | [] ↦ set_paths ds drive s
  | c ∷ path ↦ set_paths ds drive (set_drive_path (d ∷ []) (c ∷ path) s)
]

-- The directories of the drives, where they are asked for.
unfoldable pub make_drives : Flags → Cpm → Cpm
unfolding Directories.create_directories
make_drives f s =
    if f.create_directories
    then record s { host = Directories.create_directories (map (λ c. c ∷ []) letters) s.host }
    else s

-- The file systems, in the order in which Go's map of the drives is gone through.
unfoldable pub set_up_drives : List (Text × Text) → List ℕ → Flags → Cpm → Cpm
unfolding set_drives set_static_filesystem set_paths
set_up_drives content order f s =
    let s1 = set_static_filesystem (if f.embed_bin then content else []) s in
    let s2 = set_drives false s1 in
    let s3 = if f.use_directories then set_drives true s2 else s2 in set_paths order f.drive s3

module _ (env : Env) (run : List ℕ → Cpm → Run) where
  -- "Load the binary, if we were given one": `main` returns however it ends.
  unfoldable pub run_program : ℕ → Text → List Text → Cpm → Option Result
  unfolding load_binary execute
  run_program fuel program args s = elim (load_binary program s) [
    | Result.returns (some e) t ↦ some (done t)
    | Result.returns none t ↦ elim (execute env run fuel args t) [
      | none ↦ none
      | some (Result.returns e u) ↦ some (done u)
      | some Result.panic ↦ some Result.panic
      | some Result.hang ↦ some Result.hang
    ]
    | Result.panic ↦ some Result.panic
    | Result.hang ↦ some Result.hang
  ]

  -- After a run of the command processor: it is loaded once more, or `main` returns.
  unfoldable pub after_ccp : (Cpm → Option Result) → Result → Option Result
  after_ccp reload (Result.returns none s) = reload s
  after_ccp reload (Result.returns (some Error.boot) s) = reload s
  after_ccp reload (Result.returns (some Error.exit) s) = some (done s)
  after_ccp reload (Result.returns (some Error.halt) s) = some (done s)
  after_ccp reload (Result.returns (some Error.unimplemented) s) = some (done s)
  after_ccp reload (Result.returns (some Error.other) s) = some (done s)
  after_ccp reload Result.panic = some Result.panic
  after_ccp reload Result.hang = some Result.hang

  -- "We load and re-run eternally": at most so many runs, each of so many rounds.
  unfoldable pub run_ccp : ℕ → ℕ → List Text → Cpm → Option Result
  unfolding load_ccp execute after_ccp
  run_ccp zero fuel args s = none
  run_ccp (suc runs) fuel args s = elim (load_ccp env s) [
    | Result.returns (some e) t ↦ some (done t)
    | Result.returns none t ↦ elim (execute env run fuel args t) [
      | none ↦ none
      | some r ↦ after_ccp (run_ccp runs fuel args) r
    ]
    | Result.panic ↦ some Result.panic
    | Result.hang ↦ some Result.hang
  ]

  -- `main` from the creation of the emulator on; an empty name is no program. `none` inside is the
  -- error of `New`.
  unfoldable pub run_main :
      ℕ
      → ℕ
      → List (Text × Text)
      → List ℕ
      → Flags
      → Text
      → List Text
      → ConsoleIn
      → Option ℕ
      → Option ℕ
      → Host
      → Option (Option Result)
  unfolding new_cpm options_of make_drives set_up_drives run_program run_ccp run_auto_exec
  run_main runs fuel content order f program args input bios bdos host =
      elim (new_cpm env input bios bdos host (options_of env f)) [
        | none ↦ none
        | some s ↦
            let t = set_up_drives content order f (make_drives f s) in
            elim program [
              | [] ↦ some (run_ccp runs fuel args (run_auto_exec t))
              | c ∷ name ↦ some (run_program fuel (c ∷ name) args t)
            ]
      ]
