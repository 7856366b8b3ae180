-- ===== src/Lib.antt =====
-- cpmulator, an emulator of CP/M: its RAM, file control blocks, console, and system calls.
--
-- A program for CP/M runs on an emulated Z80. When it makes a system call, the emulator runs a
-- handler, which reads the registers and the RAM, works on the console and on files of the host,
-- and writes registers and RAM back. The parts, and the modules that model them:
--   Base            numbers, lists and texts that the modules share. A `uint8` or a `uint16` is a
--                   natural number with its wrap written out, `u8` and `u16`.
--   Assoc           maps as association lists.
--   Text, FilePath  what the program uses of Go's `strings`, `unicode` and `path/filepath`. A text
--                   is the list of its bytes. Letters change case as in ASCII; a text is taken to
--                   be valid UTF-8.
--   Memory          memory/memory.go. `set`, `get`, `fill_range`, `get_range`, `get_u16`,
--                   `set_range` and `load_file` are the methods of the same names; a slice out of
--                   range, a panic, is `none`.
--   Fcb             fcb/fcb.go. The record `Fcb` and each function by its name: `from_string`,
--                   `from_bytes`, `as_bytes`, `does_match`, `get_matches` and the others.
--   ConsoleOut      consoleout/consoleout.go and the four drivers of consoleout/; of these
--                   ConsoleOut.Adm3a is drv_adm3a.go. A writer is the text written to it.
--   ConsoleIn       consolein/consolein.go; ConsoleIn.Line is its `ReadLine`. A driver is the list
--                   of the keys that it will deliver, with errors among them, after which it waits.
--                   ConsoleIn.Drivers is the registry; ConsoleIn.Termbox is the buffer of
--                   drv_term.go, which a goroutine fills without a lock, and ConsoleIn.Stty is drv_stty.go
--                   with the terminal that it switches. ConsoleIn.Tty is the setup and the tear down
--                   of the drivers, `Setup` and `TearDown`, and the change from one to another.
--   Ccp             ccp/ccp.go: the command processors by name.
--   Host            the files of the host, as the program uses them through Go's `os`: paths,
--                   contents, open handles, and which calls fail.
--   Cpm             the state `CPM` of cpm/cpm.go, and how a handler ends: it returns, with or
--                   without an error, or panics, or never returns.
--   Env             what the emulator takes from outside of its source.
--   Printer         cpm/prnc.go, and the calls of BDOS and BIOS that print.
--   Bdos            cpm/cpm_bdos.go. Bdos.Console has the calls for the console and the small ones,
--                   Bdos.Block what the calls for files share, Bdos.Files open, close, make, and
--                   the sequential records, which Bdos.Stream and Bdos.Writes call in a row, from
--                   the make of a file to its reads in Bdos.Session, Bdos.Random the
--                   random ones and sizes, Bdos.Directory searches, delete and rename, Bdos.Drives
--                   the drive and the user number, Bdos.Strings what the calls for strings do. A
--                   handler `BdosSysCallReadString` is `read_string`.
--   Bios            cpm/cpm_bios.go: `BiosHandler` and the calls for boot, console and devices;
--                   Bios.Reserved is `BiosSysCallReserved1`, by which a program reads and changes
--                   the settings of the emulator.
--   Emulator        cpm/cpm.go: Emulator.Table the tables of calls that `New` makes, with `In`,
--                   `Out` and `LogNoisy`, Emulator.Options the rest of `New`, its options, and the
--                   settings of drives, Emulator.Patch `fixupRAM`, Emulator.Load `LoadBinary` and
--                   `LoadCCP`, Emulator.Start what `Execute` does before its loop, and
--                   Emulator.Loop the loop, in which a `Round` is a turn. Emulator.Sound is what
--                   every call and every round keeps of the files that are open, and
--                   Emulator.Returns which calls end without a panic.
--   Main            main.go: the options from the flags, the drives and their directories, the run
--                   of a program, and the loop that loads the command processor anew;
--                   Main.Listing is what `main` lists for the flags that ask for a list.
--   Tests           the theorems at concrete inputs.
--
-- Loops. `ReadLine` runs on fuel: each line takes a key at least, so one more than the number of
-- keys to come bounds both the rounds of a line and the lines; the outcome `spent` stands for fuel
-- used up. The loop of `BdosSysCallWriteString` has the fuel 65536, the number of addresses: where
-- no address holds a dollar sign the loop of the source does not end, and the model says `hang`.
-- A string in RAM is read on the same fuel, for the same reason. The loops of `Execute` and of `main`
-- over the command processor need not end: they run on fuel, `none` is that it was too little, and a
-- relation on the rounds says what they reach with enough.
-- All other loops are structural recursion, the padding of a random write on the number of its bytes.
--
-- Parameters. The register pairs of the processor (github.com/koron-go/z80) are the record `Pairs`,
-- how it sets and resets its zero flag are the arguments `set_z` and `reset_z`, and its run to a break
-- point is the argument `run` of the loop of `Execute`; a run halts, stops at a break point or fails,
-- or a handler that it calls panics or never returns, or it goes on for ever. What a command for the
-- host prints in `ReadLine` is an argument `perform`. The order in which Go's `sort.Slice` leaves
-- files of one name is not fixed, so the sort of a search is an argument. The time since the start,
-- the version, the size of the terminal, the drivers for input and the bytes of the command
-- processors, which a build makes, are fields of `Env`; the embedded files are an argument of `main`.
-- What termbox (github.com/nsf/termbox-go) does to the settings of the terminal is the record `Gui`.
--
-- Not modelled: logging, and messages to the user; the parsing of the flags of main.go and its
-- change of directory; functions that only return a field;
-- opening a directory of the host as a file; whether the directory of a new name is there; static/. Arguments and prefixes that are stored in RAM
-- are taken to have no character of more than two bytes.
pub mod Base
pub mod Assoc
pub mod Text
pub mod FilePath
pub mod Memory
pub mod Fcb
pub mod Host
pub mod ConsoleOut
pub mod ConsoleIn
pub mod Ccp
pub mod Cpm
pub mod Env
pub mod Printer
pub mod Bdos
pub mod Bios
pub mod Emulator
pub mod Main
pub mod Tests
