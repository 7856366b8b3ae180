-- ===== src/ConsoleIn/Stty.antt =====
-- consolein/drv_stty.go: reads that switch the echo of the terminal off, and back on at the end.
pub mod Echo
use cpmulator.Base.{ℕ, Bool, true, false, Option, none, some, if◌then◌else◌, ◌&&◌, not}

-- `EchoStatus`
pub data EchoStatus : Type 0 where
  unknown echo no_echo : EchoStatus

-- The settings of the terminal, which `term.MakeRaw` returns as they were.
pub record State : Type 0 where
  pub echoes : Bool
  pub raw : Bool

-- The terminal: its settings, and the answers that it will give to the next calls of `MakeRaw`, `Read`
-- (`none` is an error) and `Restore`, to `canSelect`, and to the next command `stty`.
pub record Terminal : Type 0 where
  pub settings : State
  pub can_raw : Bool
  pub byte : Option ℕ
  pub can_restore : Bool
  pub ready : Bool
  pub can_stty : Bool

abbrev pub set_settings : State → Terminal → Terminal
set_settings x t = record t { settings = x }

-- `MakeRaw` where it succeeds: it also switches the echo off.
abbrev pub make_raw : Terminal → Terminal
make_raw t = set_settings (record { echoes = false; raw = true }) t

-- The command `stty`, whose error is not looked at.
abbrev pub run_stty : Bool → Terminal → Terminal
run_stty on t = if t.can_stty then set_settings (record (t.settings) { echoes = on }) t else t

-- `STTYInput`, with the terminal.
pub record Stty : Type 0 where
  pub state : EchoStatus
  pub terminal : Terminal

unfoldable pub disable_echo : Stty → Stty
disable_echo si = record { state = EchoStatus.no_echo; terminal = run_stty false si.terminal }

unfoldable pub enable_echo : Stty → Stty
enable_echo si = record { state = EchoStatus.echo; terminal = run_stty true si.terminal }

-- `TearDown`
unfoldable pub tear_down : Stty → Stty
unfolding enable_echo
tear_down si = elim (si.state) [
  | EchoStatus.echo ↦ si
  | EchoStatus.unknown ↦ enable_echo si
  | EchoStatus.no_echo ↦ enable_echo si
]

-- "Do we need to change state?  If so then do it."
unfoldable pub quiet : Stty → Stty
unfolding disable_echo
quiet si = elim (si.state) [
  | EchoStatus.no_echo ↦ si
  | EchoStatus.unknown ↦ disable_echo si
  | EchoStatus.echo ↦ disable_echo si
]

-- `PendingInput`, with whether input is pending.
unfoldable pub stty_pending_input : Stty → Stty × Bool
stty_pending_input si =
    if si.terminal.can_raw
    then (if si.terminal.can_restore
        then (
          record si { terminal = set_settings si.terminal.settings (make_raw si.terminal) },
          si.terminal.ready,
        )
        else (record si { terminal = make_raw si.terminal }, false))
    else (si, false)

-- The read, in raw mode, and the end of the call, with the settings that were saved before: an error
-- of the read is returned at once.
unfoldable pub read_raw : State → Stty → Stty × Option ℕ
read_raw old si = elim (si.terminal.byte) [
  | none ↦ (si, none)
  | some c ↦
      if si.terminal.can_restore
      then (record si { terminal = set_settings old si.terminal }, some c)
      else (si, none)
]

-- `BlockForCharacterNoEcho`; `none` is an error.
unfoldable pub stty_block_no_echo : Stty → Stty × Option ℕ
unfolding quiet read_raw
stty_block_no_echo si =
    let q = quiet si in
    if q.terminal.can_raw
    then read_raw q.terminal.settings (record q { terminal = make_raw q.terminal })
    else (q, none)
