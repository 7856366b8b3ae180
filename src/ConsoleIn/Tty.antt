-- ===== src/ConsoleIn/Tty.antt =====
-- consolein/consolein.go and its drivers: the terminal, from the setup of a driver to the end of the
-- emulator, and the change to another driver by cpm/cpm_bios.go. What termbox does to the terminal
-- is a parameter.
pub mod Restored
use cpmulator.Base.{ℕ, ◌+◌, Bool, true, false, Option, none, some, List, [], if◌then◌else◌, ◌==◌}
use cpmulator.Assoc.{lookup, store}
use cpmulator.ConsoleIn.Termbox.{Termbox, Event, poll_event}
use cpmulator.ConsoleIn.Stty
use cpmulator.ConsoleIn.Stty.{Terminal, State, EchoStatus, set_settings, make_raw}

-- `termbox.Init`, where `none` is an error, and `termbox.Close`.
pub record Gui : Type 0 where
  pub init : State → Option State
  pub close : State → State

-- `TermboxInput`; a context is known by its number.
pub record TermboxInput : Type 0 where
  pub old_state : Option State
  pub cancel : Option ℕ
  pub keys : Termbox

-- The terminal, and the contexts of the pollers with whether they are done.
pub record Console : Type 0 where
  pub terminal : Terminal
  pub contexts : List (ℕ × Bool)
  pub next : ℕ

pub data InputDriver : Type 0 where
  term : TermboxInput → InputDriver
  stty : EchoStatus → InputDriver

-- `new(TermboxInput)` and `new(STTYInput)`
abbrev pub new_term : TermboxInput
new_term = record { old_state = none; cancel = none; keys = record { key_buffer = [] } }

abbrev pub new_stty : EchoStatus
new_stty = EchoStatus.unknown

-- What `Setup` does after the terminal is in raw mode, given the settings that termbox makes.
abbrev pub started : State → TermboxInput → Console → TermboxInput × Console
started gui_state ti w = (
  record ti { old_state = some w.terminal.settings; cancel = some w.next },
  record w {
    terminal = set_settings gui_state w.terminal;
    contexts = store ◌==◌ w.next false w.contexts;
    next = w.next + 1;
  },
)

-- `Setup` of drv_term.go; `none` is a panic.
unfoldable pub term_setup : Gui → TermboxInput → Console → Option (TermboxInput × Console)
term_setup gui ti w =
    if w.terminal.can_raw
    then (elim (gui.init (make_raw w.terminal).settings) [
      | none ↦ none
      | some g ↦ some (started g ti w)
    ])
    else none

-- Where the goroutine `pollKeyboard` is: before the test of its context, in `PollEvent`, which waits, or
-- at its end.
pub data Poller : Type 0 where
  checking polling returned : Poller

-- "Are we done?"
unfoldable pub check_context : ℕ → Console → Poller
check_context context w = elim (lookup ◌==◌ context w.contexts) [
  | some true ↦ Poller.returned
  | some false ↦ Poller.polling
  | none ↦ Poller.polling
]

-- A step of `pollKeyboard`, in a context: its test, or an event that comes while it waits, with the
-- buffer that it has loaded. A context that is done meanwhile is noticed after the event only.
unfoldable pub poll_keyboard :
    ℕ → Event → List ℕ → Console → Poller → TermboxInput → Poller × TermboxInput
unfolding check_context poll_event
poll_keyboard context ev loaded w Poller.checking ti = (check_context context w, ti)
poll_keyboard context ev loaded w Poller.polling ti =
    (Poller.checking, record ti { keys = poll_event ev loaded ti.keys })
poll_keyboard context ev loaded w Poller.returned ti = (Poller.returned, ti)

-- "Cancel the keyboard reading"
unfoldable pub cancel_polling : TermboxInput → Console → Console
cancel_polling ti w = elim ti.cancel [
  | none ↦ w
  | some c ↦ record w { contexts = store ◌==◌ c true w.contexts }
]

-- "Restore the terminal": an error is only printed.
unfoldable pub restore : TermboxInput → Console → Console
restore ti w = elim ti.old_state [
  | none ↦ w
  | some old ↦
      if w.terminal.can_restore then record w { terminal = set_settings old w.terminal } else w
]

-- "Terminate the GUI."
abbrev pub close_gui : Gui → Console → Console
close_gui gui w = record w { terminal = set_settings (gui.close w.terminal.settings) w.terminal }

-- `TearDown` of drv_term.go.
unfoldable pub term_tear_down : Gui → TermboxInput → Console → Console
unfolding cancel_polling restore
term_tear_down gui ti w = restore ti (close_gui gui (cancel_polling ti w))

-- The driver's state, with the terminal.
abbrev pub with_terminal : EchoStatus → Console → Stty.Stty
with_terminal st w = record { state = st; terminal = w.terminal }

-- `Setup` of `ConsoleIn`; that of drv_stty.go does nothing.
unfoldable pub setup : Gui → InputDriver → Console → Option (InputDriver × Console)
unfolding term_setup
setup gui (InputDriver.term ti) w = elim (term_setup gui ti w) [
  | none ↦ none
  | some (ti', w') ↦ some (InputDriver.term ti', w')
]
setup gui (InputDriver.stty st) w = some (InputDriver.stty st, w)

-- `TearDown` of `ConsoleIn`.
unfoldable pub tear_down : Gui → InputDriver → Console → Console
unfolding term_tear_down Stty.tear_down
tear_down gui (InputDriver.term ti) w = term_tear_down gui ti w
tear_down gui (InputDriver.stty st) w = record w {
  terminal = (Stty.tear_down (with_terminal st w)).terminal;
}

-- The change of the driver by a program, `BiosSysCallReserved1`.
unfoldable pub change_driver :
    Gui → InputDriver → InputDriver → Console → Option (InputDriver × Console)
unfolding setup tear_down
change_driver gui new old w = setup gui new (tear_down gui old w)

-- `IOSetup` and `IOTearDown` of the emulator.
unfoldable pub io_setup : Gui → InputDriver → Console → Option (InputDriver × Console)
unfolding setup
io_setup gui d w = setup gui d w

unfoldable pub io_tear_down : Gui → InputDriver → Console → Console
unfolding tear_down
io_tear_down gui d w = tear_down gui d w
