-- ===== src/ConsoleIn/Tty/Restored.antt =====
-- consolein/drv_term.go: what the tear down of a driver restores.
use cpmulator.Base.{
  ℕ, ◌≡◌, ◌≢◌, refl, ap, Bool, Option, true, false, none, some, List, if◌then◌else◌, ◌==◌,
}
use mathlib.Core.Path.{subst}
use cpmulator.Assoc.{store}
use cpmulator.Host.Records.{find-store_self, find-store_ne}
use cpmulator.ConsoleIn.Stty.{State, make_raw}
use cpmulator.ConsoleIn.Termbox.{Termbox, Event}
use cpmulator.ConsoleIn.Tty.{
  Gui, TermboxInput, Console, Poller, started, term_setup, term_tear_down, cancel_polling, restore,
  check_context, poll_keyboard,
}

-- The terminal has its settings again, and the poller of the driver, wherever it stands, returns, if
-- it waits for an event then after one more; the other pollers are left alone.
pub record Restores (ti : TermboxInput) (w u : Console) : Type 0 where
  pub settings : u.terminal.settings ≡ w.terminal.settings
  pub context : ℕ
  pub cancelled : ti.cancel ≡ some context
  pub returns :
      (ev : Event) (loaded : List ℕ) (keys : TermboxInput)
      → ((poll_keyboard context ev loaded u Poller.checking keys).0 ≡ Poller.returned)
        × ((poll_keyboard context ev loaded u Poller.polling keys).0 ≡ Poller.checking)
  pub others : (j : ℕ) → context ≢ j → check_context j u ≡ check_context j w

started-Restores :
    (gui : Gui) (g : State) (ti : TermboxInput) (w : Console) (keys : Termbox)
    → w.terminal.can_restore ≡ true
    → let (ti', w') = started g ti w in
      Restores ti' w (term_tear_down gui (record ti' { keys = keys }) w')
unfolding term_tear_down cancel_polling restore poll_keyboard check_context
started-Restores gui g ti w keys h =
    let first = store ◌==◌ w.next false w.contexts in
    rw (h, restore)
      (record {
        settings = refl;
        context = w.next;
        cancelled = refl;
        returns =
            λ ev loaded keys. (rw (find-store_self w.next true first, check_context) refl, refl);
        others = λ j n.
            rw
              (
                find-store_ne w.next j true first n,
                find-store_ne w.next j false w.contexts n,
                check_context,
              )
              refl;
      })

-- A setup without a panic has started the driver.
begins :
    (ti : TermboxInput) (w : Console) (p : TermboxInput × Console) (b : Bool) (o : Option State)
    → (if b then (elim o [ none ↦ none | some g ↦ some (started g ti w) ]) else none) ≡ some p
    → (g : State) × (started g ti w ≡ p)
begins ti w p true none e = absurd cc
begins ti w p true (some g) e = (g, ap (λ o. elim o [ none ↦ p | some x ↦ x ]) e)
begins ti w p false o e = absurd cc

-- A driver sets the terminal up without a panic, and is torn down later, with whatever keys in its
-- buffer, where the terminal can be restored: the terminal then has the settings that it had before,
-- whatever termbox did to it; the poller of the driver returns at the next test of its context,
-- which comes after one more event where it waits for one; and no other poller is cancelled.
pub term_tear_down-Restores :
    (gui : Gui) (ti ti' : TermboxInput) (w w' : Console) (keys : Termbox)
    → term_setup gui ti w ≡ some (ti', w')
    → w.terminal.can_restore ≡ true
    → Restores ti' w (term_tear_down gui (record ti' { keys = keys }) w')
unfolding term_setup
term_tear_down-Restores gui ti ti' w w' keys e h =
    let (g, same) =
      begins ti w (ti', w') w.terminal.can_raw (gui.init (make_raw w.terminal).settings) e in
    subst (λ p. Restores p.0 w (term_tear_down gui (record (p.0) { keys = keys }) p.1)) same
      (started-Restores gui g ti w keys h)
