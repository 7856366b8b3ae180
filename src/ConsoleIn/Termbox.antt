-- ===== src/ConsoleIn/Termbox.antt =====
-- consolein/drv_term.go: the buffer between the goroutine that polls the keyboard and the reader, who
-- share it without a lock. Each side loads the buffer, and stores it changed later, and the other
-- may have stored another one in between.
use cpmulator.Base.{
  ℕ, Bool, Option, none, some, List, [], ◌∷◌, ◌++◌, if◌then◌else◌, length, ltb, ◌==◌, u8,
}

-- `TermboxInput`, of which only the buffer matters: a list of runes.
pub record Termbox : Type 0 where
  pub key_buffer : List ℕ

-- What `termbox.PollEvent` gives: a key, with a rune or with the code of a key, or any other event.
pub data Event : Type 0 where
  key : ℕ → ℕ → Event
  other : Event

-- What the loop of `pollKeyboard` does with an event: the buffer that it has loaded is stored with the
-- key behind it.
unfoldable pub poll_event : Event → List ℕ → Termbox → Termbox
poll_event (Event.key ch code) loaded t = record t {
  key_buffer = loaded ++ (if ch == 0 then code else ch) ∷ [];
}
poll_event Event.other loaded t = t

unfoldable pub term_pending_input : Termbox → Bool
term_pending_input t = ltb 0 (length t.key_buffer)

-- `BlockForCharacterNoEcho`, from the buffer that it has loaded, of which all but the first is stored;
-- `none` is that it sleeps, and tests again later.
unfoldable pub take_key : List ℕ → Termbox → Option (ℕ × Termbox)
take_key [] t = none
take_key (c ∷ rest) t = some (u8 c, record t { key_buffer = rest })
