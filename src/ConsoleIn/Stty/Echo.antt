-- ===== src/ConsoleIn/Stty/Echo.antt =====
-- consolein/drv_stty.go: the echo of the terminal, and its raw mode, after a read.
use cpmulator.Base.{ℕ, ◌≡◌, ◌≢◌, refl, Bool, true, false, none, some, arith}
use mathlib.Core.Path.{subst⁻¹}
use cpmulator.ConsoleIn.Stty.{
  EchoStatus, Stty, Terminal, quiet, read_raw, stty_block_no_echo, tear_down, disable_echo,
  enable_echo,
}

-- The terminal echoes as the driver has it on record, once that has switched the echo.
abbrev EchoIs : EchoStatus → Bool → Type 0
EchoIs EchoStatus.unknown b = Unit
EchoIs EchoStatus.echo b = b ≡ true
EchoIs EchoStatus.no_echo b = b ≡ false

abbrev pub IsInStep : Stty → Type 0
IsInStep si = EchoIs si.state si.terminal.settings.echoes

-- The terminal goes into raw mode, gives a byte and is restored.
abbrev pub Gives : ℕ → Stty → Type 0
Gives c si =
    (si.terminal.can_raw ≡ true) × (si.terminal.byte ≡ some c) × (si.terminal.can_restore ≡ true)

-- Each part, by what the driver has on record.
in_step :
    (x : EchoStatus) (t : Terminal)
    → let r = stty_block_no_echo (record { state = x; terminal = t }) in
      EchoIs x t.settings.echoes
      → t.can_stty ≡ true
      → (r.0.state ≡ EchoStatus.no_echo)
        × (r.0.terminal.settings.echoes ≡ false)
        × ((tear_down r.0).terminal.settings.echoes ≡ true)
unfolding stty_block_no_echo read_raw quiet disable_echo enable_echo tear_down
in_step EchoStatus.unknown t h k = ground (arith, k)
in_step EchoStatus.echo t h k = ground (arith, k)
in_step EchoStatus.no_echo t h k = ground (arith, h, k)

failing :
    (x : EchoStatus) (t : Terminal)
    → let r = stty_block_no_echo (record { state = x; terminal = t }) in
      x ≢ EchoStatus.no_echo
      → t.can_stty ≡ false
      → (r.0.state ≡ EchoStatus.no_echo)
        × ((c : ℕ)
            → Gives c (record { state = x; terminal = t })
            → r.0.terminal.settings.echoes ≡ t.settings.echoes)
unfolding stty_block_no_echo read_raw quiet disable_echo
failing EchoStatus.unknown t n k = (ground (arith, k), λ c g. ground (arith, k, g))
failing EchoStatus.echo t n k = (ground (arith, k), λ c g. ground (arith, k, g))
failing EchoStatus.no_echo t n k = absurd (n refl)

reading :
    (x : EchoStatus) (t : Terminal)
    → let r = stty_block_no_echo (record { state = x; terminal = t }) in
      ((c : ℕ)
        → Gives c (record { state = x; terminal = t })
        → (r.1 ≡ some c) × (r.0.terminal.settings.raw ≡ t.settings.raw))
      × (t.can_raw ≡ true → t.byte ≡ none → (r.1 ≡ none) × (r.0.terminal.settings.raw ≡ true))
      × (t.can_raw ≡ false → r.1 ≡ none)
unfolding stty_block_no_echo read_raw quiet disable_echo
reading EchoStatus.unknown t =
    (λ c g. ground (arith, g), λ f b. ground (arith, f, b), λ f. ground (arith, f))
reading EchoStatus.echo t =
    (λ c g. ground (arith, g), λ f b. ground (arith, f, b), λ f. ground (arith, f))
reading EchoStatus.no_echo t =
    (λ c g. ground (arith, g), λ f b. ground (arith, f, b), λ f. ground (arith, f))

-- From a driver whose record of the echo is right, where the command `stty` succeeds, a read leaves
-- the echo off and the record right, and the end of the program switches the echo on; where the
-- command fails, a driver that has not the echo on record as off has it so after a read, but
-- a read that is carried out leaves the echo as it was. Where the terminal goes into raw mode, gives
-- a byte and is restored, the read returns the byte, with the raw mode as it was before the read;
-- where the terminal goes into raw mode and gives an error, the read returns an error and leaves the
-- terminal in raw mode; where it does not go into raw mode, the read returns an error.
pub stty_block_no_echo_lem :
    (si : Stty)
    → let r = stty_block_no_echo si in
      (IsInStep si
        → si.terminal.can_stty ≡ true
        → IsInStep r.0
          × (r.0.terminal.settings.echoes ≡ false)
          × ((tear_down r.0).terminal.settings.echoes ≡ true))
      × (si.state ≢ EchoStatus.no_echo
          → si.terminal.can_stty ≡ false
          → (r.0.state ≡ EchoStatus.no_echo)
            × ((c : ℕ) → Gives c si → r.0.terminal.settings.echoes ≡ si.terminal.settings.echoes))
      × ((c : ℕ)
          → Gives c si
          → (r.1 ≡ some c) × (r.0.terminal.settings.raw ≡ si.terminal.settings.raw))
      × (si.terminal.can_raw ≡ true
          → si.terminal.byte ≡ none
          → (r.1 ≡ none) × (r.0.terminal.settings.raw ≡ true))
      × (si.terminal.can_raw ≡ false → r.1 ≡ none)
stty_block_no_echo_lem si = (
  λ h k.
      let (quiet, off, on) = in_step si.state si.terminal h k in
      (
        subst⁻¹ (λ x. EchoIs x (stty_block_no_echo si).0.terminal.settings.echoes) quiet off,
        off,
        on,
      ),
  failing si.state si.terminal,
  (reading si.state si.terminal).0,
  (reading si.state si.terminal).1,
  (reading si.state si.terminal).2,
)
