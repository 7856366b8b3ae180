-- ===== src/Emulator/Sound/Bios.antt =====
-- cpm/cpm_bios.go and cpm/prnc.go: the calls of the BIOS, and the printer, keep the invariant.
use cpmulator.Base.{ℕ, Bool-cases, inl, inr, [], ◌∷◌, Text, ◌==◌}
use mathlib.Core.Path.{subst}
use cpmulator.ConsoleIn
use cpmulator.ConsoleIn.{Read}
use cpmulator.ConsoleIn.Drivers
use cpmulator.ConsoleOut
use cpmulator.Ccp
use cpmulator.Host
use cpmulator.Host.{Host}
use cpmulator.Host.Handles.{Extends-trans, append-Extends}
use cpmulator.Host.Fresh.{create_file-Fresh, close-closed, closed-Extends}
use cpmulator.Cpm.{Cpm, Result, Error, done, fails, set_a, set_hl}
use cpmulator.Env.{Env}
use cpmulator.Printer.{prn_c, printer_path}
use cpmulator.Bios.{bios_console_status, bios_console_input, with_zero_flag}
use cpmulator.Bios.Reserved.{
  reserved1, tell_version, interrupts, output_driver, command_processor, terminal_size, debug_flag,
  input_driver, host_prefix, get_string_from_memory, tell, tell_or, add_returns, get_version_banner,
}
use cpmulator.Emulator.Sound.{
  IsSound, EndsSound, Keeps, if-EndsSound, option-EndsSound, opened-EndsSound,
}
use cpmulator.Emulator.Sound.Files.{moved}

pub prn_c-EndsSound : (char : ℕ) (s : Cpm) → IsSound s → EndsSound (prn_c char s)
unfolding prn_c
prn_c-EndsSound char s v =
    let p : Text = printer_path s in
    opened-EndsSound s.host p (Host.create_file p s.host) _ _ _ (create_file-Fresh p s.host)
      (λ fd h w. option-EndsSound (Host.append fd (char ∷ []) h) _ _ (moved s h v w.extends) (λ g a.
        let wrote = Extends-trans s.host h g w.extends (append-Extends fd h (char ∷ []) g a) in
        let shut = moved s (Host.closed fd g) v (closed-Extends s.host g fd wrote w.late) in
        option-EndsSound (Host.close fd g) _ _ shut
          (λ k c. subst (λ x. IsSound (record s { host = x })) (close-closed fd g k c) shut)))
      v v

pub bios_console_status-Keeps : Keeps bios_console_status
unfolding bios_console_status
bios_console_status-Keeps s v = if-EndsSound (ConsoleIn.pending_input s.input) _ _ v v

pub bios_console_input-Keeps : Keeps bios_console_input
unfolding bios_console_input
bios_console_input-Keeps s v = after_read (ConsoleIn.block_no_echo s.input)
  where
    after_read :
        (r : Read)
        → EndsSound (elim r [
          | Read.key c co ↦ done (set_a c (record s { input = co }))
          | Read.error co ↦ fails Error.other (set_a 0 (record s { input = co }))
          | Read.wait ↦ Result.hang
        ])
    after_read (Read.key c co) = v
    after_read (Read.error co) = v
    after_read Read.wait = tt

tell-EndsSound : (str : Text) (s : Cpm) → IsSound s → EndsSound (tell str s)
unfolding tell
tell-EndsSound str s v = v

module _ (env : Env) where
  -- A setting that is told, or changed by a string.
  changed :
      (s : Cpm) (str : Text) (change : Text → Result)
      → IsSound s
      → ((t : Text) → EndsSound (change t))
      → EndsSound (tell_or env str change s)
  changed s str change v w =
      if-EndsSound (env.pairs.to_u16 s.cpu.de == 0) (tell str s) _ (tell-EndsSound str s v) (
        option-EndsSound (get_string_from_memory s.memory (env.pairs.to_u16 s.cpu.de)) Result.hang
          change tt (λ t e. w t))

  tell_version-Keeps : Keeps (tell_version env)
  unfolding tell_version
  tell_version-Keeps s v =
      tell-EndsSound (add_returns (get_version_banner env.version))
        (set_a b'X' (set_hl b'S' b'K' s)) v

  interrupts-Keeps : Keeps (interrupts env)
  unfolding interrupts
  interrupts-Keeps s v = if-EndsSound (s.cpu.bc.lo == 0xff) _ _ v v

  output_driver-Keeps : Keeps (output_driver env)
  unfolding output_driver
  output_driver-Keeps s v =
      changed s (ConsoleOut.get_name s.output) _ v
        (λ str. option-EndsSound (ConsoleOut.new ConsoleOut.handlers str) _ _ v (λ d e. v))

  command_processor-Keeps : Keeps (command_processor env)
  unfolding command_processor
  command_processor-Keeps s v =
      changed s s.ccp _ v (λ str. option-EndsSound (Ccp.get env.dr env.ccpz str) _ _ v (λ d e. v))

  terminal_size-Keeps : Keeps (terminal_size env)
  unfolding terminal_size
  terminal_size-Keeps s v = if-EndsSound env.no_size _ _ v v

  debug_flag-Keeps : Keeps (debug_flag env)
  unfolding debug_flag
  debug_flag-Keeps s v =
      if-EndsSound (s.cpu.bc.lo == 0) _ _ v
        (if-EndsSound (s.cpu.bc.lo == 1) _ _ v (if-EndsSound (s.cpu.bc.lo == 0xff) _ _ v v))

  input_driver-Keeps : Keeps (input_driver env)
  unfolding input_driver
  input_driver-Keeps s v =
      changed s (ConsoleIn.get_name s.input) _ v
        (λ str. option-EndsSound (Drivers.new env.drivers str s.input) _ _ v (λ d e. v))

  host_prefix-Keeps : Keeps (host_prefix env)
  unfolding host_prefix
  host_prefix-Keeps s v = changed s (ConsoleIn.get_system_command_prefix s.input) _ v (λ str. v)

  pub reserved1-Keeps : Keeps (reserved1 env)
  unfolding reserved1
  reserved1-Keeps s v =
      let hl : ℕ = env.pairs.to_u16 s.cpu.hl in
      if-EndsSound (hl == 0) _ _ (tell_version-Keeps s v) (
        if-EndsSound (hl == 1) _ _ (interrupts-Keeps s v) (
          if-EndsSound (hl == 2) _ _ (output_driver-Keeps s v) (
            if-EndsSound (hl == 3) _ _ (command_processor-Keeps s v) (
              if-EndsSound (hl == 4) _ _ v (
                if-EndsSound (hl == 5) _ _ (terminal_size-Keeps s v) (
                  if-EndsSound (hl == 6) _ _ (debug_flag-Keeps s v) (
                    if-EndsSound (hl == 7) _ _ (input_driver-Keeps s v)
                      (if-EndsSound (hl == 8) _ _ (host_prefix-Keeps s v) v))))))))

pub with_zero_flag-IsSound :
    (set_z reset_z : ℕ → ℕ) (s : Cpm) → IsSound s → IsSound (with_zero_flag set_z reset_z s)
with_zero_flag-IsSound set_z reset_z s v = elim (Bool-cases (s.cpu.af.hi == 0)) [
  | inl e ↦ rw e v
  | inr e ↦ rw e v
]
