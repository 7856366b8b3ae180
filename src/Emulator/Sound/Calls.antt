-- ===== src/Emulator/Sound/Calls.antt =====
-- cpm/cpm.go, `New`: every call of the tables of BDOS and BIOS keeps the invariant.
use cpmulator.Base.{ℕ, Bool-cases, inl, inr, none, some, [], ◌∷◌, ◌++◌, All, All-append, ◌==◌}
use cpmulator.Cpm.{Cpm, Result}
use cpmulator.Env.{Env}
use cpmulator.Printer.{printer_write, print_char}
use cpmulator.Bdos.Console
use cpmulator.Bios.{bios_handler, after_handler, record_error}
use cpmulator.Bios
use cpmulator.Emulator.Table.{
  CpmHandler, Calls, call_of, bdos_calls, bios_calls, console_calls, file_calls, drive_calls,
  late_calls, out,
}
use cpmulator.Emulator.Sound.{IsSound, EndsSound, Keeps, if-EndsSound}
use cpmulator.Emulator.Sound.Console.{
  read_char-Keeps, aux_read-Keeps, raw_io-Keeps, console_status-Keeps, write_string-Keeps,
  read_string-Keeps, drive_all_reset-Keeps, drive_set-Keeps, user_number-Keeps,
}
use cpmulator.Emulator.Sound.Files.{file_open-Keeps, make_file-Keeps, file_close-Keeps}
use cpmulator.Emulator.Sound.Records.{read-Keeps, write-Keeps}
use cpmulator.Emulator.Sound.Random.{
  read_rand-Keeps, write_rand-Keeps, file_size-Keeps, rand_record-Keeps,
}
use cpmulator.Emulator.Sound.Directory.{
  find_first-Keeps, find_next-Keeps, delete_file-Keeps, rename_file-Keeps,
}
use cpmulator.Emulator.Sound.Bios.{
  prn_c-EndsSound, bios_console_status-Keeps, bios_console_input-Keeps, reserved1-Keeps,
  with_zero_flag-IsSound,
}

abbrev AllKeep : Calls → Type 0
AllKeep calls = All (λ c. Keeps c.1.call) calls

-- The handler that a table gives for a number keeps the invariant, if all of the table do.
pub AllKeep-call_of :
    {A : Type 0} (Q : A → Type 0) (calls : Calls) (n : ℕ) (s : Cpm) (x : A) (k : Result → A)
    → AllKeep calls
    → IsSound s
    → Q x
    → ((r : Result) → EndsSound r → Q (k r))
    → Q (elim (call_of calls n) [ none ↦ x | some handler ↦ k (handler s) ])
AllKeep-call_of Q [] n s x k a v w f = w
AllKeep-call_of Q ((j, h) ∷ calls) n s x k a v w f = elim (Bool-cases (j == n)) [
  | inl e ↦ rw (e, call_of) (f (h.call s) (a.0 s v))
  | inr e ↦ rw (e, call_of) (AllKeep-call_of Q calls n s x k a.1 v w f)
]

module _ (env : Env) where
  open env use {pairs}

  console_calls-AllKeep : AllKeep (console_calls env)
  unfolding console_calls Console.exit Console.write_char Console.aux_write printer_write
      Console.get_io_byte Console.set_io_byte Console.bdos_version
  console_calls-AllKeep = (
    λ s v. v,
    (
      read_char-Keeps,
      (
        λ s v. v,
        (
          aux_read-Keeps,
          (
            λ s v. v,
            (
              λ s v. prn_c-EndsSound s.cpu.de.lo s v,
              (
                raw_io-Keeps,
                (
                  λ s v. v,
                  (
                    λ s v. v,
                    (
                      write_string-Keeps pairs,
                      (read_string-Keeps pairs env.perform, (console_status-Keeps, (λ s v. v, tt))),
                    ),
                  ),
                ),
              ),
            ),
          ),
        ),
      ),
    ),
  )

  file_calls-AllKeep : AllKeep (file_calls env)
  unfolding file_calls
  file_calls-AllKeep = (
    drive_all_reset-Keeps,
    (
      drive_set-Keeps,
      (
        file_open-Keeps pairs,
        (
          file_close-Keeps pairs,
          (
            find_first-Keeps pairs env.sort,
            (
              find_next-Keeps,
              (
                delete_file-Keeps pairs,
                (
                  read-Keeps pairs,
                  (write-Keeps pairs, (make_file-Keeps pairs, (rename_file-Keeps pairs, tt))),
                ),
              ),
            ),
          ),
        ),
      ),
    ),
  )

  drive_calls-AllKeep : AllKeep (drive_calls env)
  unfolding drive_calls Console.login_vec Console.drive_get Console.set_dma Console.drive_alloc
      Console.drive_set_ro Console.drive_ro_vec Console.set_file_attributes Console.get_drive_dpb
  drive_calls-AllKeep = (
    λ s v. v,
    (
      λ s v. v,
      (
        λ s v. v,
        (
          λ s v. v,
          (
            λ s v. v,
            (
              λ s v. v,
              (
                λ s v. v,
                (
                  λ s v. v,
                  (
                    user_number-Keeps,
                    (
                      read_rand-Keeps pairs,
                      (
                        write_rand-Keeps pairs,
                        (file_size-Keeps pairs, (rand_record-Keeps pairs, tt)),
                      ),
                    ),
                  ),
                ),
              ),
            ),
          ),
        ),
      ),
    ),
  )

  late_calls-AllKeep : AllKeep (late_calls env)
  unfolding late_calls Console.drive_reset Console.error_mode Console.time
      Console.direct_screen_functions Console.uptime
  late_calls-AllKeep =
      (λ s v. v, (write_rand-Keeps pairs, (λ s v. v, (λ s v. v, (λ s v. v, (λ s v. v, tt))))))

  pub bdos_calls-AllKeep : AllKeep (bdos_calls env)
  unfolding bdos_calls
  bdos_calls-AllKeep =
      let P : ℕ × CpmHandler → Type 0 = λ c. Keeps c.1.call in
      All-append P (console_calls env) (file_calls env ++ (drive_calls env ++ late_calls env))
        console_calls-AllKeep
        (All-append P (file_calls env) (drive_calls env ++ late_calls env) file_calls-AllKeep
          (All-append P (drive_calls env) (late_calls env) drive_calls-AllKeep late_calls-AllKeep))

  bios_calls-AllKeep : AllKeep (bios_calls env)
  unfolding bios_calls Bios.cold_boot Bios.warm_boot Bios.bios_console_output print_char
      Bios.printer_status Bios.screen_output_status Bios.aux_input_status Bios.aux_output_status
  bios_calls-AllKeep = (
    λ s v. v,
    (
      λ s v. v,
      (
        bios_console_status-Keeps,
        (
          bios_console_input-Keeps,
          (
            λ s v. v,
            (
              λ s v. prn_c-EndsSound s.cpu.bc.lo s v,
              (λ s v. v, (λ s v. v, (λ s v. v, (λ s v. v, (reserved1-Keeps env, tt))))),
            ),
          ),
        ),
      ),
    ),
  )

  after_handler-EndsSound :
      (r : Result) → EndsSound r → EndsSound (after_handler env.set_z env.reset_z r)
  unfolding after_handler
  after_handler-EndsSound (Result.returns none t) v =
      with_zero_flag-IsSound env.set_z env.reset_z t v
  after_handler-EndsSound (Result.returns (some e) t) v =
      with_zero_flag-IsSound env.set_z env.reset_z (record_error e t) v
  after_handler-EndsSound Result.panic v = tt
  after_handler-EndsSound Result.hang v = tt

  -- A write to a port keeps the invariant.
  pub out-EndsSound : (addr val : ℕ) (s : Cpm) → IsSound s → EndsSound (out env addr val s)
  unfolding out bios_handler
  out-EndsSound addr val s v =
      if-EndsSound (addr == 0xff) _ _
        (AllKeep-call_of EndsSound (bios_calls env) val s _ (after_handler env.set_z env.reset_z)
          bios_calls-AllKeep v v after_handler-EndsSound)
        v
