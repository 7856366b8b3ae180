-- ===== src/Emulator/Returns/Calls.antt =====
-- cpm/cpm.go, `New`: which calls of the table of BDOS return.
use cpmulator.Base.{
  ℕ, ◌+◌, ◌≤◌, ◌≡◌, refl, ◌∙◌, sym, ap, false, Bool-cases, inl, inr, none, some, Text, [], ◌∷◌,
  ◌++◌, All, All-append, ◌==◌, arith, length,
}
use mathlib.Core.Path.{subst}
use cpmulator.Host.{Host, Handle, Call, content, stat_size, with_handle, get_handle}
use cpmulator.Cpm.{Cpm, Result}
use cpmulator.Env.{Env}
use cpmulator.Bdos.Console
use cpmulator.Bdos.Drives
use cpmulator.Emulator.Sound.{IsSound}
use cpmulator.Emulator.Table.{
  CpmHandler, Calls, call_of, bdos_calls, console_calls, file_calls, drive_calls, late_calls,
}
use cpmulator.Emulator.Returns.{Returns, if-Returns}
use cpmulator.Emulator.Returns.Files.{
  file_open-Returns, make_file-Returns, file_close-Returns, read-Returns, write-Returns,
}
use cpmulator.Emulator.Returns.Random.{
  AllSized, read_rand-Returns, write_rand-Returns, file_size-Returns, rand_record-Returns,
}
use cpmulator.Emulator.Returns.Directory.{
  KeepsSome, find_first-Returns, find_next-Returns, delete_file-Returns, rename_file-Returns,
}

-- The handlers of a table that have a number from 13 on return from a state.
abbrev AllReturn : Cpm → Calls → Type 0
AllReturn s calls = All (λ c. 13 ≤ c.0 → Returns (c.1.call s)) calls

stat-open :
    (fd : ℕ) (h : Host) (o : Handle)
    → get_handle h fd ≡ some o
    → h.faults Call.stating o.path ≡ false
    → stat_size fd h ≡ some (length (content h o.inode))
unfolding stat_size
stat-open fd h o found works = rw (found, with_handle) (rw works refl)

-- The host tells the sizes of the cached files, where the handles are open.
stat-AllSized :
    (s : Cpm) → IsSound s → ((p : Text) → s.host.faults Call.stating p ≡ false) → AllSized s
stat-AllSized s v works key fd obj e g =
    let (o, found, named, early) = v.0.is_open key fd obj e g in
    (length (content s.host o.inode), stat-open fd s.host o found (works o.path))

module _ (env : Env) (s : Cpm) (fits : env.pairs.to_u16 s.cpu.de + 36 ≤ 65536)
    (area : s.dma + 128 ≤ 65536) (sizes : AllSized s) (keeps : KeepsSome env.sort) where
  open env use {pairs}

  console_calls-AllReturn : AllReturn s (console_calls env)
  unfolding console_calls
  console_calls-AllReturn = (
    λ h. absurd (omega arith),
    (
      λ h. absurd (omega arith),
      (
        λ h. absurd (omega arith),
        (
          λ h. absurd (omega arith),
          (
            λ h. absurd (omega arith),
            (
              λ h. absurd (omega arith),
              (
                λ h. absurd (omega arith),
                (
                  λ h. absurd (omega arith),
                  (
                    λ h. absurd (omega arith),
                    (
                      λ h. absurd (omega arith),
                      (
                        λ h. absurd (omega arith),
                        (λ h. absurd (omega arith), (λ h. absurd (omega arith), tt)),
                      ),
                    ),
                  ),
                ),
              ),
            ),
          ),
        ),
      ),
    ),
  )

  file_calls-AllReturn : AllReturn s (file_calls env)
  unfolding file_calls Drives.drive_all_reset Drives.drive_set
  file_calls-AllReturn = (
    λ h. tt,
    (
      λ h. tt,
      (
        λ h. file_open-Returns pairs s fits,
        (
          λ h. file_close-Returns pairs s fits,
          (
            λ h. find_first-Returns pairs s env.sort keeps area,
            (
              λ h. find_next-Returns s area,
              (
                λ h. delete_file-Returns pairs s,
                (
                  λ h. read-Returns pairs s fits area,
                  (
                    λ h. write-Returns pairs s fits,
                    (λ h. make_file-Returns pairs s fits, (λ h. rename_file-Returns pairs s, tt)),
                  ),
                ),
              ),
            ),
          ),
        ),
      ),
    ),
  )

  drive_calls-AllReturn : AllReturn s (drive_calls env)
  unfolding drive_calls Console.login_vec Console.drive_get Console.set_dma Console.drive_alloc
      Console.drive_set_ro Console.drive_ro_vec Console.set_file_attributes Console.get_drive_dpb
      Drives.user_number
  drive_calls-AllReturn = (
    λ h. tt,
    (
      λ h. tt,
      (
        λ h. tt,
        (
          λ h. tt,
          (
            λ h. tt,
            (
              λ h. tt,
              (
                λ h. tt,
                (
                  λ h. tt,
                  (
                    λ h. if-Returns (s.cpu.de.lo == 0xff) _ _ tt tt,
                    (
                      λ h. read_rand-Returns pairs s fits sizes area,
                      (
                        λ h. write_rand-Returns pairs s fits,
                        (
                          λ h. file_size-Returns pairs s fits,
                          (λ h. rand_record-Returns pairs s fits, tt),
                        ),
                      ),
                    ),
                  ),
                ),
              ),
            ),
          ),
        ),
      ),
    ),
  )

  late_calls-AllReturn : AllReturn s (late_calls env)
  unfolding late_calls Console.drive_reset Console.error_mode Console.time
      Console.direct_screen_functions Console.uptime
  late_calls-AllReturn = (
    λ h. tt,
    (λ h. write_rand-Returns pairs s fits, (λ h. tt, (λ h. tt, (λ h. tt, (λ h. tt, tt))))),
  )

  bdos_calls-AllReturn : AllReturn s (bdos_calls env)
  unfolding bdos_calls
  bdos_calls-AllReturn =
      let P : ℕ × CpmHandler → Type 0 = λ c. 13 ≤ c.0 → Returns (c.1.call s) in
      All-append P (console_calls env) (file_calls env ++ (drive_calls env ++ late_calls env))
        console_calls-AllReturn
        (All-append P (file_calls env) (drive_calls env ++ late_calls env) file_calls-AllReturn (
          All-append P (drive_calls env) (late_calls env) drive_calls-AllReturn
            late_calls-AllReturn))

call_of-Returns :
    (s : Cpm) (calls : Calls) (n : ℕ) (handler : Cpm → Result)
    → AllReturn s calls
    → 13 ≤ n
    → call_of calls n ≡ some handler
    → Returns (handler s)
call_of-Returns s [] n handler a h e = absurd cc
call_of-Returns s ((j, c) ∷ calls) n handler a h e = elim (Bool-cases (j == n)) [
  | inl found ↦
      let same : some c.call ≡ some handler = sym (rw (found, call_of) refl) ∙ e in
      subst (λ f. Returns (f s)) (ap (λ o. elim o [ none ↦ c.call | some f ↦ f ]) same)
        (a.0 (ground (arith, found, h)))
  | inr other ↦ call_of-Returns s calls n handler a.1 h (sym (rw (other, call_of) refl) ∙ e)
]

-- A call that the table of BDOS has a handler for under a number from 13 on, which leaves out those
-- for the console, ends: it neither panics nor waits for ever, and its error, if it has one, is
-- none of those that end, halt or reboot a program or that say that it is not implemented. The
-- state keeps the invariant of the emulator, by which the files of the cache are open and the host
-- fails to close no file; the block and the DMA area end within the RAM, the host can tell the size
-- of every file, and sorting keeps something where there is something.
pub bdos_calls-Returns :
    (env : Env) (s : Cpm) (n : ℕ) (handler : Cpm → Result)
    → call_of (bdos_calls env) n ≡ some handler
    → 13 ≤ n
    → IsSound s
    → env.pairs.to_u16 s.cpu.de + 36 ≤ 65536
    → s.dma + 128 ≤ 65536
    → ((p : Text) → s.host.faults Call.stating p ≡ false)
    → KeepsSome env.sort
    → Returns (handler s)
bdos_calls-Returns env s n handler e h v fits area works keeps =
    call_of-Returns s (bdos_calls env) n handler
      (bdos_calls-AllReturn env s fits area (stat-AllSized s v works) keeps) h e
