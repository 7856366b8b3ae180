-- ===== src/Tests/Returns.antt =====
-- cpm/cpm_bdos.go at a concrete state: a random record of an open file is asked for.
use cpmulator.Base.{refl, [], arith}
use cpmulator.Host.{Host}
use cpmulator.Host.Fresh.{Fresh}
use cpmulator.Bdos.Random.{read_rand}
use cpmulator.Bdos.Block.{cache_key}
use cpmulator.Emulator.Table.{bdos_calls, console_calls, file_calls, drive_calls, late_calls}
use cpmulator.Emulator.Sound.{IsSound, IsOpenTable}
use cpmulator.Emulator.Sound.Tables.{opened-IsOpenTable}
use cpmulator.Emulator.Returns.{Returns}
use cpmulator.Emulator.Returns.Calls.{bdos_calls-Returns}
use cpmulator.Tests.Disk.{f, host, path, o, s}
use cpmulator.Tests.Calls.{pairs}
use cpmulator.Tests.Emulated.{env}

-- The host before the file was opened.
abbrev before : Host
before = record host { handles = []; next = 7 }

just_opened : Fresh before host 7 path
just_opened = record {
  extends = (omega arith, λ fd q early e. absurd cc, refl);
  late = omega arith;
  given = omega arith;
  handle = o;
  found = refl;
  named = refl;
}

no_files : IsOpenTable [] before
no_files = record {
  is_open = λ key fd obj e g. absurd cc;
  apart = λ j k fd x y a b e g. absurd cc;
  closes = λ p. refl;
}

s-IsSound : IsSound s
s-IsSound = (
  opened-IsOpenTable [] before host 7 (cache_key f) path no_files just_opened,
  omega arith,
  omega arith,
)

bdos_calls-Returns_example : Returns (read_rand pairs s)
unfolding bdos_calls console_calls file_calls drive_calls late_calls
bdos_calls-Returns_example =
    bdos_calls-Returns env s 33 (read_rand pairs) refl (omega arith) s-IsSound (omega arith)
      (omega arith) (λ p. refl) (λ xs n. n)
