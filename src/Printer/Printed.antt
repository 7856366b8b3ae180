-- ===== src/Printer/Printed.antt =====
-- cpm/prnc.go: what has been printed stands in the file of the printer.
use cpmulator.Base.{
  ℕ, ◌≡◌, ◌≢◌, ◌∙◌, refl, sym, ap, List, [], ◌∷◌, ◌++◌, append_assoc, append-nil, Text, ◌==◌,
}
use mathlib.Core.Path.{subst}
use cpmulator.Assoc.{erase}
use cpmulator.Host.{Host, content}
use cpmulator.Host.Opening.{IsFile, at_start, with_open, create_file-found, with_open-IsOpen}
use cpmulator.Host.Records.{appended, append-IsOpen, close-open}
use cpmulator.Cpm.{Cpm, Result, done}
use cpmulator.FilePath.{clean}
use cpmulator.Printer.{printer_path, prn_c, printer_write, print_char}

-- What one character that is printed does.
abbrev pub Printed : ℕ → Text → Host → Host → Type 0
Printed i bytes h h' =
    (content h' i ≡ content h i ++ bytes) × ((j : ℕ) → i ≢ j → content h' j ≡ content h j)

prn_c_lem :
    (c : ℕ) (s : Cpm) (i : ℕ)
    → IsFile s.host (printer_path s) i
    → (h : Host) × (prn_c c s ≡ done (record s { host = h }))
      × IsFile h (printer_path s) i
      × Printed i (c ∷ []) s.host h
unfolding prn_c
prn_c_lem c s i v =
    let p : Text = printer_path s in
    let h1 : Host = with_open s.host p i in
    let fd : ℕ = s.host.next in
    let open1 = with_open-IsOpen s.host p i v in
    let (e, open2, content2, others2) = append-IsOpen h1 fd (at_start p i) open1 (c ∷ []) in
    let h2 : Host = appended h1 fd (at_start p i) open1 (c ∷ []) in
    (
      record h2 { handles = erase ◌==◌ fd h2.handles },
      rw (create_file-found s.host p i v, e, close-open h2 fd _ open2, prn_c),
      v,
      (content2, others2),
    )

-- The call that prints a character: of the BDOS, with it in E, or of the BIOS, with it in C.
pub data By : Type 0 where
  bdos bios : By

abbrev pub print_by : By → ℕ → Cpm → Result
print_by bdos c s =
    printer_write (record s { cpu = record (s.cpu) { de = record (s.cpu.de) { lo = c } } })
print_by bios c s =
    print_char (record s { cpu = record (s.cpu) { bc = record (s.cpu.bc) { lo = c } } })

-- Characters are printed one after another, each call without an error.
abbrev pub Prints : List (By × ℕ) → Cpm → Cpm → Type 0
Prints [] s t = s ≡ t
Prints ((b, c) ∷ cs) s t = (u : Cpm) × (print_by b c s ≡ done u) × Prints cs u t

abbrev pub characters : List (By × ℕ) → Text
characters [] = []
characters ((b, c) ∷ cs) = c ∷ characters cs

print_by_lem :
    (b : By) (c : ℕ) (s : Cpm) (i : ℕ)
    → IsFile s.host (printer_path s) i
    → (u : Cpm) × (print_by b c s ≡ done u)
      × (u.printer ≡ s.printer)
      × IsFile u.host (printer_path s) i
      × Printed i (c ∷ []) s.host u.host
unfolding printer_write print_char
print_by_lem bdos c s i v =
    let t : Cpm = record s { cpu = record (s.cpu) { de = record (s.cpu.de) { lo = c } } } in
    let (h, e, file, printed) = prn_c_lem c t i v in (record t { host = h }, e, refl, file, printed)
print_by_lem bios c s i v =
    let t : Cpm = record s { cpu = record (s.cpu) { bc = record (s.cpu.bc) { lo = c } } } in
    let (h, e, file, printed) = prn_c_lem c t i v in (record t { host = h }, e, refl, file, printed)

-- Where the file of the printer is there and no call of the host fails for it, any characters
-- printed, each by the BDOS or by the BIOS, give no error and stand in their order behind what was
-- in the file, and no other file has changed.
pub print_by-Printed :
    (cs : List (By × ℕ)) (s : Cpm) (i : ℕ)
    → IsFile s.host (printer_path s) i
    → (t : Cpm) × Prints cs s t × Printed i (characters cs) s.host t.host
print_by-Printed [] s i v = (s, refl, (sym (append-nil (content s.host i)), λ j n. refl))
print_by-Printed ((b, c) ∷ cs) s i v =
    let (u, e, same, file, (now, others)) = print_by_lem b c s i v in
    let (t, prints, (later, others')) =
      print_by-Printed cs u i (subst (λ p. IsFile u.host (clean p) i) (sym same) file) in
    (
      t,
      (u, e, prints),
      (
        later
            ∙ ap (λ x. x ++ characters cs) now
            ∙ append_assoc (content s.host i) (c ∷ []) (characters cs),
        λ j n. others' j n ∙ others j n,
      ),
    )
