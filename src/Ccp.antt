-- ===== src/Ccp.antt =====
-- ccp/ccp.go: the command processors that the emulator embeds. The contents of its files DR.BIN and
-- CCPZ.BIN, which a build makes, are parameters.
use cpmulator.Base.{ℕ, Option, none, some, List, [], ◌∷◌, if◌then◌else◌, Text, text_eq, codes}
use cpmulator.Text.{to_lower}

-- `Flavour`
pub record Flavour : Type 0 where
  pub name : Text
  pub description : Text
  pub bytes : Text
  pub start : ℕ

-- What `init` puts into `ccps`.
unfoldable pub ccps : Text → Text → List Flavour
ccps dr ccpz =
    record { name = codes "ccp"; description = codes "CP/M v2.2skx"; bytes = dr; start = 0xde00 }
    ∷ record {
      name = codes "ccpz";
      description = codes "CCPZ v4.1skx";
      bytes = ccpz;
      start = 0xde00;
    }
    ∷ []

-- The loop of `Get`; `none` is its error.
unfoldable pub flavour_of : Text → List Flavour → Option Flavour
unfolding to_lower
flavour_of name [] = none
flavour_of name (ent ∷ rest) =
    let later = flavour_of name rest in if text_eq (to_lower name) ent.name then some ent else later

unfoldable pub get : Text → Text → Text → Option Flavour
unfolding flavour_of ccps
get dr ccpz name = flavour_of name (ccps dr ccpz)
