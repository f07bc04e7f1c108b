-- ===== src/Windows/Scan/Segments.antt =====
-- A text in apostrophes, found again by the scan.
use procwarden.Common.{false, ◌≡◌, [], ◌∷◌, Text, ◌==◌, if◌then◌else◌}
use procwarden.Windows.Scan.{apostrophe}

-- The text with each apostrophe doubled.
pub double_apostrophes : Text → Text
double_apostrophes [] = []
double_apostrophes (c ∷ s) =
    let rest = double_apostrophes s in if c == apostrophe then c ∷ c ∷ rest else c ∷ rest

-- What follows a closing apostrophe is not an apostrophe.
abbrev pub StartsOther : Text → Type 0
StartsOther [] = Unit
StartsOther (c ∷ s) = (c == apostrophe) ≡ false
