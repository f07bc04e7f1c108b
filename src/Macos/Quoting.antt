-- ===== src/Macos/Quoting.antt =====
-- A quoted path reads back: no path can close its string early and add rules of its own.
use mathlib.Core.List.{append_assoc}
use procwarden.Common.{
  Bool, true, false, ◌≡◌, refl, Option, none, some, [], ◌∷◌, ◌++◌, Text, arith, if◌then◌else◌, ◌==◌,
}
use procwarden.Paths.{PathBuf, to_string_lossy}
use procwarden.Macos.Profile.{escape, quote_text, quote_sbpl_string}

abbrev prepend : Text → Option (Text × Text) → Option (Text × Text)
prepend s none = none
prepend s (some (t, rest)) = some (s ++ t, rest)

-- A reader of string literals, after the opening quote: what the string holds, and what follows its
-- closing quote. The flag says that a `\` came before.
pub read_body : Bool → Text → Option (Text × Text)
read_body escaped [] = none
read_body true (c ∷ s) = prepend (c ∷ []) (read_body false s)
read_body false (c ∷ s) =
    let after_backslash = read_body true s in
    let plain = prepend (c ∷ []) (read_body false s) in
    if c == b'"' then some ([], s) else if c == b'\\' then after_backslash else plain

pub read_quoted : Text → Option (Text × Text)
read_quoted [] = none
read_quoted (c ∷ s) = if c == b'"' then read_body false s else none

read_body-escape : (s rest : Text) → read_body false (escape s ++ (b'"' ∷ rest)) ≡ some (s, rest)
unfolding read_body escape
read_body-escape [] rest = refl
read_body-escape (c ∷ s) rest = ground (arith, read_body-escape s rest)

-- The quoted path, with anything behind it, reads back as the path's text and that rest.
pub read_quoted-quote_sbpl_string :
    (path : PathBuf) (rest : Text)
    → read_quoted (quote_sbpl_string path ++ rest) ≡ some (to_string_lossy path, rest)
unfolding read_quoted quote_sbpl_string quote_text
read_quoted-quote_sbpl_string path rest =
    rw append_assoc (read_body-escape (to_string_lossy path) rest)
