-- ===== src/Windows/Arguments.antt =====
-- platform/windows/process.rs and elevation.rs: `quote_windows_arg`, of which both have a copy.
pub mod Quoting
pub mod Program
use procwarden.Common.{
  ℕ, zero, suc, ◌+◌, ◌*◌, Bool, true, false, not, ◌||◌, List, [], ◌∷◌, ◌++◌, Text, is_empty,
  some_of, map, lit, join_with, ◌==◌, if◌then◌else◌,
}

abbrev pub backslash : ℕ
backslash = 92

abbrev pub quote : ℕ
quote = 34

-- `"\\".repeat(count)`
abbrev pub backslashes : ℕ → Text
backslashes zero = []
backslashes (suc n) = backslash ∷ backslashes n

-- The characters that make quotes necessary: space, tab, line feed, carriage return and quote.
abbrev pub is_special : ℕ → Bool
is_special c = c == 32 || (c == 9 || (c == 10 || (c == 13 || c == quote)))

unfoldable pub needs_quotes : Text → Bool
needs_quotes arg = is_empty arg || some_of is_special arg

-- The loop and what follows it; the count of backslashes waits for the next character.
unfoldable pub quote_rest : ℕ → Text → Text
quote_rest count [] = backslashes (count * 2) ++ (quote ∷ [])
quote_rest count (c ∷ cs) =
    let longer = quote_rest (suc count) cs in
    let fresh = quote_rest 0 cs in
    if c == backslash
    then longer
    else if c == quote
    then backslashes (count * 2 + 1) ++ (quote ∷ fresh)
    else backslashes count ++ (c ∷ fresh)

unfoldable pub quote_windows_arg : Text → Text
quote_windows_arg arg = if not (needs_quotes arg) then arg else quote ∷ quote_rest 0 arg

-- The string of `run_process_in_appcontainer` that becomes the command line.
unfoldable pub command_line_string : List Text → Text
command_line_string command = join_with (lit " ") (map quote_windows_arg command)
