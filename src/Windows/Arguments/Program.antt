-- ===== src/Windows/Arguments/Program.antt =====
-- The command line of a command, read back with the rules for its first argument, the program.
use mathlib.Core.List.{append_assoc, append-nil}
use procwarden.Common.{
  ℕ, zero, suc, Bool, true, false, not, ◌||◌, ◌&&◌, ◌≡◌, refl, sym, ◌∙◌, ap, List, [], ◌∷◌, ◌++◌,
  Text, is_empty, some_of, lit, join_with, length, drop, map, ◌==◌, if◌then◌else◌, arith,
  Bool-cases, inl, inr,
}
use procwarden.Windows.Arguments.{
  backslash, quote, backslashes, is_special, needs_quotes, quote_rest, quote_windows_arg,
  command_line_string,
}
use procwarden.Windows.Arguments.Quoting.{
  is_separator, prepend, EndsArgument, backslashes-suc, eq_of, read_arguments,
  read_arguments-join_with,
}

-- The program and the rest of the line, as the C runtime documents it: quotes open and close parts
-- in which a separator is no end, and are dropped; a backslash escapes nothing.
pub read_program : Bool → Text → Text × Text
read_program inside [] = ([], [])
read_program inside (c ∷ cs) =
    let toggled = read_program (not inside) cs in
    let next = read_program inside cs in
    if c == quote
    then toggled
    else if is_separator c && not inside
    then ([], c ∷ cs)
    else prepend (c ∷ []) next

-- The program, and so many arguments after it.
abbrev pub read_command : ℕ → Text → List Text
read_command count line =
    let (program, rest) = read_program false line in program ∷ read_arguments count (drop 1 rest)

abbrev pub ends_in_backslash : Bool → Text → Bool
ends_in_backslash before [] = before
ends_in_backslash before (c ∷ cs) = ends_in_backslash (c == backslash) cs

-- A path of a program: it has no quote, which no path of Windows may have, and does not end in a
-- backslash, which the path of a directory may do.
pub record IsProgram (program : Text) : Type 0 where
  pub unquoted : some_of (λ c. c == quote) program ≡ false
  pub is_no_directory : ends_in_backslash false program ≡ false

abbrev is_suc : ℕ → Bool
is_suc zero = false
is_suc (suc n) = true

quote_rest-unquoted :
    (n : ℕ) (cs : Text)
    → some_of (λ c. c == quote) cs ≡ false
    → ends_in_backslash (is_suc n) cs ≡ false
    → quote_rest n cs ≡ backslashes n ++ (cs ++ (quote ∷ []))
unfolding quote_rest
quote_rest-unquoted zero [] h k = refl
quote_rest-unquoted (suc n) [] h k = absurd (cc k)
quote_rest-unquoted n (c ∷ cs) h k = elim (Bool-cases (c == backslash)) [
  | inl is ↦ rw is (
      quote_rest-unquoted (suc n) cs (ground arith) (ground (arith, is, k))
      ∙ (sym (backslashes-suc n (cs ++ (quote ∷ [])))
          ∙ ap (λ d. backslashes n ++ (d ∷ (cs ++ (quote ∷ [])))) (sym (eq_of c backslash is))))
  | inr isnt ↦
      ground (arith, isnt, h, quote_rest-unquoted 0 cs (ground arith) (ground (arith, isnt, k)))
]

read_program-end : (rest : Text) → EndsArgument rest → read_program false rest ≡ ([], rest)
unfolding read_program
read_program-end [] h = refl
read_program-end (c ∷ cs) h = ground arith

read_program-inside :
    (cs rest : Text)
    → some_of (λ c. c == quote) cs ≡ false
    → EndsArgument rest
    → read_program true (cs ++ (quote ∷ rest)) ≡ (cs, rest)
unfolding read_program
read_program-inside [] rest h ends = read_program-end rest ends
read_program-inside (c ∷ cs) rest h ends =
    ground (arith, h, read_program-inside cs rest (ground arith) ends)

read_program-plain :
    (cs rest : Text)
    → some_of is_special cs ≡ false
    → EndsArgument rest
    → read_program false (cs ++ rest) ≡ (cs, rest)
unfolding read_program
read_program-plain [] rest h ends = read_program-end rest ends
read_program-plain (c ∷ cs) rest h ends =
    ground (arith, h, read_program-plain cs rest (ground arith) ends)

read_program-quote_windows_arg :
    (program rest : Text)
    → IsProgram program
    → EndsArgument rest
    → read_program false (quote_windows_arg program ++ rest) ≡ (program, rest)
unfolding quote_windows_arg needs_quotes read_program
read_program-quote_windows_arg program rest is ends =
    elim (Bool-cases (is_empty program || some_of is_special program)) [
      | inl needed ↦
          rw
            (
              needed,
              quote_rest-unquoted 0 program is.unquoted is.is_no_directory,
              append_assoc program (quote ∷ []) rest,
            )
            (read_program-inside program rest is.unquoted ends)
      | inr plain ↦ rw plain (read_program-plain program rest (ground arith) ends)
    ]

-- The command line of a command reads back as the program and the arguments, if the program is a
-- path without a quote that does not end in a backslash; the arguments may be any texts.
pub read_command-command_line_string :
    (program : Text) (arguments : List Text)
    → IsProgram program
    → read_command (length arguments) (command_line_string (program ∷ arguments))
      ≡ program ∷ arguments
unfolding command_line_string join_with lit
read_command-command_line_string program [] is =
    let read =
      ap (read_program false) (sym (append-nil (quote_windows_arg program)))
      ∙ read_program-quote_windows_arg program [] is tt in
    rw read refl
read_command-command_line_string program (a ∷ more) is =
    rw
      (read_program-quote_windows_arg program
        (32 ∷ join_with (32 ∷ []) (map quote_windows_arg (a ∷ more))) is refl)
      (ap (λ l. program ∷ l) (read_arguments-join_with (a ∷ more)))
