-- ===== src/Windows/Arguments/Quoting.antt =====
-- A quoted argument, read back by the rules for the arguments of a C program.
use procwarden.Common.{
  ℕ, zero, suc, ◌+◌, ◌*◌, Bool, true, false, not, ◌||◌, ◌&&◌, ◌≡◌, refl, sym, ◌∙◌, ap, subst, List,
  [], ◌∷◌, ◌++◌, Text, is_empty, some_of, join_with, length, drop, map, ◌==◌, if◌then◌else◌, arith,
  Bool-cases, inl, inr,
}
use mathlib.Core.List.{append_assoc, append-nil}
use procwarden.Windows.Arguments.{
  backslash, quote, backslashes, is_special, needs_quotes, quote_rest, quote_windows_arg,
}

is_even : ℕ → Bool
is_even zero = true
is_even (suc zero) = false
is_even (suc (suc n)) = is_even n

half : ℕ → ℕ
half zero = zero
half (suc zero) = zero
half (suc (suc n)) = suc (half n)

abbrev pub is_separator : ℕ → Bool
is_separator c = c == 32 || c == 9

abbrev pub prepend : Text → Text × Text → Text × Text
prepend a (b, rest) = (a ++ b, rest)

-- One argument and the rest of the line, as the C runtime documents it: a quote after an even
-- number of backslashes opens or closes a quoted part, a quote after an odd number stands for
-- itself, half of the backslashes before a quote are kept and all others, and a separator outside
-- quotes ends the argument.
pub read_argument : Bool → ℕ → Text → Text × Text
unfolding is_even half
read_argument inside n [] = (backslashes n, [])
read_argument inside n (c ∷ cs) =
    let longer = read_argument inside (suc n) cs in
    let fresh = read_argument inside 0 cs in
    let toggled = read_argument (not inside) 0 cs in
    if c == backslash
    then longer
    else if c == quote
    then (if is_even n
        then prepend (backslashes (half n)) toggled
        else prepend (backslashes (half n) ++ (quote ∷ [])) fresh)
    else if is_separator c && not inside
    then (backslashes n, c ∷ cs)
    else prepend (backslashes n ++ (c ∷ [])) fresh

-- An argument ends at the end of the line or at a separator.
abbrev pub EndsArgument : Text → Type 0
EndsArgument [] = Unit
EndsArgument (c ∷ cs) = is_separator c ≡ true

double_suc : (n : ℕ) → suc n * 2 ≡ suc (suc (n * 2))
double_suc n = omega arith

odd_suc : (n : ℕ) → suc n * 2 + 1 ≡ suc (suc (n * 2 + 1))
odd_suc n = omega arith

half_double : (n : ℕ) → (is_even (n * 2) ≡ true) × (half (n * 2) ≡ n)
unfolding is_even half
half_double zero = (refl, refl)
half_double (suc n) = let (e, h) = half_double n in rw (double_suc n) (e, ap suc h)

half_odd : (n : ℕ) → (is_even (n * 2 + 1) ≡ false) × (half (n * 2 + 1) ≡ n)
unfolding is_even half
half_odd zero = (refl, refl)
half_odd (suc n) = let (e, h) = half_odd n in rw (odd_suc n) (e, ap suc h)

pub backslashes-suc :
    (n : ℕ) (t : Text) → backslashes n ++ (backslash ∷ t) ≡ backslash ∷ (backslashes n ++ t)
backslashes-suc zero t = refl
backslashes-suc (suc n) t = ap (λ l. backslash ∷ l) (backslashes-suc n t)

read-backslashes :
    (m k : ℕ) (t : Text) → read_argument true k (backslashes m ++ t) ≡ read_argument true (k + m) t
unfolding read_argument
read-backslashes zero k t = ap (λ n. read_argument true n t) (omega arith)
read-backslashes (suc m) k t =
    read-backslashes m (suc k) t ∙ ap (λ n. read_argument true n t) (omega arith)

-- Backslashes that a whole text starts with.
read-run : (m : ℕ) (t : Text) → read_argument true 0 (backslashes m ++ t) ≡ read_argument true m t
read-run m t = read-backslashes m 0 t ∙ ap (λ n. read_argument true n t) (omega arith)

read-end :
    (n : ℕ) (rest : Text) → EndsArgument rest → read_argument false n rest ≡ (backslashes n, rest)
unfolding read_argument
read-end n [] h = refl
read-end n (c ∷ cs) h = ground arith

-- The quote that closes, the quote that is part of the argument, and any other character.
read-close :
    (n : ℕ) (rest : Text)
    → EndsArgument rest
    → read_argument true (n * 2) (quote ∷ rest) ≡ (backslashes n, rest)
unfolding read_argument
read-close n rest h =
    rw ((half_double n).0, (half_double n).1, read-end 0 rest h)
      (ap (λ a. (a, rest)) (append-nil (backslashes n)))

read-quote :
    (n : ℕ) (t : Text)
    → read_argument true (n * 2 + 1) (quote ∷ t)
      ≡ prepend (backslashes n ++ (quote ∷ [])) (read_argument true 0 t)
unfolding read_argument
read-quote n t = rw ((half_odd n).0, (half_odd n).1) refl

read-other :
    (n c : ℕ) (t : Text)
    → (c == backslash) ≡ false
    → (c == quote) ≡ false
    → read_argument true n (c ∷ t) ≡ prepend (backslashes n ++ (c ∷ [])) (read_argument true 0 t)
unfolding read_argument
read-other n c t h k = ground arith

pub eq_of : (a b : ℕ) → (a == b) ≡ true → a ≡ b
eq_of a b h = ground arith

kept : (n c : ℕ) (cs : Text) → (backslashes n ++ (c ∷ [])) ++ cs ≡ backslashes n ++ (c ∷ cs)
kept n c cs = append_assoc (backslashes n) (c ∷ []) cs

read-quote_rest :
    (n : ℕ) (cs rest : Text)
    → EndsArgument rest
    → read_argument true 0 (quote_rest n cs ++ rest) ≡ (backslashes n ++ cs, rest)
unfolding quote_rest
read-quote_rest n [] rest h = rw (append_assoc (backslashes (n * 2)) (quote ∷ []) rest) (
    read-run (n * 2) (quote ∷ rest)
    ∙ (read-close n rest h ∙ ap (λ a. (a, rest)) (sym (append-nil (backslashes n)))))
read-quote_rest n (c ∷ cs) rest h = elim (Bool-cases (c == backslash)) [
  | inl is ↦ rw is (
      read-quote_rest (suc n) cs rest h
      ∙ ap (λ a. (a, rest))
          (sym (backslashes-suc n cs)
            ∙ ap (λ d. backslashes n ++ (d ∷ cs)) (sym (eq_of c backslash is))))
  | inr isnt ↦ elim (Bool-cases (c == quote)) [
    | inl is ↦
        rw (isnt, is, append_assoc (backslashes (n * 2 + 1)) (quote ∷ quote_rest 0 cs) rest)
          (read-run (n * 2 + 1) (quote ∷ (quote_rest 0 cs ++ rest))
            ∙ (read-quote n (quote_rest 0 cs ++ rest)
                ∙ (ap (prepend (backslashes n ++ (quote ∷ []))) (read-quote_rest 0 cs rest h)
                    ∙ ap (λ a. (a, rest))
                        (kept n quote cs
                          ∙ ap (λ d. backslashes n ++ (d ∷ cs)) (sym (eq_of c quote is))))))
    | inr nor ↦
        rw (isnt, nor, append_assoc (backslashes n) (c ∷ quote_rest 0 cs) rest)
          (read-run n (c ∷ (quote_rest 0 cs ++ rest))
            ∙ (read-other n c (quote_rest 0 cs ++ rest) isnt nor
                ∙ (ap (prepend (backslashes n ++ (c ∷ []))) (read-quote_rest 0 cs rest h)
                    ∙ ap (λ a. (a, rest)) (kept n c cs))))
  ]
]

-- An argument without special characters is read as it stands.
read-plain :
    (n : ℕ) (cs rest : Text)
    → some_of is_special cs ≡ false
    → EndsArgument rest
    → read_argument false n (cs ++ rest) ≡ (backslashes n ++ cs, rest)
unfolding read_argument
read-plain n [] rest plain h =
    read-end n rest h ∙ ap (λ a. (a, rest)) (sym (append-nil (backslashes n)))
read-plain n (c ∷ cs) rest plain h = elim (Bool-cases (c == backslash)) [
  | inl is ↦ rw is (
      read-plain (suc n) cs rest (ground arith) h
      ∙ ap (λ a. (a, rest))
          (sym (backslashes-suc n cs)
            ∙ ap (λ d. backslashes n ++ (d ∷ cs)) (sym (eq_of c backslash is))))
  | inr isnt ↦
      ap (λ a. a) (ground (arith, isnt, plain, read-plain 0 cs rest (ground arith) h, kept n c cs))
]

-- The reading gives back the argument that was quoted, whatever characters it has, and leaves the
-- rest of the line, if that is empty or starts with a separator.
read_argument-quote_windows_arg :
    (arg rest : Text)
    → EndsArgument rest
    → read_argument false 0 (quote_windows_arg arg ++ rest) ≡ (arg, rest)
unfolding quote_windows_arg needs_quotes read_argument
read_argument-quote_windows_arg arg rest h =
    elim (Bool-cases (is_empty arg || some_of is_special arg)) [
      | inl is ↦ rw is (read-quote_rest 0 arg rest h)
      | inr isnt ↦ rw isnt (read-plain 0 arg rest (ground arith) h)
    ]

-- So many arguments, with one separator between them.
abbrev pub read_arguments : ℕ → Text → List Text
read_arguments zero line = []
read_arguments (suc count) line =
    let (arg, rest) = read_argument false 0 line in arg ∷ read_arguments count (drop 1 rest)

read-last : (arg : Text) → read_argument false 0 (quote_windows_arg arg) ≡ (arg, [])
read-last arg =
    subst (λ t. read_argument false 0 t ≡ (arg, [])) (append-nil (quote_windows_arg arg))
      (read_argument-quote_windows_arg arg [] tt)

-- The arguments of a line that joins them quoted.
pub read_arguments-join_with :
    (command : List Text)
    → read_arguments (length command) (join_with (32 ∷ []) (map quote_windows_arg command))
      ≡ command
unfolding join_with
read_arguments-join_with [] = refl
read_arguments-join_with (a ∷ []) = rw (read-last a) refl
read_arguments-join_with (a ∷ b ∷ bs) =
    rw
      (read_argument-quote_windows_arg a (32 ∷ join_with (32 ∷ []) (map quote_windows_arg (b ∷ bs)))
        refl)
      (ap (λ l. a ∷ l) (read_arguments-join_with (b ∷ bs)))
