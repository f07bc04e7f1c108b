-- ===== src/Manager/Environment.antt =====
-- What the backend's environment holds.
pub mod Blocked
use procwarden.Common.{
  ℕ, zero, suc, ◌-◌, ◌≡◌, refl, Option-cases, inl, inr, Option, none, some, [], ◌∷◌, Text, text_eq,
  lower, to_ascii_lowercase, eq_ignore_ascii_case, get_to, len_utf8, length, arith, if◌then◌else◌,
}
use mathlib.Core.Option
use mathlib.Core.Path.{fun_ext}
use procwarden.Manager.{EnvMap, is_kept, starts_with_ascii_case_insensitive}

-- `HashMap::get`.
abbrev pub get : Text → EnvMap → Option Text
get key [] = none
get key ((k, v) ∷ env) = let rest = get key env in if text_eq k key then some v else rest

lower_idem : (c : ℕ) → lower (lower c) ≡ lower c
unfolding lower
lower_idem c = ground arith

len_utf8-lower : (c : ℕ) → len_utf8 (lower c) ≡ len_utf8 c
unfolding lower len_utf8
len_utf8-lower c = ground arith

to_ascii_lowercase_idem :
    (s : Text) → to_ascii_lowercase (to_ascii_lowercase s) ≡ to_ascii_lowercase s
unfolding to_ascii_lowercase
to_ascii_lowercase_idem [] = refl
to_ascii_lowercase_idem (c ∷ s) = cc (lower_idem c, to_ascii_lowercase_idem s)

-- The literals are ASCII and lowering keeps the byte length, so a prefix of the lowered text is the
-- lowered prefix.
get_to-to_ascii_lowercase :
    (s : Text) (n : ℕ)
    → get_to (to_ascii_lowercase s) n ≡ Option.map to_ascii_lowercase (get_to s n)
unfolding get_to to_ascii_lowercase
get_to-to_ascii_lowercase [] zero = refl
get_to-to_ascii_lowercase [] (suc n) = refl
get_to-to_ascii_lowercase (c ∷ s) zero = refl
get_to-to_ascii_lowercase (c ∷ s) (suc n) =
    ground (arith, len_utf8-lower c, get_to-to_ascii_lowercase s (suc n - len_utf8 c))

eq_ignore_ascii_case-lower :
    (s t : Text) → eq_ignore_ascii_case (to_ascii_lowercase s) t ≡ eq_ignore_ascii_case s t
unfolding eq_ignore_ascii_case
eq_ignore_ascii_case-lower s t = rw to_ascii_lowercase_idem

starts_with-lower :
    (s prefix : Text)
    → starts_with_ascii_case_insensitive (to_ascii_lowercase s) prefix
      ≡ starts_with_ascii_case_insensitive s prefix
unfolding starts_with_ascii_case_insensitive
starts_with-lower s prefix = elim (Option-cases (get_to s (length prefix))) [
  | inl short ↦ rw (get_to-to_ascii_lowercase, short, starts_with_ascii_case_insensitive)
  | inr (t, found) ↦
      rw (get_to-to_ascii_lowercase, found, starts_with_ascii_case_insensitive)
        (eq_ignore_ascii_case-lower t prefix)
]

-- Whether a variable is kept does not depend on the case of its name.
pub is_kept-to_ascii_lowercase : (key : Text) → is_kept (to_ascii_lowercase key) ≡ is_kept key
unfolding is_kept
is_kept-to_ascii_lowercase key =
    rw (fun_ext (eq_ignore_ascii_case-lower key), fun_ext (starts_with-lower key))
