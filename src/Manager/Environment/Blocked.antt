-- ===== src/Manager/Environment/Blocked.antt =====
-- Which variables of a request reach the child: the names that are held back, read letter by letter.
use mathlib.Core.Option
use procwarden.Common.{
  ℕ, suc, ◌-◌, ◌≡◌, refl, ◌∙◌, ap, inl, inr, Bool, true, false, not, ◌&&◌, ◌||◌, Bool-cases, Option,
  none, some, [], ◌∷◌, ◌++◌, Text, lit, text_eq, text_eq_iff, lower, to_ascii_lowercase,
  eq_ignore_ascii_case, get_to, len_utf8, length, arith, if◌then◌else◌, leb, ltb, each_of, ◌==◌,
}
use procwarden.Manager.{
  EnvMap, is_kept, sanitize_env_vars, starts_with_ascii_case_insensitive, blocked_exact,
  blocked_prefixes,
}
use procwarden.Manager.Environment.{get}

-- The text begins with the letters, in any case.
begins : Text → Text → Bool
begins [] s = true
begins (d ∷ letters) [] = false
begins (d ∷ letters) (c ∷ s) = lower c == d && begins letters s

-- A variable by which another program is run or loaded: a start-up file of a shell, a function of
-- bash, or a setting of the dynamic linker of Linux or macOS.
pub is_held_back : Text → Bool
unfolding begins
is_held_back key =
    text_eq (to_ascii_lowercase key) (lit "bash_env")
    || (text_eq (to_ascii_lowercase key) (lit "env")
        || (begins (lit "ld_") key || (begins (lit "dyld_") key || begins (lit "bash_func_") key)))

abbrev is_prefix : Text → Option Text → Bool
is_prefix letters none = false
is_prefix letters (some t) = text_eq (to_ascii_lowercase t) letters

is_prefix-cons :
    (c d : ℕ) (letters : Text) (o : Option Text)
    → is_prefix (d ∷ letters) (Option.map (λ t. c ∷ t) o) ≡ (lower c == d && is_prefix letters o)
unfolding to_ascii_lowercase text_eq
is_prefix-cons c d letters none = ground arith
is_prefix-cons c d letters (some t) = ground arith

lower_wide : (c d : ℕ) → (leb 0x80 c) ≡ true → ltb d 0x80 ≡ true → (lower c == d) ≡ false
unfolding lower
lower_wide c d h k = ground arith

narrow : (c : ℕ) → leb 0x80 c ≡ false → len_utf8 c ≡ 1
unfolding len_utf8
narrow c h = ground arith

empty_prefix : text_eq (to_ascii_lowercase []) [] ≡ true
unfolding to_ascii_lowercase text_eq
empty_prefix = refl

is_prefix-step :
    (c d : ℕ) (letters : Text) (o : Option Text) (b : Bool)
    → is_prefix (d ∷ letters) (if b then Option.map (λ t. c ∷ t) o else none)
      ≡ (lower c == d && (if b then is_prefix letters o else false))
is_prefix-step c d letters o true = is_prefix-cons c d letters o
is_prefix-step c d letters o false = ground arith

sub_one : (n : ℕ) → suc n - 1 ≡ n
sub_one n = omega arith

one_le : (n : ℕ) → leb 1 (suc n) ≡ true
one_le n = ground arith

get_to-narrow :
    (c : ℕ) (s : Text) (n : ℕ)
    → len_utf8 c ≡ 1
    → get_to (c ∷ s) (suc n) ≡ Option.map (λ t. c ∷ t) (get_to s n)
unfolding get_to
get_to-narrow c s n h = rw (h, sub_one n, one_le n) refl

is_prefix-begins :
    (letters s : Text)
    → each_of (λ d. ltb d 0x80) letters ≡ true
    → is_prefix letters (get_to s (length letters)) ≡ begins letters s
unfolding get_to begins
is_prefix-begins [] [] h = empty_prefix
is_prefix-begins [] (c ∷ s) h = empty_prefix
is_prefix-begins (d ∷ letters) [] h = refl
is_prefix-begins (d ∷ letters) (c ∷ s) h = elim (Bool-cases (leb 0x80 c)) [
  | inl wide ↦
      (is_prefix-step c d letters (get_to s (suc (length letters) - len_utf8 c)) _
        ∙ ground (arith, lower_wide c d wide (ground (arith, h))))
  | inr ascii ↦
      (ap (is_prefix (d ∷ letters)) (get_to-narrow c s (length letters) (narrow c ascii))
        ∙ (is_prefix-cons c d letters (get_to s (length letters))
            ∙ ap (λ b. lower c == d && b) (is_prefix-begins letters s (ground (arith, h)))))
]

prefix_test :
    (prefix letters : Text) (o : Option Text)
    → to_ascii_lowercase prefix ≡ letters
    → (elim o as (λ _. Bool) [ none ↦ false | some t ↦ eq_ignore_ascii_case t prefix ])
      ≡ is_prefix letters o
unfolding eq_ignore_ascii_case
prefix_test prefix letters none same = refl
prefix_test prefix letters (some t) same = ap (text_eq (to_ascii_lowercase t)) same

starts_with-begins :
    (key prefix letters : Text)
    → to_ascii_lowercase prefix ≡ letters
    → length prefix ≡ length letters
    → each_of (λ d. ltb d 0x80) letters ≡ true
    → starts_with_ascii_case_insensitive key prefix ≡ begins letters key
unfolding starts_with_ascii_case_insensitive
starts_with-begins key prefix letters same len ascii =
    prefix_test prefix letters (get_to key (length prefix)) same
    ∙ (ap (λ n. is_prefix letters (get_to key n)) len ∙ is_prefix-begins letters key ascii)

-- What equals a text that begins with the letters begins with them.
head_of : {c d : ℕ} {s t : Text} → ◌≡◌ {A = Text} (c ∷ s) (d ∷ t) → c ≡ d
head_of h = cc h

begins-whole :
    (letters more s : Text) → to_ascii_lowercase s ≡ letters ++ more → begins letters s ≡ true
unfolding begins to_ascii_lowercase
begins-whole [] more s h = refl
begins-whole (d ∷ letters) more [] h = absurd (cc h)
begins-whole (d ∷ letters) more (c ∷ s) h =
    ground (arith, begins-whole letters more s (cc h), head_of h)

covered :
    (letters more key : Text)
    → text_eq (to_ascii_lowercase key) (letters ++ more) ≡ true
    → begins letters key ≡ true
covered letters more key h = begins-whole letters more key ((text_eq_iff _ _).0 h)

held :
    (a b c d e ld dyld bash : Bool)
    → (c ≡ true → ld ≡ true)
    → (d ≡ true → ld ≡ true)
    → (e ≡ true → ld ≡ true)
    → (not (a || (b || (c || (d || (e || false))))) && not (dyld || (ld || (bash || false))))
      ≡ not (a || (b || (ld || (dyld || bash))))
held a b c d e ld dyld bash hc hd he = ground arith

-- A name is kept exactly if it is not held back.
is_kept-is_held_back : (key : Text) → is_kept key ≡ not (is_held_back key)
unfolding is_kept is_held_back blocked_exact blocked_prefixes lit eq_ignore_ascii_case
    to_ascii_lowercase lower
is_kept-is_held_back key =
    let ld = starts_with-begins key (lit "LD_") (lit "ld_") refl refl refl in
    let dyld = starts_with-begins key (lit "DYLD_") (lit "dyld_") refl refl refl in
    let bash = starts_with-begins key (lit "BASH_FUNC_") (lit "bash_func_") refl refl refl in
    rw (ld, dyld, bash)
      (held _ _ _ _ _ _ _ _ (covered (lit "ld_") (lit "preload") key)
        (covered (lit "ld_") (lit "library_path") key) (covered (lit "ld_") (lit "audit") key))

get-keep :
    (key : Text) (env : EnvMap)
    → get key (sanitize_env_vars env) ≡ (if is_kept key then get key env else none)
unfolding sanitize_env_vars
get-keep key [] = ground arith
get-keep key ((k, v) ∷ env) = ground (arith, text_eq_iff k key, get-keep key env)

-- A variable of the request is gone if its name, in any case, is BASH_ENV or ENV or begins with LD_,
-- DYLD_ or BASH_FUNC_, and has its value if not.
pub get-sanitize_env_vars :
    (key : Text) (env : EnvMap)
    → get key (sanitize_env_vars env) ≡ (if is_held_back key then none else get key env)
get-sanitize_env_vars key env =
    get-keep key env ∙ flipped (is_held_back key) (is_kept-is_held_back key)
  where
    flipped :
        (b : Bool)
        → is_kept key ≡ not b
        → ◌≡◌ {A = Option Text}
            (if is_kept key then get key env else none)
            (if b then none else get key env)
    flipped true h = rw h refl
    flipped false h = rw h refl
