-- ===== src/Windows/Environment/Required.antt =====
-- What the child's environment holds.
use procwarden.Common.{
  true, ap, subst, ◌≡◌, ◌≢◌, refl, Option, none, some, List, [], ◌∷◌, Text, text_eq, text_eq_iff,
  to_ascii_lowercase, eq_ignore_ascii_case, some_of, arith, Bool-cases, inl, inr, ◌⊎◌, ◌∙◌, trim,
  lit,
}
use mathlib.Core.Option
use procwarden.Manager.{EnvMap}
use procwarden.Manager.Environment.{get}
use procwarden.Windows.Environment.{
  is_null_device, normalize_value, normalize_null_device_env, has_env_key_case_insensitive, require,
  merge_required,
}

get-normalized :
    (key : Text) (env : EnvMap)
    → get key (normalize_null_device_env env) ≡ Option.map normalize_value (get key env)
unfolding normalize_null_device_env
get-normalized key [] = refl
get-normalized key ((k, v) ∷ env) = ground (arith, get-normalized key env)

-- The value, without the white space around it and whatever the case of its letters, is the null
-- device of Unix, with slashes or as the text \\dev\null.
abbrev pub NamesNull : Text → Type 0
NamesNull value =
    (to_ascii_lowercase (trim value) ≡ lit "/dev/null")
    ⊎ (to_ascii_lowercase (trim value) ≡ lit "\\\\dev\\null")

is_null_device-NamesNull : (value : Text) → is_null_device value ≡ true → NamesNull value
unfolding is_null_device
is_null_device-NamesNull value null =
    elim (Bool-cases (text_eq (to_ascii_lowercase (trim value)) (lit "/dev/null"))) [
      | inl is ↦ inl ((text_eq_iff _ _).0 is)
      | inr isnt ↦ inr ((text_eq_iff _ _).0 (ground (arith, isnt, null)))
    ]

NamesNull-is_null_device : (value : Text) → NamesNull value → is_null_device value ≡ true
unfolding is_null_device
NamesNull-is_null_device value (inl is) = rw ((text_eq_iff _ _).1 is) refl
NamesNull-is_null_device value (inr is) = ground (arith, (text_eq_iff _ _).1 is)

normalize_value_cases :
    (value : Text)
    → (NamesNull value × (normalize_value value ≡ lit "NUL"))
      ⊎ ((¬ NamesNull value) × (normalize_value value ≡ value))
normalize_value_cases value = elim (Bool-cases (is_null_device value)) [
  | inl null ↦ inl (is_null_device-NamesNull value null, rw null refl)
  | inr other ↦
      inr (λ names. ground (arith, NamesNull-is_null_device value names, other), rw other refl)
]

-- A variable that has a value still has one: `NUL` if the value names the null device of Unix, and
-- its own if not.
pub get-normalize_null_device_env :
    (key value : Text) (env : EnvMap)
    → get key env ≡ some value
    → (NamesNull value × (get key (normalize_null_device_env env) ≡ some (lit "NUL")))
      ⊎ ((¬ NamesNull value) × (get key (normalize_null_device_env env) ≡ some value))
get-normalize_null_device_env key value env h = elim (normalize_value_cases value) [
  | inl (null, e) ↦ inl (null, get-normalized key env ∙ rw (h, e) refl)
  | inr (other, e) ↦ inr (other, get-normalized key env ∙ rw (h, e) refl)
]

eq_ignore_ascii_case_refl : (s t : Text) → s ≡ t → eq_ignore_ascii_case s t ≡ true
unfolding eq_ignore_ascii_case
eq_ignore_ascii_case_refl s t h = (text_eq_iff _ _).1 (ap to_ascii_lowercase h)

-- A name that is there is found without regard to case.
has_env_key-get :
    (env : EnvMap) (key value : Text)
    → get key env ≡ some value
    → has_env_key_case_insensitive env key ≡ true
unfolding has_env_key_case_insensitive
has_env_key-get [] key value h = absurd (ground arith)
has_env_key-get ((k, v) ∷ env) key value h =
    ground
      (arith, text_eq_iff k key, eq_ignore_ascii_case_refl k key, has_env_key-get env key value)

get-require :
    (var : Text → Option Text) (name : Text) (env : EnvMap) (key value : Text)
    → get key env ≡ some value
    → get key (require var name env) ≡ some value
get-require var name env key value h =
    ground (arith, text_eq_iff name key, has_env_key-get env key value h)

-- A variable that the caller has set keeps its value.
pub get-merge_required :
    (var : Text → Option Text) (names : List Text) (env : EnvMap) (key value : Text)
    → get key env ≡ some value
    → get key (merge_required var names env) ≡ some value
unfolding merge_required
get-merge_required var [] env key value h = h
get-merge_required var (name ∷ names) env key value h =
    get-merge_required var names (require var name env) key value
      (get-require var name env key value h)

has_env_key-require :
    (var : Text → Option Text) (name : Text) (env : EnvMap) (key : Text)
    → has_env_key_case_insensitive env key ≡ true
    → has_env_key_case_insensitive (require var name env) key ≡ true
unfolding has_env_key_case_insensitive
has_env_key-require var name env key h = ground arith

has_env_key-merge_required :
    (var : Text → Option Text) (names : List Text) (env : EnvMap) (key : Text)
    → has_env_key_case_insensitive env key ≡ true
    → has_env_key_case_insensitive (merge_required var names env) key ≡ true
unfolding merge_required
has_env_key-merge_required var [] env key h = h
has_env_key-merge_required var (name ∷ names) env key h =
    has_env_key-merge_required var names (require var name env) key
      (has_env_key-require var name env key h)

require-has_env_key :
    (var : Text → Option Text) (name : Text) (env : EnvMap)
    → var name ≢ none
    → has_env_key_case_insensitive (require var name env) name ≡ true
unfolding has_env_key_case_insensitive
require-has_env_key var name env h = ground (arith, eq_ignore_ascii_case_refl name name refl)

-- A listed variable that the host has is there afterwards, in some spelling of its name.
merge_required-has_env_key :
    (var : Text → Option Text) (names : List Text) (env : EnvMap) (name : Text)
    → some_of (text_eq name) names ≡ true
    → var name ≢ none
    → has_env_key_case_insensitive (merge_required var names env) name ≡ true
unfolding merge_required
merge_required-has_env_key var [] env name listed h = absurd (ground arith)
merge_required-has_env_key var (n ∷ names) env name listed h = elim (Bool-cases (text_eq name n)) [
  | inl same ↦ has_env_key-merge_required var names (require var n env) name (
      subst (λ k. has_env_key_case_insensitive (require var k env) name ≡ true)
        ((text_eq_iff name n).0 same) (require-has_env_key var name env h))
  | inr other ↦
      merge_required-has_env_key var names (require var n env) name (ground (arith, other, listed))
        h
]
