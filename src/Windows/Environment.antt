-- ===== src/Windows/Environment.antt =====
-- platform/windows/util.rs and process.rs: the environment of a child.
pub mod Required
use Prim.Native.Nat.{Ordering}
use procwarden.Common.{
  ℕ, ◌+◌, ◌-◌, ◌/◌, ◌%◌, Bool, true, false, not, ◌&&◌, ◌||◌, Option, none, some, List, [], ◌∷◌,
  ◌++◌, map, Text, lit, text_eq, trim, to_ascii_lowercase, eq_ignore_ascii_case, is_empty, keep,
  some_of, unwrap_or, if◌then◌else◌, leb, ◌==◌, sort_by,
}
use procwarden.Paths.{compare_texts}
use procwarden.Manager.{EnvMap}
use procwarden.Manager.Environment.{get}

unfoldable pub is_null_device : Text → Bool
is_null_device value =
    let lowered = to_ascii_lowercase (trim value) in
    text_eq lowered (lit "/dev/null") || text_eq lowered (lit "\\\\dev\\null")

abbrev pub normalize_value : Text → Text
normalize_value value = if is_null_device value then lit "NUL" else value

unfoldable pub normalize_null_device_env : EnvMap → EnvMap
normalize_null_device_env [] = []
normalize_null_device_env ((key, value) ∷ env) =
    (key, normalize_value value) ∷ normalize_null_device_env env

-- `HashMap::entry(..).or_insert(..)`
unfoldable pub or_insert : Text → Text → EnvMap → EnvMap
or_insert key value env = elim (get key env) [ none ↦ (key, value) ∷ env | some old ↦ env ]

unfoldable pub ensure_non_interactive_pager : EnvMap → EnvMap
ensure_non_interactive_pager env =
    or_insert (lit "LESS") []
      (or_insert (lit "PAGER") (lit "more.com") (or_insert (lit "GIT_PAGER") (lit "more.com") env))

unfoldable pub has_env_key_case_insensitive : EnvMap → Text → Bool
has_env_key_case_insensitive env key =
    some_of (λ (entry : Text × Text). eq_ignore_ascii_case entry.0 key) env

abbrev pub required_keys : List Text
required_keys =
    lit "SystemRoot"
    ∷ lit "WINDIR"
    ∷ lit "PATH"
    ∷ lit "PATHEXT"
    ∷ lit "TEMP"
    ∷ lit "TMP"
    ∷ lit "COMSPEC"
    ∷ lit "USERPROFILE"
    ∷ lit "APPDATA"
    ∷ lit "LOCALAPPDATA"
    ∷ []

-- A round of the loop over the required names. The name is not there yet, so that inserting is
-- adding; `var` is `std::env::var`, with nothing for an error.
abbrev pub require : (Text → Option Text) → Text → EnvMap → EnvMap
require var key env =
    if has_env_key_case_insensitive env key
    then env
    else elim (var key) [ none ↦ env | some value ↦ (key, value) ∷ env ]

unfoldable pub merge_required : (Text → Option Text) → List Text → EnvMap → EnvMap
merge_required var [] env = env
merge_required var (key ∷ keys) env = merge_required var keys (require var key env)

unfoldable pub upper : ℕ → ℕ
upper c = if leb 97 c && leb c 122 then c - 32 else c

unfoldable pub to_ascii_uppercase : Text → Text
unfolding upper
to_ascii_uppercase s = map upper s

abbrev not_greater : Ordering → Ordering → Bool
not_greater Ordering.lt second = true
not_greater Ordering.gt second = false
not_greater Ordering.eq Ordering.gt = false
not_greater Ordering.eq _ = true

-- By the name in capitals, and then by the name.
unfoldable pub entry_le : Text × Text → Text × Text → Bool
entry_le left right =
    not_greater (compare_texts (to_ascii_uppercase left.0) (to_ascii_uppercase right.0))
      (compare_texts left.0 right.0)

-- The UTF-16 code units of a string.
unfoldable pub encode_wide : Text → List ℕ
encode_wide [] = []
encode_wide (c ∷ s) =
    let rest = encode_wide s in
    if leb 0x10000 c
    then (0xd800 + (c - 0x10000) / 0x400) ∷ (0xdc00 + (c - 0x10000) % 0x400) ∷ rest
    else c ∷ rest

unfoldable pub block_entries : List (Text × Text) → List ℕ
block_entries [] = 0 ∷ []
block_entries ((key, value) ∷ pairs) =
    encode_wide (key ++ (lit "=" ++ value)) ++ (0 ∷ block_entries pairs)

unfoldable pub make_env_block : EnvMap → List ℕ
make_env_block env =
    let out = block_entries (sort_by entry_le env) in if is_empty env then out ++ (0 ∷ []) else out

unfoldable pub environment_block_for_create_process :
    (Text → Option Text) → EnvMap → Option (List ℕ)
environment_block_for_create_process var env =
    let merged = merge_required var required_keys env in
    if is_empty merged then none else some (make_env_block merged)

-- `str::split` at one character.
unfoldable pub split_at : ℕ → Text → List Text
split_at sep [] = [] ∷ []
split_at sep (c ∷ s) = elim (split_at sep s) [
  | [] ↦ [] ∷ []
  | part ∷ parts ↦ if c == sep then [] ∷ part ∷ parts else (c ∷ part) ∷ parts
]

abbrev or_else_some {ℓ} : {A : Type ℓ} → Option A → Option A → Option A
or_else_some (some a) other = some a
or_else_some none other = other

abbrev pub or_default : Option Text → Text → Text
or_default (some a) fallback = a
or_default none fallback = fallback

unfoldable pub path_extensions : (Text → Option Text) → EnvMap → List Text
path_extensions var env =
    keep (λ part. not (is_empty part))
      (map trim (
        split_at 59 (
          or_default (or_else_some (get (lit "PATHEXT") env) (var (lit "PATHEXT")))
            (lit ".COM;.EXE;.BAT;.CMD"))))
