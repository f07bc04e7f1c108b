-- ===== src/Windows/Scan.antt =====
-- platform/windows/appcontainer.rs: what the backend refuses of a policy, and how it finds paths in
-- the arguments of a command; and from process.rs, the errors after which it goes on without a
-- child-process policy.
pub mod Segments
use procwarden.Common.{
  ℕ, Bool, true, false, ◌&&◌, ◌||◌, ltb, Option, none, some, List, [], ◌∷◌, ◌++◌, Text, lit,
  strip_prefix, some_of, is_empty, ◌==◌, if◌then◌else◌, Result, ok, err,
}
use procwarden.Common.Int.{ℤ, pos, negsuc}
use procwarden.Policy.{SandboxPolicy}
use procwarden.Output.{SandboxError, invalid_request}

unfoldable pub validate_policy_shape : SandboxPolicy → Result SandboxError (Unit {0})
validate_policy_shape policy =
    if policy.network_access
    then err (
        invalid_request (
          lit
            "windows backend cannot safely enforce network_access=true with current AppContainer profile configuration; use network_access=false"))
    else ok tt

abbrev pub apostrophe : ℕ
apostrophe = 39

-- `if !buffer.is_empty() { segments.push(buffer) }`
abbrev pub push_segment : Text → List Text → List Text
push_segment buffer segments = if is_empty buffer then segments else buffer ∷ segments

-- The two loops as a state: outside quotes, inside them with what was read so far, and inside them
-- after an apostrophe that may be doubled. A segment that is not closed ends with the input.
pub data Scan : Type 0 where
  outside : Scan
  inside closing : Text → Scan

unfoldable pub scan_segments : Scan → Text → List Text
scan_segments outside [] = []
scan_segments (inside buffer) [] = push_segment buffer []
scan_segments (closing buffer) [] = push_segment buffer []
scan_segments outside (c ∷ s) =
    let opened = scan_segments (inside []) s in
    let skipped = scan_segments outside s in if c == apostrophe then opened else skipped
scan_segments (inside buffer) (c ∷ s) =
    let closed = scan_segments (closing buffer) s in
    let longer = scan_segments (inside (buffer ++ (c ∷ []))) s in
    if c == apostrophe then closed else longer
scan_segments (closing buffer) (c ∷ s) =
    let doubled = scan_segments (inside (buffer ++ (apostrophe ∷ []))) s in
    let done = push_segment buffer (scan_segments outside s) in
    if c == apostrophe then doubled else done

unfoldable pub single_quoted_segments : Text → List Text
single_quoted_segments input = scan_segments outside input

abbrev is_some {ℓ} : {A : Type ℓ} → Option A → Bool
is_some none = false
is_some (some a) = true

abbrev begins_with : Text → Text → Bool
begins_with argument prefix = is_some (strip_prefix argument prefix)

-- The second byte is a colon: the first character must then be one byte long.
abbrev has_drive_colon : Text → Bool
has_drive_colon [] = false
has_drive_colon (c ∷ []) = false
has_drive_colon (c ∷ d ∷ s) = ltb c 128 && d == 58

unfoldable pub looks_like_filesystem_path : Text → Bool
looks_like_filesystem_path argument =
    begins_with argument (lit "/")
    || (begins_with argument (lit "./")
        || (begins_with argument (lit "../")
            || (begins_with argument (lit ".\\")
                || (begins_with argument (lit "..\\")
                    || (some_of (λ c. c == 92) argument || has_drive_colon argument)))))

unfoldable pub child_policy_degrade_allowed : ℤ → Bool
child_policy_degrade_allowed (pos code) = code == 5 || (code == 24 || (code == 87 || code == 50))
child_policy_degrade_allowed (negsuc n) = false
