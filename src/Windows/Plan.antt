-- ===== src/Windows/Plan.antt =====
-- platform/windows/appcontainer.rs: the plan of access lists and the settling of its conflicts; and
-- cap_fs.rs, the paths without repetitions. Paths are compared by their text in small letters, and
-- are texts here.
pub mod Conflicts
use procwarden.Common.{
  Bool, true, false, not, ◌&&◌, List, [], ◌∷◌, map, Text, text_eq, to_ascii_lowercase, some_of,
  keep, if◌then◌else◌, Result, ok, err, ◌>>=◌, traverse,
}

pub record AclPlan : Type 0 where
  pub allow_readonly_paths : List Text
  pub allow_readwrite_paths : List Text
  pub deny_write_paths : List Text
  pub deny_readwrite_paths : List Text

unfoldable pub casefolded_path : Text → Text
casefolded_path path = to_ascii_lowercase path

unfoldable pub build_casefolded_path_set : List Text → List Text
build_casefolded_path_set paths = map casefolded_path paths

-- `HashSet::contains`
abbrev pub contains : List Text → Text → Bool
contains keys key = some_of (text_eq key) keys

-- `retain` with the paths whose key is not in the set.
abbrev pub retain_outside : List Text → List Text → List Text
retain_outside keys paths = keep (λ path. not (contains keys (casefolded_path path))) paths

unfoldable pub resolve_acl_conflicts : AclPlan → AclPlan
resolve_acl_conflicts plan =
    let deny_readwrite_keys = build_casefolded_path_set plan.deny_readwrite_paths in
    let readwrite = retain_outside deny_readwrite_keys plan.allow_readwrite_paths in
    let readwrite_keys = build_casefolded_path_set readwrite in
    record plan {
      allow_readonly_paths =
          retain_outside readwrite_keys
            (retain_outside deny_readwrite_keys plan.allow_readonly_paths);
      allow_readwrite_paths = readwrite;
      deny_write_paths =
          keep
            (λ path.
              not (contains deny_readwrite_keys (casefolded_path path))
              && not (contains readwrite_keys (casefolded_path path)))
            (retain_outside deny_readwrite_keys plan.deny_write_paths);
    }

-- The loop of `dedupe_paths`; `path_key` is the casefolded path.
unfoldable pub dedupe_from : List Text → List Text → List Text
dedupe_from seen [] = []
dedupe_from seen (path ∷ paths) =
    let skipped = dedupe_from seen paths in
    let pushed = dedupe_from (casefolded_path path ∷ seen) paths in
    if contains seen (casefolded_path path) then skipped else path ∷ pushed

unfoldable pub dedupe_paths : List Text → List Text
dedupe_paths paths = dedupe_from [] paths

unfoldable pub validate_and_dedupe {ℓ} :
    {E : Type ℓ} → (Text → Result E Text) → List Text → Result E (List Text)
validate_and_dedupe validate paths =
    traverse validate paths >>= λ validated. ok (dedupe_paths validated)
