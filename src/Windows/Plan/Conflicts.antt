-- ===== src/Windows/Plan/Conflicts.antt =====
-- What a settled plan does not ask for.
use procwarden.Common.{Bool, true, false, ◌||◌, some_of, text_eq, ◌≡◌, List, Text, All}
use procwarden.Windows.Plan.{AclPlan, casefolded_path, build_casefolded_path_set, contains}

-- No path of the list is one of the others, whatever the case of its letters.
abbrev pub NoneIn : List Text → List Text → Type 0
NoneIn others paths =
    All (λ path. contains (build_casefolded_path_set others) (casefolded_path path) ≡ false) paths

abbrev is_in : List Text → Text → Bool
is_in others path = contains (build_casefolded_path_set others) (casefolded_path path)

abbrev pub is_listed : Text → List Text → Bool
is_listed path paths = some_of (text_eq path) paths

-- In a settled plan, the denied paths are those of the given plan; no path that may be written is
-- denied; no path that may be read is denied or may be written; and writing is denied on no path that
-- is denied or may be written. No other path is lost: a path of the given plan is still there unless it
-- is denied, or may be written where it was to be read or write-denied.
pub record IsSettled (given settled : AclPlan) : Type 0 where
  pub denied : settled.deny_readwrite_paths ≡ given.deny_readwrite_paths
  pub write_denied : NoneIn settled.deny_readwrite_paths settled.allow_readwrite_paths
  pub read_denied : NoneIn settled.deny_readwrite_paths settled.allow_readonly_paths
  pub read_write : NoneIn settled.allow_readwrite_paths settled.allow_readonly_paths
  pub deny_write_denied : NoneIn settled.deny_readwrite_paths settled.deny_write_paths
  pub deny_write_write : NoneIn settled.allow_readwrite_paths settled.deny_write_paths
  pub write_kept :
      All
        (λ path.
          (is_listed path settled.allow_readwrite_paths || is_in settled.deny_readwrite_paths path)
          ≡ true)
        given.allow_readwrite_paths
  pub read_kept :
      All
        (λ path.
          (is_listed path settled.allow_readonly_paths
            || (is_in settled.deny_readwrite_paths path
                || is_in settled.allow_readwrite_paths path))
          ≡ true)
        given.allow_readonly_paths
  pub deny_write_kept :
      All
        (λ path.
          (is_listed path settled.deny_write_paths
            || (is_in settled.deny_readwrite_paths path
                || is_in settled.allow_readwrite_paths path))
          ≡ true)
        given.deny_write_paths
