-- ===== src/Linux/Scope.antt =====
-- platform/linux.rs: paths resolved for comparison, and the denied paths that overlap allowed ones.
use procwarden.Common.{
  Bool, ◌||◌, List, [], ◌∷◌, ◌++◌, none, some, keep, some_of, is_empty, Result, ok, err, IoError,
  ◌>>=◌, traverse, if◌then◌else◌,
}
use mathlib.Core.List.{foldl}
use procwarden.Paths.{
  PathBuf, Component, root_dir, cur_dir, parent_dir, normal, slash, components, is_absolute,
  join_path, parent, starts_with,
}
use procwarden.Output.{SandboxError, from_io}

-- `std::env::current_dir`, `Path::canonicalize` and `Path::exists`, for one state of the file system.
pub record HostPaths : Type 0 where
  pub current_dir : Result IoError PathBuf
  pub canonicalize : PathBuf → Result IoError PathBuf
  pub exists : PathBuf → Bool

-- `PathBuf::pop`: without a parent the path stays.
abbrev pop : PathBuf → PathBuf
pop path = elim (parent path) [ none ↦ path | some dir ↦ dir ]

-- The body of the loop over the components; `as_os_str` of the root is `/`.
unfoldable pub normalize_component : PathBuf → Component → PathBuf
normalize_component normalized cur_dir = normalized
normalize_component normalized parent_dir = pop normalized
normalize_component normalized root_dir = join_path normalized (slash ∷ [])
normalize_component normalized (normal name) = join_path normalized name

unfoldable pub lexically_normalize_path : PathBuf → PathBuf
unfolding normalize_component
lexically_normalize_path path = foldl normalize_component [] (components path)

unfoldable pub paths_overlap : PathBuf → PathBuf → Bool
paths_overlap left right = starts_with left right || starts_with right left

module _ (host : HostPaths) where
  unfoldable pub normalize_scope_path : PathBuf → Result SandboxError PathBuf
  normalize_scope_path path =
      from_io (
        if is_absolute path then ok path else (host.current_dir >>= λ dir. ok (join_path dir path)))
      >>= λ absolute. elim (host.canonicalize absolute) [
        | ok canonical ↦ ok canonical
        | err e ↦ ok (lexically_normalize_path absolute)
      ]

  unfoldable pub collect_overlapping_denied_paths :
      List PathBuf → List PathBuf → List PathBuf → Result SandboxError (List PathBuf)
  collect_overlapping_denied_paths denied_paths readable_roots writable_roots =
      if is_empty denied_paths then ok [] else (do
        normalized_denied ← traverse normalize_scope_path denied_paths
        let allow_roots = readable_roots ++ writable_roots
        if is_empty allow_roots then ok [] else (do
          normalized_allowed ← traverse normalize_scope_path allow_roots
          ok (
              keep (λ denied. some_of (λ allowed. paths_overlap denied allowed) normalized_allowed)
                normalized_denied)))
