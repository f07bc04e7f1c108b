-- ===== src/Manager.antt =====
-- manager.rs and platform/mod.rs: the checks on a request and a policy, the cleaning of the
-- environment, and the call of the platform's backend.
pub mod Validation
pub mod Environment
pub mod Dispatch
use procwarden.Common.{
  ℕ, Bool, true, false, not, ◌&&◌, ◌||◌, Option, none, some, List, [], ◌∷◌, ◌++◌, Text, lit, trim,
  get_to, eq_ignore_ascii_case, length, is_empty, keep, some_of, Result, ok, err, ◌>>=◌, ◌>>◌,
  if◌then◌else◌,
}
use procwarden.Paths.{PathBuf, display}
use procwarden.Policy.{SandboxPolicy, SandboxPathPermission, is_readable}
use procwarden.CapFs.{FileSystem, path_exists, is_dir}
use procwarden.Output.{SandboxError, invalid_request, SandboxExecOutput}

-- A `HashMap<String, String>`, whose keys are distinct.
abbrev pub EnvMap : Type 0
EnvMap = List (Text × Text)

pub record SandboxCommandRequest : Type 0 where
  pub command : List Text
  pub cwd : PathBuf
  pub env : EnvMap
  pub timeout_ms : Option ℕ

unfoldable pub validate_command : List Text → Result SandboxError (Unit {0})
validate_command [] = err (invalid_request (lit "command must contain at least one token"))
validate_command (program ∷ arguments) =
    if is_empty (trim program)
    then err (invalid_request (lit "command executable must not be empty"))
    else ok tt

unfoldable pub validate : FileSystem → SandboxCommandRequest → Result SandboxError (Unit {0})
unfolding validate_command
validate fs request = do
  validate_command request.command
  if not (path_exists fs request.cwd)
      then err (invalid_request (lit "sandbox cwd does not exist: " ++ display request.cwd))
      else ok tt
  if not (is_dir fs request.cwd)
      then err (invalid_request (lit "sandbox cwd is not a directory: " ++ display request.cwd))
      else ok tt

unfoldable pub validate_permissions :
    FileSystem → List SandboxPathPermission → Result SandboxError (Unit {0})
validate_permissions fs [] = ok tt
validate_permissions fs (permission ∷ rest) =
    let next = validate_permissions fs rest in
    if not (is_readable permission.access)
    then next
    else if is_empty permission.path
    then err (invalid_request (lit "allow path must not be empty"))
    else if not (path_exists fs permission.path)
    then err (invalid_request (lit "allow path does not exist: " ++ display permission.path))
    else next

unfoldable pub validate_policy_allow_paths :
    FileSystem → SandboxPolicy → Result SandboxError (Unit {0})
unfolding validate_permissions
validate_policy_allow_paths fs policy = validate_permissions fs policy.path_permissions

unfoldable pub blocked_exact : List Text
blocked_exact =
    lit "BASH_ENV" ∷ lit "ENV" ∷ lit "LD_PRELOAD" ∷ lit "LD_LIBRARY_PATH" ∷ lit "LD_AUDIT" ∷ []

unfoldable pub blocked_prefixes : List Text
blocked_prefixes = lit "DYLD_" ∷ lit "LD_" ∷ lit "BASH_FUNC_" ∷ []

-- The literals are ASCII, so a literal's length in bytes is its length.
unfoldable pub starts_with_ascii_case_insensitive : Text → Text → Bool
starts_with_ascii_case_insensitive value prefix = elim (get_to value (length prefix)) [
  | none ↦ false
  | some candidate ↦ eq_ignore_ascii_case candidate prefix
]

-- The filter's test on a key.
unfoldable pub is_kept : Text → Bool
is_kept key =
    not (some_of (λ name. eq_ignore_ascii_case key name) blocked_exact)
    && not (some_of (λ prefix. starts_with_ascii_case_insensitive key prefix) blocked_prefixes)

unfoldable pub sanitize_env_vars : EnvMap → EnvMap
sanitize_env_vars env = keep (λ (key, value). is_kept key) env

unfoldable pub sanitized_for_execution : SandboxCommandRequest → SandboxCommandRequest
unfolding sanitize_env_vars
sanitized_for_execution request = record request { env = sanitize_env_vars request.env }

-- The targets that `cfg(target_os)` selects between; no other target compiles.
pub data TargetOs : Type 0 where
  windows linux macos : TargetOs

-- A backend runs in a world of its own: it returns the outcome and the world that it leaves. `none`
-- is a run that has not ended within its fuel, or that blocks.
abbrev pub Outcome : Type 0
Outcome = Option (Result SandboxError SandboxExecOutput)

abbrev pub Backend : Type 0 → Type 0
Backend W = SandboxCommandRequest → SandboxPolicy → W → Outcome × W

unfoldable pub platform_execute : {W : Type 0} → (TargetOs → Backend W) → TargetOs → Backend W
platform_execute backends windows = backends windows
platform_execute backends linux = backends linux
platform_execute backends macos = backends macos

-- The rest of `SandboxManager::execute`, after the checks.
abbrev pub run_checked :
    {W : Type 0}
    → Backend W
    → SandboxCommandRequest
    → SandboxPolicy
    → Result SandboxError (Unit {0})
    → W
    → Outcome × W
run_checked platform request policy (err e) w = (some (err e), w)
run_checked platform request policy (ok _) w = platform (sanitized_for_execution request) policy w

-- `SandboxManager::execute`.
unfoldable pub execute :
    {W : Type 0} → FileSystem → Backend W → SandboxCommandRequest → SandboxPolicy → W → Outcome × W
execute fs platform request policy =
    run_checked platform request policy
      (validate fs request >> validate_policy_allow_paths fs policy)
