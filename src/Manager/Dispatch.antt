-- ===== src/Manager/Dispatch.antt =====
-- What `SandboxManager::execute` hands to the backend.
use procwarden.Common.{
  ◌≡◌, refl, sym, Bool, true, false, not, List, [], ◌∷◌, Text, trim, is_empty, All, Result, some,
  ok, err, arith, ◌>>◌, if◌then◌else◌,
}
use procwarden.Policy.{SandboxPolicy, SandboxPathPermission, is_readable}
use procwarden.CapFs.{FileSystem, path_exists, is_dir}
use procwarden.Output.{SandboxError, invalid_request}
use procwarden.Manager.{
  SandboxCommandRequest, validate_command, validate, validate_permissions,
  validate_policy_allow_paths, sanitize_env_vars, sanitized_for_execution, Backend, execute,
}
use procwarden.Manager.Validation.{
  NamesProgram, IsGrantable, validate_iff, validate_policy_allow_paths_iff,
}

-- What the checks ask of a request and of a policy.
pub record IsAccepted (fs : FileSystem) (request : SandboxCommandRequest) (policy : SandboxPolicy)
    : Type 0 where
  pub program : NamesProgram request.command
  pub cwd_exists : path_exists fs request.cwd ≡ true
  pub cwd_is_dir : is_dir fs request.cwd ≡ true
  pub grantable : All (IsGrantable fs) policy.path_permissions

-- Passed, or refused as an invalid request.
abbrev Verdict : Result SandboxError (Unit {0}) → Type 0
Verdict (ok _) = Unit
Verdict (err (invalid_request message)) = Unit
Verdict (err _) = ⊥

if-Verdict :
    (b : Bool) (x y : Result SandboxError (Unit {0}))
    → Verdict x
    → Verdict y
    → Verdict (if b then x else y)
if-Verdict true x y h k = h
if-Verdict false x y h k = k

>>-Verdict : (m k : Result SandboxError (Unit {0})) → Verdict m → Verdict k → Verdict (m >> k)
>>-Verdict (ok _) k h v = v
>>-Verdict (err e) k h v = h

validate_command-Verdict : (command : List Text) → Verdict (validate_command command)
unfolding validate_command
validate_command-Verdict [] = tt
validate_command-Verdict (program ∷ arguments) = if-Verdict (is_empty (trim program)) _ _ tt tt

validate-Verdict :
    (fs : FileSystem) (request : SandboxCommandRequest) → Verdict (validate fs request)
unfolding validate
validate-Verdict fs request = >>-Verdict _ _ (validate_command-Verdict request.command) (
    >>-Verdict _ _ (if-Verdict (not (path_exists fs request.cwd)) _ _ tt tt)
      (if-Verdict (not (is_dir fs request.cwd)) _ _ tt tt))

validate_permissions-Verdict :
    (fs : FileSystem) (ps : List SandboxPathPermission) → Verdict (validate_permissions fs ps)
unfolding validate_permissions
validate_permissions-Verdict fs [] = tt
validate_permissions-Verdict fs (p ∷ ps) =
    if-Verdict (not (is_readable p.access)) _ _ (validate_permissions-Verdict fs ps) (
      if-Verdict (is_empty p.path) _ _ tt
        (if-Verdict (not (path_exists fs p.path)) _ _ tt (validate_permissions-Verdict fs ps)))

checks-Verdict :
    (fs : FileSystem) (request : SandboxCommandRequest) (policy : SandboxPolicy)
    → Verdict (validate fs request >> validate_policy_allow_paths fs policy)
unfolding validate_policy_allow_paths
checks-Verdict fs request policy =
    >>-Verdict _ _ (validate-Verdict fs request)
      (validate_permissions-Verdict fs policy.path_permissions)

module _ {W : Type 0} (fs : FileSystem) (platform : Backend W) where
  -- Accepted requests reach the backend once, with nothing changed but the environment.
  pub execute-IsAccepted :
      (request : SandboxCommandRequest) (policy : SandboxPolicy) (w : W)
      → IsAccepted fs request policy
      → execute fs platform request policy w
        ≡ platform (record request { env = sanitize_env_vars request.env }) policy w
  unfolding execute sanitized_for_execution
  execute-IsAccepted request policy w a = rw (
    (validate_iff fs request).1 (a.program, a.cwd_exists, a.cwd_is_dir),
    (validate_policy_allow_paths_iff fs policy).1 a.grantable,
    execute,
  )

  pub IsAccepted-checks :
      (request : SandboxCommandRequest) (policy : SandboxPolicy)
      → (validate fs request >> validate_policy_allow_paths fs policy) ≡ ok tt
      → IsAccepted fs request policy
  IsAccepted-checks request policy h =
      let v = (validate_iff fs request).0 (ground arith) in
      let p = (validate_policy_allow_paths_iff fs policy).0 (ground arith) in
      record { program = v.0; cwd_exists = v.1; cwd_is_dir = v.2; grantable = p }

  refused :
      (r : Result SandboxError (Unit {0})) (request : SandboxCommandRequest)
      (policy : SandboxPolicy) (w : W)
      → r ≡ (validate fs request >> validate_policy_allow_paths fs policy)
      → Verdict r
      → ¬ IsAccepted fs request policy
      → (message : Text) × (execute fs platform request policy w
          ≡ (some (err (invalid_request message)), w))
  unfolding execute
  refused (ok _) request policy w e v n = absurd (n (IsAccepted-checks request policy (sym e)))
  refused (err (invalid_request message)) request policy w e v n = (message, rw (← e, execute))
  refused (err _) request policy w e v n = absurd v

  -- Any other request is refused as invalid, and the backend's world is left as it was.
  pub execute-refused :
      (request : SandboxCommandRequest) (policy : SandboxPolicy) (w : W)
      → ¬ IsAccepted fs request policy
      → (message : Text) × (execute fs platform request policy w
          ≡ (some (err (invalid_request message)), w))
  execute-refused request policy w n =
      refused _ request policy w refl (checks-Verdict fs request policy) n
