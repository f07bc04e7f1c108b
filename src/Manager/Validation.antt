-- ===== src/Manager/Validation.antt =====
-- When the checks of a request and of a policy pass.
use procwarden.Common.{
  When, ◌≡◌, refl, ◌↔◌, true, false, List, [], ◌∷◌, Text, trim, is_empty, All, ok, arith,
}
use procwarden.Policy.{SandboxPolicy, SandboxPathPermission, is_readable}
use procwarden.CapFs.{FileSystem, path_exists, is_dir}
use procwarden.Manager.{
  SandboxCommandRequest, validate_command, validate, validate_permissions,
  validate_policy_allow_paths,
}

-- The command names a program that is not blank.
abbrev pub NamesProgram : List Text → Type 0
NamesProgram [] = ⊥
NamesProgram (program ∷ arguments) = is_empty (trim program) ≡ false

pub validate_command_iff :
    (command : List Text) → (validate_command command ≡ ok tt) ↔ NamesProgram command
unfolding validate_command
validate_command_iff [] = ground arith
validate_command_iff (program ∷ arguments) = ground arith

-- A request passes exactly if it names a program and its working directory exists and is a
-- directory.
pub validate_iff :
    (fs : FileSystem) (request : SandboxCommandRequest)
    → (validate fs request ≡ ok tt) ↔ (
        NamesProgram request.command
        × (path_exists fs request.cwd ≡ true)
        × (is_dir fs request.cwd ≡ true))
unfolding validate
validate_iff fs request = ground (arith, validate_command_iff request.command)

-- A permission that grants something names a path that is not empty and exists.
abbrev pub IsGrantable : FileSystem → SandboxPathPermission → Type 0
IsGrantable fs p =
    When (is_readable p.access) ((is_empty p.path ≡ false) × (path_exists fs p.path ≡ true))

validate_permissions_iff :
    (fs : FileSystem) (ps : List SandboxPathPermission)
    → (validate_permissions fs ps ≡ ok tt) ↔ All (IsGrantable fs) ps
unfolding validate_permissions
validate_permissions_iff fs [] = ((λ _. tt), (λ _. refl))
validate_permissions_iff fs (p ∷ ps) = ground (arith, validate_permissions_iff fs ps)

-- A policy passes exactly if each permission that grants something names an existing path; denied
-- paths are not looked at.
pub validate_policy_allow_paths_iff :
    (fs : FileSystem) (policy : SandboxPolicy)
    → (validate_policy_allow_paths fs policy ≡ ok tt) ↔ All (IsGrantable fs) policy.path_permissions
unfolding validate_policy_allow_paths
validate_policy_allow_paths_iff fs policy = validate_permissions_iff fs policy.path_permissions
