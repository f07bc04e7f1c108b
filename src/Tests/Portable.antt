-- ===== src/Tests/Portable.antt =====
-- The parts that every platform shares.
use mathlib.Core.List.{Perm}
use procwarden.Common.{
  ℕ, true, if◌then◌else◌, ◌≡◌, ◌↔◌, refl, none, some, [], ◌∷◌, ◌++◌, map, Text, lit,
  to_ascii_lowercase, eq_ignore_ascii_case, get_to, trim, All, ok, err,
}
use procwarden.Policy.{deny, allow_read_write, read_only_paths, read_write_paths, denied_paths}
use procwarden.Paths.{parent, file_name}
use procwarden.CapFs.{path_exists, is_dir}
use procwarden.Policy.Partition.{paths-perm}
use procwarden.Output.{invalid_request}
use procwarden.Manager.{
  Backend, sanitize_env_vars, is_kept, blocked_exact, blocked_prefixes,
  starts_with_ascii_case_insensitive, validate, validate_policy_allow_paths, execute,
}
use procwarden.Manager.Validation.{
  NamesProgram, IsGrantable, validate_iff, validate_policy_allow_paths_iff,
}
use procwarden.Manager.Environment.Blocked.{is_held_back, get-sanitize_env_vars}
use procwarden.Manager.Environment.{get, is_kept-to_ascii_lowercase}
use procwarden.Manager.Dispatch.{IsAccepted, execute-IsAccepted, execute-refused}
use procwarden.Tests.Hosts.{env, request, empty_request, policy, files}

-- The preload is dropped and the rest stays.
sanitize_env : sanitize_env_vars env ≡ (lit "PATH", lit "/bin") ∷ []
unfolding sanitize_env_vars is_kept blocked_exact eq_ignore_ascii_case lit blocked_prefixes
    starts_with_ascii_case_insensitive get_to
sanitize_env = refl

newline : lit "\n" ≡ 10 ∷ []
unfolding lit
newline = refl

-- A backend that counts its runs.
abbrev counting : Backend ℕ
counting r p w = (none, w)

request-IsAccepted : IsAccepted files request policy
unfolding trim lit path_exists parent file_name is_dir deny allow_read_write
request-IsAccepted = record {
  program = refl;
  cwd_exists = refl;
  cwd_is_dir = refl;
  grantable = (tt, ((refl, refl), tt));
}

execute-IsAccepted_example :
    execute files counting request policy 0
    ≡ counting (record request { env = sanitize_env_vars env }) policy 0
execute-IsAccepted_example = execute-IsAccepted files counting request policy 0 request-IsAccepted

empty_request-refused : ¬ IsAccepted files empty_request policy
empty_request-refused a = a.program

execute-refused_example :
    (message : Text) × (execute files counting empty_request policy 5
      ≡ (some (err (invalid_request message)), 5))
execute-refused_example =
    execute-refused files counting empty_request policy 5 empty_request-refused

validate_iff_example : (validate files request ≡ ok tt) ↔ (
    NamesProgram request.command
    × (path_exists files request.cwd ≡ true)
    × (is_dir files request.cwd ≡ true))
validate_iff_example = validate_iff files request

validate_policy_allow_paths_iff_example :
    (validate_policy_allow_paths files policy ≡ ok tt)
    ↔ All (IsGrantable files) policy.path_permissions
validate_policy_allow_paths_iff_example = validate_policy_allow_paths_iff files policy

get-sanitize_env_vars_example :
    get (lit "LD_PRELOAD") (sanitize_env_vars env)
    ≡ (if is_held_back (lit "LD_PRELOAD") then none else get (lit "LD_PRELOAD") env)
get-sanitize_env_vars_example = get-sanitize_env_vars (lit "LD_PRELOAD") env

is_kept-to_ascii_lowercase_example :
    is_kept (to_ascii_lowercase (lit "Ld_Audit")) ≡ is_kept (lit "Ld_Audit")
is_kept-to_ascii_lowercase_example = is_kept-to_ascii_lowercase (lit "Ld_Audit")

paths-perm_example :
    Perm
      (read_only_paths policy ++ (read_write_paths policy ++ denied_paths policy))
      (map (λ p. p.path) policy.path_permissions)
paths-perm_example = paths-perm policy
