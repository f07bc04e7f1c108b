-- ===== src/Policy.antt =====
-- policy.rs: access levels, path permissions and the path lists read off a policy.
pub mod Partition
use procwarden.Common.{Bool, true, false, List, [], ◌∷◌, map, keep}
use procwarden.Paths.{PathBuf}

pub data SandboxAccess : Type 0 where
  no_access read_only read_write : SandboxAccess

pub record SandboxPathPermission : Type 0 where
  pub path : PathBuf
  pub access : SandboxAccess

unfoldable pub deny : PathBuf → SandboxPathPermission
deny p = record { path = p; access = no_access }

unfoldable pub allow_read_only : PathBuf → SandboxPathPermission
allow_read_only p = record { path = p; access = read_only }

unfoldable pub allow_read_write : PathBuf → SandboxPathPermission
allow_read_write p = record { path = p; access = read_write }

pub record SandboxPolicy : Type 0 where
  pub path_permissions : List SandboxPathPermission
  pub default_access : SandboxAccess
  pub network_access : Bool

-- `matches!` with one level or two.
abbrev pub is_read_only : SandboxAccess → Bool
is_read_only read_only = true
is_read_only _ = false

abbrev pub is_read_write : SandboxAccess → Bool
is_read_write read_write = true
is_read_write _ = false

abbrev pub is_no_access : SandboxAccess → Bool
is_no_access no_access = true
is_no_access _ = false

abbrev pub is_readable : SandboxAccess → Bool
is_readable no_access = false
is_readable _ = true

unfoldable pub collect_paths : SandboxPolicy → (SandboxAccess → Bool) → List PathBuf
collect_paths policy include =
    map (λ p. p.path) (keep (λ p. include p.access) policy.path_permissions)

unfoldable pub read_only_paths : SandboxPolicy → List PathBuf
unfolding collect_paths
read_only_paths policy = collect_paths policy is_read_only

unfoldable pub read_write_paths : SandboxPolicy → List PathBuf
unfolding collect_paths
read_write_paths policy = collect_paths policy is_read_write

unfoldable pub readable_paths : SandboxPolicy → List PathBuf
unfolding collect_paths
readable_paths policy = collect_paths policy is_readable

unfoldable pub writable_paths : SandboxPolicy → List PathBuf
unfolding read_write_paths
writable_paths policy = read_write_paths policy

unfoldable pub denied_paths : SandboxPolicy → List PathBuf
unfolding collect_paths
denied_paths policy = collect_paths policy is_no_access

unfoldable pub default_read_access : SandboxPolicy → Bool
default_read_access policy = is_readable policy.default_access

unfoldable pub default_write_access : SandboxPolicy → Bool
default_write_access policy = is_read_write policy.default_access
