-- ===== src/Windows/Acl.antt =====
-- platform/windows/acl.rs: entries for the sandbox's SID are added to the access lists of paths, in
-- the plan's order, and the paths are tracked so that dropping the guard takes the entries back.
pub mod Balance
pub mod Entries
pub mod Undoing
pub mod Rollback
pub mod Loops
pub mod Order
use procwarden.Common.{
  ℕ, zero, suc, ◌+◌, ◌*◌, ◌^◌, Bool, true, false, ◌||◌, List, [], ◌∷◌, ◌++◌, Text, lit, decimal,
  ◌==◌, if◌then◌else◌, Result, ok, err,
}
use procwarden.Output.{SandboxError, windows}
use procwarden.Windows.Kernel.{
  System, Answer, fails, gives, Win, pure, ◌>>=◌, ◌>>◌, ◌>>?◌, call, tell, Done, AccessMode,
  set_access, deny_access, revoke_access, Entry, get_named_security_info, get_security_info,
  free_unless_null, set_entries_in_acl, set_named_security_info, set_security_info, open_device,
  local_free, close_handle,
}

-- `FILE_GENERIC_READ`, `FILE_GENERIC_WRITE` and `FILE_GENERIC_EXECUTE`, and their unions.
abbrev pub file_generic_write : ℕ
file_generic_write = 0x120116

abbrev pub read_only_allow_mask : ℕ
read_only_allow_mask = 0x1200a9

abbrev pub read_write_allow_mask : ℕ
read_write_allow_mask = 0x1201bf

abbrev pub no_access_deny_mask : ℕ
no_access_deny_mask = 0x1201bf

pub record AclRollback : Type 0 where
  pub sid : ℕ
  pub paths : List Text

pub record AclAccessPlan : Type 0 where
  pub allow_readonly_paths : List Text
  pub allow_readwrite_paths : List Text
  pub deny_write_paths : List Text
  pub deny_readwrite_paths : List Text

unfoldable pub new : ℕ → AclRollback
new sid = record { sid = sid; paths = [] }

unfoldable pub track : Text → AclRollback → AclRollback
track path rollback = record rollback { paths = rollback.paths ++ (path ∷ []) }

abbrev pub acl_failed : Text → ℕ → Text → SandboxError
acl_failed function code path =
    windows (function ++ (lit " failed with code " ++ (decimal code ++ (lit " for " ++ path))))

-- A result and the guard, which a failure leaves behind to be dropped.
abbrev pub Tracked : Type 0
Tracked = Result SandboxError Done × AclRollback

module _ (s : System) where
  abbrev pub after_store : Text → ℕ → Answer → Win (Result SandboxError Bool)
  after_store path descriptor (fails code) =
      free_unless_null s descriptor
      >> pure (err (acl_failed (lit "SetNamedSecurityInfoW") code path))
  after_store path descriptor (gives _ _) = free_unless_null s descriptor >> pure (ok true)

  abbrev pub after_entries : Text → ℕ → Answer → Win (Result SandboxError Bool)
  after_entries path descriptor (fails code) =
      free_unless_null s descriptor >> pure (err (acl_failed (lit "SetEntriesInAclW") code path))
  after_entries path descriptor (gives new_dacl _) =
      call s (set_named_security_info path new_dacl) >>= λ stored.
      free_unless_null s new_dacl >> after_store path descriptor stored

  abbrev pub after_read : Text → Entry → Answer → Win (Result SandboxError Bool)
  after_read path entry (fails code) =
      pure (err (acl_failed (lit "GetNamedSecurityInfoW") code path))
  after_read path entry (gives descriptor dacl) =
      call s (set_entries_in_acl entry dacl) >>= after_entries path descriptor

  -- `add_allow_access_ace` and `add_deny_access_ace`, which differ in the mode.
  unfoldable pub add_access_ace : AccessMode → Text → ℕ → ℕ → Win (Result SandboxError Bool)
  add_access_ace mode path sid access_mask =
      call s (get_named_security_info path)
      >>= after_read path
          (record { sid = sid; mode = mode; access_mask = access_mask; is_inherited = true })

  unfoldable pub add_allow_access_ace : Text → ℕ → ℕ → Win (Result SandboxError Bool)
  add_allow_access_ace path sid access_mask = add_access_ace set_access path sid access_mask

  unfoldable pub add_deny_access_ace : Text → ℕ → ℕ → Win (Result SandboxError Bool)
  add_deny_access_ace path sid access_mask = add_access_ace deny_access path sid access_mask

  unfoldable pub add_allow_read_write_ace : Text → ℕ → Win (Result SandboxError Bool)
  add_allow_read_write_ace path sid = add_allow_access_ace path sid read_write_allow_mask

  unfoldable pub add_allow_read_only_ace : Text → ℕ → Win (Result SandboxError Bool)
  add_allow_read_only_ace path sid = add_allow_access_ace path sid read_only_allow_mask

  unfoldable pub add_deny_write_ace : Text → ℕ → Win (Result SandboxError Bool)
  add_deny_write_ace path sid = add_deny_access_ace path sid file_generic_write

  unfoldable pub add_deny_no_access_ace : Text → ℕ → Win (Result SandboxError Bool)
  add_deny_no_access_ace path sid = add_deny_access_ace path sid no_access_deny_mask

  abbrev pub revoke_entries : Text → Answer → Win Done
  revoke_entries path (fails code) = pure tt
  revoke_entries path (gives new_dacl _) =
      tell s (set_named_security_info path new_dacl) >> free_unless_null s new_dacl

  -- A failed read leaves the descriptor null, as it was.
  abbrev pub revoke_read : Text → ℕ → Answer → Win Done
  revoke_read path sid (fails code) = pure tt
  revoke_read path sid (gives descriptor dacl) =
      call s (
        set_entries_in_acl
          (record { sid = sid; mode = revoke_access; access_mask = 0; is_inherited = true }) dacl)
      >>= λ entries. revoke_entries path entries >> free_unless_null s descriptor

  unfoldable pub revoke_ace : Text → ℕ → Win Done
  revoke_ace path sid = call s (get_named_security_info path) >>= revoke_read path sid

  unfoldable pub revoke_all : ℕ → List Text → Win Done
  revoke_all sid [] = pure tt
  revoke_all sid (path ∷ paths) = revoke_ace path sid >> revoke_all sid paths

  -- `Drop`
  unfoldable pub drop_rollback : AclRollback → Win Done
  drop_rollback rollback = revoke_all rollback.sid rollback.paths

  abbrev pub null_device_entries : ℕ → Answer → Win Done
  null_device_entries device (fails code) = pure tt
  null_device_entries device (gives new_dacl _) =
      tell s (set_security_info device new_dacl) >> free_unless_null s new_dacl

  abbrev pub null_device_read : ℕ → ℕ → Answer → Win Done
  null_device_read sid device (fails code) = pure tt
  null_device_read sid device (gives descriptor dacl) =
      call s (
        set_entries_in_acl
          (record {
            sid = sid;
            mode = set_access;
            access_mask = read_write_allow_mask;
            is_inherited = false;
          })
          dacl)
      >>= λ entries. null_device_entries device entries >> free_unless_null s descriptor

  abbrev pub null_device_opened : ℕ → Answer → Win Done
  null_device_opened sid (fails code) = pure tt
  null_device_opened sid (gives zero _) = pure tt
  null_device_opened sid (gives (suc n) _) = call s (get_security_info (suc n)) >>= λ a.
      null_device_read sid (suc n) a >> tell s (close_handle (suc n))

  -- `desired` is READ_CONTROL with WRITE_DAC; a handle that is `INVALID_HANDLE_VALUE` is a failure.
  unfoldable pub allow_null_device : ℕ → Win Done
  allow_null_device sid =
      call s (open_device (lit "\\\\.\\NUL") (0x20000 + 0x40000)) >>= null_device_opened sid

  abbrev pub after_added :
      (AclRollback → Win Tracked) → Text → AclRollback → Result SandboxError Bool → Win Tracked
  after_added rest path rollback (ok true) = rest (track path rollback)
  after_added rest path rollback (ok false) = rest rollback
  after_added rest path rollback (err e) = pure (err e, rollback)

  -- One of the four loops: `?` leaves it at the first error.
  unfoldable pub add_each :
      (Text → ℕ → Win (Result SandboxError Bool)) → List Text → AclRollback → Win Tracked
  add_each add [] rollback = pure (ok tt, rollback)
  add_each add (path ∷ paths) rollback =
      add path rollback.sid >>= after_added (λ r. add_each add paths r) path rollback

  abbrev pub after_each : (AclRollback → Win Tracked) → Tracked → Win Tracked
  after_each rest (ok _, rollback) = rest rollback
  after_each rest (err e, rollback) = pure (err e, rollback)

  -- `apply_access_plan` before its guard is dropped or returned: the last loop, the last two, three
  -- and all four.
  unfoldable pub add_readwrite : AclAccessPlan → AclRollback → Win Tracked
  add_readwrite plan rollback =
      add_each add_allow_read_write_ace plan.allow_readwrite_paths rollback

  unfoldable pub add_allowed : AclAccessPlan → AclRollback → Win Tracked
  add_allowed plan rollback =
      add_each add_allow_read_only_ace plan.allow_readonly_paths rollback
      >>= after_each (add_readwrite plan)

  unfoldable pub add_writes : AclAccessPlan → AclRollback → Win Tracked
  add_writes plan rollback =
      add_each add_deny_write_ace plan.deny_write_paths rollback >>= after_each (add_allowed plan)

  unfoldable pub add_plan : AclAccessPlan → ℕ → Win Tracked
  add_plan plan sid =
      add_each add_deny_no_access_ace plan.deny_readwrite_paths (new sid)
      >>= after_each (add_writes plan)

  -- On `?` the guard is dropped.
  abbrev pub after_plan : ℕ → Tracked → Win (Result SandboxError AclRollback)
  after_plan sid (ok _, rollback) = allow_null_device sid >> pure (ok rollback)
  after_plan sid (err e, rollback) = drop_rollback rollback >> pure (err e)

  unfoldable pub apply_access_plan : AclAccessPlan → ℕ → Win (Result SandboxError AclRollback)
  apply_access_plan plan sid = add_plan plan sid >>= after_plan sid

  abbrev pub after_optional : Text → AclRollback → Result SandboxError Bool → AclRollback
  after_optional path rollback (ok true) = track path rollback
  after_optional path rollback _ = rollback

  unfoldable pub optional_each : List Text → AclRollback → Win AclRollback
  optional_each [] rollback = pure rollback
  optional_each (path ∷ paths) rollback = add_allow_read_only_ace path rollback.sid >>= λ added.
      optional_each paths (after_optional path rollback added)

  unfoldable pub apply_optional_readonly_paths : List Text → ℕ → Win AclRollback
  apply_optional_readonly_paths paths sid = optional_each paths (new sid)
