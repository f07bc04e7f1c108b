-- ===== src/Windows/Acl/Balance.antt =====
-- platform/windows/acl.rs: the handles and the memory that the operations on access lists take.
use procwarden.Common.{
  ℕ, zero, suc, ◌+◌, lit, Bool, true, false, List, [], ◌∷◌, ◌++◌, Text, Result, ok, err,
}
use procwarden.Output.{SandboxError}
use procwarden.Windows.Kernel.{System, Log, Answer, fails, gives, Win, AccessMode, open_device}
use procwarden.Windows.Kernel.Holds.{
  Holds, nothing, Moves, Holds-bind, Holds-call, Holds-null_handle, opens,
}
use procwarden.Windows.Kernel.Holds.Rules.{holds_rules, Holds-last}
use procwarden.Windows.Acl.{
  Tracked, new, track, add_readwrite, add_allowed, add_writes, add_plan, after_plan,
  apply_access_plan, after_optional, optional_each, apply_optional_readonly_paths,
  add_deny_no_access_ace, add_deny_write_ace, add_deny_access_ace, add_allow_access_ace,
  add_allow_read_only_ace, add_allow_read_write_ace, after_added, add_each, after_each,
  null_device_opened, allow_null_device, drop_rollback, revoke_all, add_access_ace, revoke_ace,
  AclRollback, AclAccessPlan,
}

module _ (s : System) where
  add_access_ace-Holds :
      (mode : AccessMode) (path : Text) (sid access_mask : ℕ)
      → Holds [] nothing (add_access_ace s mode path sid access_mask)
  unfolding add_access_ace
  add_access_ace-Holds mode path sid access_mask = search holds_rules depth 20

  revoke_ace-Holds : (path : Text) (sid : ℕ) → Holds [] nothing (revoke_ace s path sid)
  unfolding revoke_ace
  revoke_ace-Holds path sid = search holds_rules depth 20

  revoke_all-Holds : (sid : ℕ) (paths : List Text) → Holds [] nothing (revoke_all s sid paths)
  unfolding revoke_all
  revoke_all-Holds sid [] = search holds_rules
  revoke_all-Holds sid (path ∷ paths) =
      Holds-bind (revoke_ace-Holds path sid) λ _. revoke_all-Holds sid paths

  drop_rollback-Holds : (rollback : AclRollback) → Holds [] nothing (drop_rollback s rollback)
  unfolding drop_rollback
  drop_rollback-Holds rollback = revoke_all-Holds rollback.sid rollback.paths

  null_device_opened-Holds :
      (sid : ℕ) (a : Answer)
      → Holds
          (opens (open_device (lit "\\\\.\\NUL") (0x20000 + 0x40000)) a ++ [])
          nothing
          (null_device_opened s sid a)
  null_device_opened-Holds sid (fails code) = search holds_rules
  null_device_opened-Holds sid (gives zero x) = Holds-null_handle (search holds_rules)
  null_device_opened-Holds sid (gives (suc n) x) = Holds-last _ (search holds_rules depth 20)

  allow_null_device-Holds : (sid : ℕ) → Holds [] nothing (allow_null_device s sid)
  unfolding allow_null_device
  allow_null_device-Holds sid = Holds-call s [] _ (null_device_opened-Holds sid)

  read_only : (path : Text) (sid : ℕ) → Holds [] nothing (add_allow_read_only_ace s path sid)
  unfolding add_allow_read_only_ace add_allow_access_ace
  read_only path sid = add_access_ace-Holds _ path sid _

  no_access : (path : Text) (sid : ℕ) → Holds [] nothing (add_deny_no_access_ace s path sid)
  unfolding add_deny_no_access_ace add_deny_access_ace
  no_access path sid = add_access_ace-Holds _ path sid _

  deny_write : (path : Text) (sid : ℕ) → Holds [] nothing (add_deny_write_ace s path sid)
  unfolding add_deny_write_ace add_deny_access_ace
  deny_write path sid = add_access_ace-Holds _ path sid _

  read_write : (path : Text) (sid : ℕ) → Holds [] nothing (add_allow_read_write_ace s path sid)
  unfolding add_allow_read_write_ace add_allow_access_ace
  read_write path sid = add_access_ace-Holds _ path sid _

  after_added-Holds :
      (rest : AclRollback → Win Tracked)
      → ((r : AclRollback) → Holds [] nothing (rest r))
      → (path : Text) (rollback : AclRollback) (r : Result SandboxError Bool)
      → Holds [] nothing (after_added s rest path rollback r)
  after_added-Holds rest h path rollback (ok true) = h (track path rollback)
  after_added-Holds rest h path rollback (ok false) = h rollback
  after_added-Holds rest h path rollback (err e) = search holds_rules

  add_each-Holds :
      (add : Text → ℕ → Win (Result SandboxError Bool))
      → ((path : Text) (sid : ℕ) → Holds [] nothing (add path sid))
      → (paths : List Text) (rollback : AclRollback)
      → Holds [] nothing (add_each s add paths rollback)
  unfolding add_each
  add_each-Holds add h [] rollback = search holds_rules
  add_each-Holds add h (path ∷ paths) rollback =
      Holds-bind (h path rollback.sid)
        (after_added-Holds _ (add_each-Holds add h paths) path rollback)

  after_each-Holds :
      (rest : AclRollback → Win Tracked)
      → ((r : AclRollback) → Holds [] nothing (rest r))
      → (t : Tracked) → Holds [] nothing (after_each s rest t)
  after_each-Holds rest h (ok _, rollback) = h rollback
  after_each-Holds rest h (err e, rollback) = search holds_rules

  add_plan-Holds : (plan : AclAccessPlan) (sid : ℕ) → Holds [] nothing (add_plan s plan sid)
  unfolding add_plan add_writes add_allowed add_readwrite
  add_plan-Holds plan sid = Holds-bind (add_each-Holds _ no_access _ _) (
      after_each-Holds _ λ r. Holds-bind (add_each-Holds _ deny_write _ r) (
        after_each-Holds _ λ r'.
          Holds-bind (add_each-Holds _ read_only _ r')
            (after_each-Holds _ λ r''. add_each-Holds _ read_write _ r'')))

  after_plan-Holds : (sid : ℕ) (t : Tracked) → Holds [] nothing (after_plan s sid t)
  after_plan-Holds sid (ok _, rollback) =
      Holds-bind (allow_null_device-Holds sid) λ _. search holds_rules
  after_plan-Holds sid (err e, rollback) =
      Holds-bind (drop_rollback-Holds rollback) λ _. search holds_rules

  apply_access_plan-Holds :
      (plan : AclAccessPlan) (sid : ℕ) → Holds [] nothing (apply_access_plan s plan sid)
  unfolding apply_access_plan
  apply_access_plan-Holds plan sid = Holds-bind (add_plan-Holds plan sid) (after_plan-Holds sid)

  optional_each-Holds :
      (paths : List Text) (rollback : AclRollback)
      → Holds [] nothing (optional_each s paths rollback)
  unfolding optional_each
  optional_each-Holds [] rollback = search holds_rules
  optional_each-Holds (path ∷ paths) rollback =
      Holds-bind (read_only path rollback.sid)
        λ added. optional_each-Holds paths (after_optional s path rollback added)

  apply_optional_readonly_paths-Holds :
      (paths : List Text) (sid : ℕ) → Holds [] nothing (apply_optional_readonly_paths s paths sid)
  unfolding apply_optional_readonly_paths
  apply_optional_readonly_paths-Holds paths sid = optional_each-Holds paths (new sid)

  -- The operations on access lists close every handle and free all the memory that they take,
  -- whatever the system answers: a plan, the optional paths and the revocation by a guard.
  pub access_lists-Moves :
      (plan : AclAccessPlan) (paths : List Text) (sid : ℕ) (rollback : AclRollback) (log : Log)
      → (Moves [] [] log (apply_access_plan s plan sid log).1)
        × (Moves [] [] log (apply_optional_readonly_paths s paths sid log).1)
        × (Moves [] [] log (drop_rollback s rollback log).1)
  access_lists-Moves plan paths sid rollback log = (
    (apply_access_plan-Holds plan sid).at log,
    (apply_optional_readonly_paths-Holds paths sid).at log,
    (drop_rollback-Holds rollback).at log,
  )
