-- ===== src/Windows/Acl/Rollback.antt =====
-- platform/windows/acl.rs: a plan that fails half-way is taken back.
use procwarden.Common.{ℕ, ◌≡◌, refl, Text, ok, err, arith, inl, subst, sym}
use procwarden.Output.{SandboxError}
use procwarden.Windows.Kernel.{System, Log, pure, ◌>>=◌}
use procwarden.Windows.Acl.{
  AclRollback, Tracked, AclAccessPlan, new, drop_rollback, revoke_all, add_readwrite, add_allowed,
  add_writes, add_plan, after_plan, apply_access_plan, add_deny_no_access_ace, add_deny_write_ace,
  add_deny_access_ace, add_allow_access_ace, add_allow_read_only_ace, add_allow_read_write_ace,
}
use procwarden.Windows.Acl.Entries.{add_access_ace-Outcome}
use procwarden.Windows.Acl.Undoing.{
  CanRevoke, Restored, Held, Guarded, Adds, revoke_all-Undoing, add_each-Guarded, loop-Guarded,
}

module _ (s : System) where
  deny_no_access-Adds : (sid : ℕ) (base : Log) → Adds s sid base (add_deny_no_access_ace s)
  unfolding add_deny_no_access_ace add_deny_access_ace
  deny_no_access-Adds owner base path sid =
      (_, λ log p. add_access_ace-Outcome s p _ path sid _ log)

  deny_write-Adds : (sid : ℕ) (base : Log) → Adds s sid base (add_deny_write_ace s)
  unfolding add_deny_write_ace add_deny_access_ace
  deny_write-Adds owner base path sid = (_, λ log p. add_access_ace-Outcome s p _ path sid _ log)

  read_only-Adds : (sid : ℕ) (base : Log) → Adds s sid base (add_allow_read_only_ace s)
  unfolding add_allow_read_only_ace add_allow_access_ace
  read_only-Adds owner base path sid = (_, λ log p. add_access_ace-Outcome s p _ path sid _ log)

  read_write-Adds : (sid : ℕ) (base : Log) → Adds s sid base (add_allow_read_write_ace s)
  unfolding add_allow_read_write_ace add_allow_access_ace
  read_write-Adds owner base path sid = (_, λ log p. add_access_ace-Outcome s p _ path sid _ log)

  new-Held : (sid : ℕ) (base : Log) → Held sid base (new sid) base
  unfolding new
  new-Held sid base = (
    refl,
    record { written = λ p among. absurd (ground arith); restored = λ p outside. inl refl },
  )

  module _ (plan : AclAccessPlan) (sid : ℕ) (base : Log) where
    add_readwrite-Guarded :
        (r : AclRollback) (log : Log)
        → Held sid base r log
        → Guarded s sid base (add_readwrite s plan r log)
    unfolding add_readwrite
    add_readwrite-Guarded r log h =
        add_each-Guarded s sid base _ _ (read_write-Adds sid base) r log h

    add_allowed-Guarded :
        (r : AclRollback) (log : Log)
        → Held sid base r log
        → Guarded s sid base (add_allowed s plan r log)
    unfolding add_allowed
    add_allowed-Guarded r log h =
        loop-Guarded s sid base _ _ log
          (add_each-Guarded s sid base _ _ (read_only-Adds sid base) r log h) add_readwrite-Guarded

    add_writes-Guarded :
        (r : AclRollback) (log : Log)
        → Held sid base r log
        → Guarded s sid base (add_writes s plan r log)
    unfolding add_writes
    add_writes-Guarded r log h =
        loop-Guarded s sid base _ _ log
          (add_each-Guarded s sid base _ _ (deny_write-Adds sid base) r log h) add_allowed-Guarded

    add_plan-Guarded : Guarded s sid base (add_plan s plan sid base)
    unfolding add_plan
    add_plan-Guarded =
        loop-Guarded s sid base _ _ base
          (add_each-Guarded s sid base _ _ (deny_no_access-Adds sid base) (new sid) base
            (new-Held sid base))
          add_writes-Guarded

  after_plan_restores :
      CanRevoke s
      → (base : Log) (sid : ℕ) (t : Tracked) (log : Log) {e : SandboxError} → Held sid base t.1 log
      → (after_plan s sid t log).0 ≡ err e
      → (p : Text) → Restored sid base p (after_plan s sid t log).1
  unfolding ◌>>=◌ pure drop_rollback
  after_plan_restores can base sid (ok _, r) log h failed p = absurd (cc failed)
  after_plan_restores can base sid (err e, r) log h failed p =
      subst (λ owner. Restored sid base p (revoke_all s owner r.paths log).1) (sym h.0)
        ((revoke_all-Undoing s sid base can r.paths log h.1).restored p refl)

  -- Where taking an entry back is not refused, a plan that fails, at whichever entry, leaves no entry
  -- behind: the last entry of the access list of every path is what it was before, or one that
  -- revokes the entries of the plan's SID.
  pub apply_access_plan-Restored :
      CanRevoke s
      → (plan : AclAccessPlan) (sid : ℕ) (log : Log) {e : SandboxError}
      → (apply_access_plan s plan sid log).0 ≡ err e
      → (p : Text) → Restored sid log p (apply_access_plan s plan sid log).1
  unfolding apply_access_plan ◌>>=◌
  apply_access_plan-Restored can plan sid log failed =
      after_plan_restores can log sid (add_plan s plan sid log).0 (add_plan s plan sid log).1
        (add_plan-Guarded plan sid log) failed
