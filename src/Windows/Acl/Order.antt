-- ===== src/Windows/Acl/Order.antt =====
-- platform/windows/acl.rs: the entries that a plan leaves when it succeeds. A later loop's entry
-- replaces an earlier one's.
use procwarden.Common.{ℕ, ◌≡◌, sym, ◌∙◌, ap, Option, List, ◌++◌, Text, Result, ok, err}
use procwarden.Output.{SandboxError}
use procwarden.Windows.Kernel.{System, Log, pure, ◌>>=◌, set_access, deny_access, Entry}
use procwarden.Windows.Acl.{
  AclRollback, Tracked, AclAccessPlan, new, add_readwrite, add_allowed, add_writes, add_plan,
  after_plan, apply_access_plan, file_generic_write, read_only_allow_mask, read_write_allow_mask,
  no_access_deny_mask,
}
use procwarden.Windows.Acl.Entries.{last_entry}
use procwarden.Windows.Acl.Loops.{
  entry, laid, Ends, allow_null_device-last_entry, add_each-Laid, loop-Ends, deny_no_access-Sets,
  deny_write-Sets, read_only-Sets, read_write-Sets,
}

-- The last entry of `p` after a plan: what each loop leaves, the last one first.
abbrev pub planned : Text → AclAccessPlan → ℕ → Option Entry → Option Entry
planned p plan sid older =
    laid p (entry sid set_access read_write_allow_mask) plan.allow_readwrite_paths (
      laid p (entry sid set_access read_only_allow_mask) plan.allow_readonly_paths (
        laid p (entry sid deny_access file_generic_write) plan.deny_write_paths
          (laid p (entry sid deny_access no_access_deny_mask) plan.deny_readwrite_paths older)))

-- The paths of a plan, in the order of the loops.
abbrev pub plan_paths : AclAccessPlan → List Text
plan_paths plan =
    plan.deny_readwrite_paths
    ++ (plan.deny_write_paths ++ (plan.allow_readonly_paths ++ plan.allow_readwrite_paths))

ok_injective : {A : Type 0} {a b : A} → Path (Result SandboxError A) (ok a) (ok b) → a ≡ b
ok_injective e = cc e

module _ (s : System) (p : Text) (plan : AclAccessPlan) where
  abbrev after_rw : ℕ → Option Entry → Option Entry
  after_rw sid = laid p (entry sid set_access read_write_allow_mask) plan.allow_readwrite_paths

  abbrev after_ro : ℕ → Option Entry → Option Entry
  after_ro sid older =
      after_rw sid
        (laid p (entry sid set_access read_only_allow_mask) plan.allow_readonly_paths older)

  abbrev after_dw : ℕ → Option Entry → Option Entry
  after_dw sid older =
      after_ro sid (laid p (entry sid deny_access file_generic_write) plan.deny_write_paths older)

  add_readwrite-Ends :
      (r : AclRollback) (log : Log)
      → Ends s p
          (after_rw r.sid (last_entry p log))
          (r.paths ++ plan.allow_readwrite_paths)
          r.sid
          (add_readwrite s plan r log)
  unfolding add_readwrite
  add_readwrite-Ends r log =
      add_each-Laid s p (λ sid. entry sid set_access read_write_allow_mask) _ (read_write-Sets s p)
        _ r log

  add_allowed-Ends :
      (r : AclRollback) (log : Log)
      → Ends s p
          (after_ro r.sid (last_entry p log))
          (r.paths ++ (plan.allow_readonly_paths ++ plan.allow_readwrite_paths))
          r.sid
          (add_allowed s plan r log)
  unfolding add_allowed
  add_allowed-Ends r log =
      loop-Ends s p _ _ after_rw plan.allow_readwrite_paths add_readwrite-Ends _
        plan.allow_readonly_paths (last_entry p log) r log
        (add_each-Laid s p (λ sid. entry sid set_access read_only_allow_mask) _ (read_only-Sets s p)
          _ r log)

  add_writes-Ends :
      (r : AclRollback) (log : Log)
      → Ends s p
          (after_dw r.sid (last_entry p log))
          (r.paths
            ++ (plan.deny_write_paths ++ (plan.allow_readonly_paths ++ plan.allow_readwrite_paths)))
          r.sid
          (add_writes s plan r log)
  unfolding add_writes
  add_writes-Ends r log =
      loop-Ends s p _ _ after_ro _ add_allowed-Ends _ plan.deny_write_paths (last_entry p log) r log
        (add_each-Laid s p (λ sid. entry sid deny_access file_generic_write) _ (deny_write-Sets s p)
          _ r log)

  add_plan-Ends :
      (sid : ℕ) (log : Log)
      → Ends s p
          (planned p plan sid (last_entry p log))
          (plan_paths plan)
          sid
          (add_plan s plan sid log)
  unfolding add_plan new
  add_plan-Ends sid log =
      loop-Ends s p _ _ after_dw _ add_writes-Ends _ plan.deny_readwrite_paths (last_entry p log)
        (new sid) log
        (add_each-Laid s p (λ sid. entry sid deny_access no_access_deny_mask) _
          (deny_no_access-Sets s p) _ (new sid) log)

  after_plan-Ends :
      (sid : ℕ) (last : Option Entry) (paths : List Text) (t : Tracked) (log : Log)
      {r : AclRollback}
      → Ends s p last paths sid (t, log)
      → (after_plan s sid t log).0 ≡ ok r
      → (last_entry p (after_plan s sid t log).1 ≡ last) × (r.paths ≡ paths) × (r.sid ≡ sid)
  unfolding ◌>>=◌ pure
  after_plan-Ends sid last paths (ok _, r') log h e =
      let same = ok_injective e in
      (
        allow_null_device-last_entry s p sid log ∙ h.0,
        ap (λ r. r.paths) (sym same) ∙ h.1,
        ap (λ r. r.sid) (sym same) ∙ h.2,
      )
  after_plan-Ends sid last paths (err _, r') log h e = absurd (cc e)

  -- A plan that succeeds leaves on the access list of every path the entry of the last loop that
  -- names the path, in the order no access, no write, read-only, read-write, and leaves the list
  -- alone where none does: a path that is both write-denied and read-only ends with the read-only
  -- entry alone set last. The guard tracks the paths of the four loops in that order, for the SID.
  pub apply_access_plan-last_entry :
      (sid : ℕ) (log : Log) {r : AclRollback}
      → (apply_access_plan s plan sid log).0 ≡ ok r
      → (last_entry p (apply_access_plan s plan sid log).1 ≡ planned p plan sid (last_entry p log))
        × (r.paths ≡ plan_paths plan)
        × (r.sid ≡ sid)
  unfolding apply_access_plan ◌>>=◌
  apply_access_plan-last_entry sid log done =
      after_plan-Ends sid _ _ (add_plan s plan sid log).0 (add_plan s plan sid log).1
        (add_plan-Ends sid log) done
