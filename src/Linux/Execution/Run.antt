-- ===== src/Linux/Execution/Run.antt =====
-- From an output of `execute` back to the child's sandbox.
use procwarden.Common.{
  ℕ, Bool, true, false, ◌≡◌, refl, Option, none, some, List, Result, ok, err, IoError, arith, ◌>>◌,
}
use procwarden.Policy.{SandboxPolicy}
use procwarden.CapFs.{FileSystem}
use procwarden.Manager as Manager
use procwarden.Manager.{
  SandboxCommandRequest, Outcome, validate, validate_policy_allow_paths, sanitized_for_execution,
}
use procwarden.Manager.Dispatch.{IsAccepted, IsAccepted-checks}
use procwarden.Output.{SandboxError, io, SandboxExecOutput}
use procwarden.CommandRunner.{ProcessGroup, Command, run_command_with_timeout}
use procwarden.Linux.Kernel.{System, Calls}
use procwarden.Linux.Scope.{HostPaths}
use procwarden.Linux.Overlay.{ReadWriteOverlayEntry}
use procwarden.Linux.Execution.{
  mount_overlay_entries, Launch, restrict, with_pre_exec, after_restrict, explain,
  explain_overlay_error, run_with_overlays, execute,
}
use procwarden.Linux.Execution.Sandboxed.{IsSandboxed, restrict_ok}

-- A spawn that the parent takes for a success had a child that was restricted without an error.
after_restrict_ok :
    (launch : Launch) (start : Calls → Result IoError (Unit {0}) × Calls)
    (r : Result IoError (Unit {0})) (calls : Calls)
    → (after_restrict launch start r calls).0 ≡ ok tt
    → r ≡ ok tt
after_restrict_ok launch start (ok _) calls h = refl
after_restrict_ok launch start (err e) calls h = absurd (cc h)

run_ok :
    (group : ProcessGroup Calls) (fuel : ℕ) (command : Command) (timeout_ms : Option ℕ)
    (calls : Calls) (output : SandboxExecOutput)
    → (run_command_with_timeout group fuel command timeout_ms calls).0 ≡ some (ok output)
    → (group.group_spawn command calls).0 ≡ ok tt
unfolding run_command_with_timeout
run_ok group fuel command timeout_ms calls output h = ground arith

explain_ok :
    (system : System) (b : Bool) (r : Outcome × Calls) (output : SandboxExecOutput)
    → (explain system b r).0 ≡ some (ok output)
    → r.0 ≡ some (ok output)
unfolding explain_overlay_error
explain_ok system false r output h = h
explain_ok system true (none, calls) output h = h
explain_ok system true (some (ok o), calls) output h = h
explain_ok system true (some (err (io e)), calls) output h = ground arith
explain_ok system true (some (err e), calls) output h = ground arith

-- A run that ends in an output had a policy whose overlays could be computed; the child had made the
-- sandbox of the policy when it came to
-- close its descriptors and to execute the program.
pub record RanSandboxed (host : HostPaths) (launch : Launch) (policy : SandboxPolicy)
    (calls : Calls) : Type 0 where
  pub entries : List ReadWriteOverlayEntry
  pub computed : mount_overlay_entries host policy ≡ ok entries
  pub restricted : (restrict launch policy entries calls).0 ≡ ok tt
  pub sandboxed : IsSandboxed launch policy entries (restrict launch policy entries calls).1

run_with_overlays-RanSandboxed :
    (host : HostPaths) (launch : Launch) (group : ProcessGroup Calls) (fuel : ℕ)
    (request : SandboxCommandRequest) (policy : SandboxPolicy) (calls : Calls)
    (output : SandboxExecOutput) (entries : Result SandboxError (List ReadWriteOverlayEntry))
    → mount_overlay_entries host policy ≡ entries
    → (run_with_overlays launch group fuel request policy entries calls).0 ≡ some (ok output)
    → RanSandboxed host launch policy calls
unfolding with_pre_exec
run_with_overlays-RanSandboxed host launch group fuel request policy calls output (err e) m h =
    absurd (ground arith)
run_with_overlays-RanSandboxed host launch group fuel request policy calls output (ok entries) m h =
    let spawned = run_ok _ fuel _ request.timeout_ms calls output (explain_ok _ _ _ output h) in
    let restricted =
      after_restrict_ok launch _ (restrict launch policy entries calls).0 _ spawned in
    record {
      entries = entries;
      computed = m;
      restricted = restricted;
      sandboxed = restrict_ok launch policy entries calls restricted;
    }

-- If the Linux backend returns an output, the overlays of the policy could be computed, and before it
-- closed its descriptors the child had made the sandbox of the policy.
pub execute-RanSandboxed :
    (host : HostPaths) (launch : Launch) (group : ProcessGroup Calls) (fuel : ℕ)
    (request : SandboxCommandRequest) (policy : SandboxPolicy) (calls : Calls)
    (output : SandboxExecOutput)
    → (execute host launch group fuel request policy calls).0 ≡ some (ok output)
    → RanSandboxed host launch policy calls
unfolding execute
execute-RanSandboxed host launch group fuel request policy calls output h =
    run_with_overlays-RanSandboxed host launch group fuel request policy calls output _ refl h

checked-RanSandboxed :
    (fs : FileSystem) (host : HostPaths) (launch : Launch) (group : ProcessGroup Calls) (fuel : ℕ)
    (request : SandboxCommandRequest) (policy : SandboxPolicy) (calls : Calls)
    (output : SandboxExecOutput) (r : Result SandboxError (Unit {0}))
    → (validate fs request >> validate_policy_allow_paths fs policy) ≡ r
    → (Manager.run_checked (execute host launch group fuel) request policy r calls).0
      ≡ some (ok output)
    → IsAccepted fs request policy × RanSandboxed host launch policy calls
checked-RanSandboxed fs host launch group fuel request policy calls output (err e) m h =
    absurd (ground arith)
checked-RanSandboxed fs host launch group fuel request policy calls output (ok _) m h = (
  IsAccepted-checks fs (execute host launch group fuel) request policy m,
  execute-RanSandboxed host launch group fuel (sanitized_for_execution request) policy calls output
      h,
)

-- If the manager returns an output on Linux, it has accepted the request and the policy, and the
-- overlays of the policy could be computed. Without an error, and before it closed its descriptors and
-- executed the program, the child had bound over and remounted each overlay with success; unless
-- writing is the default, had installed Landlock with the grants of the policy, no call refused and
-- the ruleset enforced in part at least; and, unless the policy has network access, had applied the
-- network filter with success. That the program was found and executed is not stated: with its error
-- pipe closed, the child cannot tell.
pub manager_execute-RanSandboxed :
    (fs : FileSystem) (host : HostPaths) (launch : Launch) (group : ProcessGroup Calls) (fuel : ℕ)
    (request : SandboxCommandRequest) (policy : SandboxPolicy) (calls : Calls)
    (output : SandboxExecOutput)
    → (Manager.execute fs (execute host launch group fuel) request policy calls).0
      ≡ some (ok output)
    → IsAccepted fs request policy × RanSandboxed host launch policy calls
unfolding Manager.execute
manager_execute-RanSandboxed fs host launch group fuel request policy calls output h =
    checked-RanSandboxed fs host launch group fuel request policy calls output _ refl h
