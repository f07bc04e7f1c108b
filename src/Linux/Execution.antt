-- ===== src/Linux/Execution.antt =====
-- platform/linux.rs: `execute`, from the policy to the output.
pub mod Sandboxed
pub mod Run
pub mod Report
use procwarden.Common.{
  ℕ, Bool, true, false, ℤ, pos, negsuc, drop, length, ebadf, not, ◌||◌, ◌&&◌, Option, none, some,
  List, [], ◌∷◌, ◌++◌, Text, lit, is_empty, if◌then◌else◌, ◌==◌, Result, ok, err, IoError, os,
  ErrorKind, kind, raw_os_error, eperm, einval, eopnotsupp, enosys,
}
use procwarden.Paths.{PathBuf}
use procwarden.Policy.{
  SandboxPolicy, SandboxAccess, no_access, read_only, read_write, read_only_paths, readable_paths,
  writable_paths, denied_paths, default_read_access, default_write_access,
}
use procwarden.Manager.{SandboxCommandRequest, Outcome, Backend}
use procwarden.Output.{SandboxError, unavailable, io, SandboxExecOutput}
use procwarden.CommandRunner.{
  Command, ProcessGroup, new_command, configure_piped_stdio, run_command_with_timeout,
}
use procwarden.Linux.Kernel.{System, Calls, Call, close, Os, pure, ◌>>=◌, ◌>>◌}
use procwarden.Linux.Scope.{HostPaths, collect_overlapping_denied_paths}
use procwarden.Linux.Overlay.{
  ReadWriteOverlayEntry, normalize_existing_overlay_paths, overlay_context_label,
  collect_readwrite_overlay_entries, collect_deny_overlay_entries,
}
use procwarden.Linux.Namespace.{display_error}
use procwarden.Linux.Mounts.{install_readwrite_mount_overlays_on_current_process}
use procwarden.Linux.Landlock.{install_filesystem_landlock_rules_on_current_thread, when}
use procwarden.Linux.Seccomp.{
  Seccompiler, BuildArch, install_network_seccomp_filter_on_current_thread,
}
use procwarden.Linux.Fds.{close_non_stdio_fds_on_current_process}

unfoldable pub is_overlay_namespace_unavailable_error : IoError → Bool
is_overlay_namespace_unavailable_error e = elim (kind e) [
  | ErrorKind.permission_denied ↦ true
  | ErrorKind.unsupported ↦ true
  | _ ↦ elim (raw_os_error e) [
    | none ↦ false
    | some code ↦ code == eperm || code == eopnotsupp || code == einval || code == enosys
  ]
]

infixl 5 ◌then_try◌
abbrev ◌then_try◌ {ℓ κ} :
    {A : Type ℓ} {B : Type κ}
    → Result SandboxError A
    → (A → Result SandboxError B)
    → Result SandboxError B
ok a then_try f = f a
err e then_try f = err e

-- Calls with the two labels that exist; the third would panic, and no caller asks for it.
abbrev context_label : SandboxAccess → Text
context_label access = elim (overlay_context_label access) [ none ↦ [] | some label ↦ label ]

-- The overlay entries of a policy: what the rights that Landlock grants cannot take away.
unfoldable pub mount_overlay_entries :
    HostPaths → SandboxPolicy → Result SandboxError (List ReadWriteOverlayEntry)
mount_overlay_entries host policy =
    if default_write_access policy
    then (normalize_existing_overlay_paths host (read_only_paths policy) (lit "read_only")
          (context_label read_write)
        then_try λ read_only_overlays.
            normalize_existing_overlay_paths host (denied_paths policy) (lit "deny")
              (context_label read_write)
            then_try λ deny_overlays.
                ok (collect_readwrite_overlay_entries read_only_overlays deny_overlays))
    else if default_read_access policy
    then (normalize_existing_overlay_paths host (denied_paths policy) (lit "deny")
          (context_label read_only)
        then_try λ deny_overlays. ok (collect_deny_overlay_entries deny_overlays))
    else (collect_overlapping_denied_paths host (denied_paths policy) (readable_paths policy)
          (writable_paths policy)
        then_try λ overlapping.
            normalize_existing_overlay_paths host overlapping (lit "deny")
              (lit "default_access=NoAccess with overlapping deny overlays")
            then_try λ deny_overlays. ok (collect_deny_overlay_entries deny_overlays))

-- What the child is given beside the policy. `error_pipe` is the descriptor by which std's child tells
-- its parent that a closure or the execution of the program has failed.
pub record Launch : Type 0 where
  pub system : System
  pub compiler : Seccompiler
  pub build : BuildArch
  pub host_uid : ℕ
  pub host_gid : ℕ
  pub error_pipe : ℤ

-- The closure of `pre_exec`, which the child runs between fork and exec, up to the closing of the
-- descriptors.
unfoldable pub restrict : Launch → SandboxPolicy → List ReadWriteOverlayEntry → Os (Unit {0})
restrict launch policy entries = do
  when launch.system (not (is_empty entries)) (
      install_readwrite_mount_overlays_on_current_process launch.system entries launch.host_uid
        launch.host_gid)
  when launch.system (not (default_write_access policy)) (
      install_filesystem_landlock_rules_on_current_thread launch.system (default_read_access policy)
        (readable_paths policy) (writable_paths policy))
  when launch.system (not policy.network_access)
      (install_network_seccomp_filter_on_current_thread launch.system launch.compiler launch.build)

-- The whole closure.
unfoldable pub pre_exec : Launch → SandboxPolicy → List ReadWriteOverlayEntry → Os (Unit {0})
pre_exec launch policy entries =
    restrict launch policy entries >> close_non_stdio_fds_on_current_process launch.system

-- The child reports the failure of a closure to its parent as a bare code: its own, or `EINVAL`.
unfoldable pub reported_error : IoError → IoError
reported_error e = elim (raw_os_error e) [ none ↦ os einval | some code ↦ os code ]

abbrev same_fd : ℤ → ℤ → Bool
same_fd (pos m) (pos n) = m == n
same_fd (negsuc m) (negsuc n) = m == n
same_fd _ _ = false

abbrev closes : ℤ → Call → Bool
closes fd (close n) = same_fd fd n
closes fd _ = false

-- Linux releases a descriptor whatever `close` returns, unless it was not open.
abbrev releases : Option ℕ → Bool
releases none = true
releases (some code) = not (code == ebadf)

-- One of the calls, made after the calls `before`, has released the descriptor.
unfoldable pub is_released : System → ℤ → Calls → Calls → Bool
is_released s fd before [] = false
is_released s fd before (c ∷ calls) =
    (closes fd c && releases (s.errno_of before c)) || is_released s fd (before ++ (c ∷ [])) calls

-- A failure that the child cannot report is a success to the parent.
abbrev pub unless_released : Bool → Result IoError (Unit {0}) → Result IoError (Unit {0})
unless_released true r = ok tt
unless_released false r = r

-- The end of the closure, and then the execution of the program: both report by the error pipe, if
-- the closing of the descriptors has left it open.
abbrev pub after_closing :
    Launch
    → (Calls → Result IoError (Unit {0}) × Calls)
    → Calls
    → Result IoError (Unit {0})
    → Calls
    → Result IoError (Unit {0}) × Calls
after_closing launch start before (ok _) calls =
    let (started, calls') = start calls in
    (
      unless_released
          (is_released launch.system launch.error_pipe before (drop (length before) calls)) started,
      calls',
    )
after_closing launch start before (err e) calls = (
  unless_released (is_released launch.system launch.error_pipe before (drop (length before) calls))
      (err (reported_error e)),
  calls,
)

-- The descriptors are closed only if the child has been restricted; until then the error pipe is open.
abbrev pub after_restrict :
    Launch
    → (Calls → Result IoError (Unit {0}) × Calls)
    → Result IoError (Unit {0})
    → Calls
    → Result IoError (Unit {0}) × Calls
after_restrict launch start (ok _) calls =
    let (r, calls') = close_non_stdio_fds_on_current_process launch.system calls in
    after_closing launch start calls r calls'
after_restrict launch start (err e) calls = (err (reported_error e), calls)

-- The process group whose child runs the closure first. The world is the list of calls.
unfoldable pub with_pre_exec :
    Launch → SandboxPolicy → List ReadWriteOverlayEntry → ProcessGroup Calls → ProcessGroup Calls
with_pre_exec launch policy entries group = record group {
  group_spawn = λ command calls.
      let (r, calls') = restrict launch policy entries calls in
      after_restrict launch (group.group_spawn command) r calls';
}

-- The `match` on the outcome when overlays were to be installed.
unfoldable pub explain_overlay_error :
    System → Result SandboxError SandboxExecOutput → Result SandboxError SandboxExecOutput
explain_overlay_error system (ok output) = ok output
explain_overlay_error system (err (io e)) =
    if is_overlay_namespace_unavailable_error e
    then err (
        unavailable (
          lit
            "linux path overlays require mount-namespace support (CLONE_NEWUSER/CLONE_NEWNS or CAP_SYS_ADMIN): "
          ++ display_error system e))
    else err (io e)
explain_overlay_error system (err e) = err e

abbrev pub explain : System → Bool → Outcome × Calls → Outcome × Calls
explain system false outcome = outcome
explain system true (none, calls) = (none, calls)
explain system true (some r, calls) = (some (explain_overlay_error system r), calls)

-- `Command::new(&request.command[0])` panics on an empty command, which validation refuses; the
-- model then has the empty program.
abbrev program_of : List Text → Text
program_of [] = []
program_of (program ∷ arguments) = program

abbrev arguments_of : List Text → List Text
arguments_of [] = []
arguments_of (program ∷ arguments) = arguments

unfoldable pub linux_command : SandboxCommandRequest → Command
linux_command request = configure_piped_stdio (
    new_command (program_of request.command) (arguments_of request.command) request.cwd request.env)

-- The rest of `execute`, once the overlays are known.
abbrev pub run_with_overlays :
    Launch
    → ProcessGroup Calls
    → ℕ
    → SandboxCommandRequest
    → SandboxPolicy
    → Result SandboxError (List ReadWriteOverlayEntry)
    → Calls
    → Outcome × Calls
run_with_overlays launch group fuel request policy (err e) calls = (some (err e), calls)
run_with_overlays launch group fuel request policy (ok entries) calls =
    explain launch.system (not (is_empty entries)) (
      run_command_with_timeout (with_pre_exec launch policy entries group) fuel
        (linux_command request) request.timeout_ms calls)

unfoldable pub execute : HostPaths → Launch → ProcessGroup Calls → ℕ → Backend Calls
execute host launch group fuel request policy =
    run_with_overlays launch group fuel request policy (mount_overlay_entries host policy)
