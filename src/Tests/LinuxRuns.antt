-- ===== src/Tests/LinuxRuns.antt =====
-- The Linux backend on a system where every call succeeds, and on one that refuses Landlock.
use procwarden.CommandRunner.{read_pipe}
use procwarden.Common.{from_utf8_lossy}
use procwarden.Output.{output_from_utf8_lossy}
use procwarden.Linux.Execution.{explain_overlay_error}
use procwarden.Policy.{writable_paths}
use procwarden.Linux.Mounts.{create_overlay_scratch_root}
use procwarden.Linux.Namespace.{mark_mount_tree_private}
use procwarden.Linux.Namespace.{write_map}
use procwarden.Linux.Namespace.{deny_setgroups}
use procwarden.Linux.Namespace.{configure_current_process_user_namespace_mapping}
use procwarden.Linux.Execution.{with_pre_exec}
use procwarden.CommandRunner.{run_command_with_timeout}
use procwarden.Linux.Namespace.{enter_overlay_mount_namespace}
use procwarden.Linux.Mounts.{install_readwrite_mount_overlays_on_current_process}
use procwarden.Linux.Execution.{pre_exec}
use procwarden.Common.{sort_by}
use procwarden.Linux.Scope.{normalize_scope_path}
use procwarden.Linux.Overlay.{resolve_overlay}
use procwarden.Policy.{denied_paths}
use procwarden.Common.{traverse}
use procwarden.Linux.Overlay.{normalize_existing_overlay_paths}
use procwarden.Policy.{default_read_access}
use procwarden.Policy.{default_write_access}
use procwarden.Linux.Execution.{mount_overlay_entries}
use procwarden.Policy.{allow_read_write}
use procwarden.Policy.{deny}
use procwarden.CapFs.{is_dir}
use procwarden.Paths.{file_name}
use procwarden.Paths.{parent}
use procwarden.CapFs.{path_exists}
use procwarden.Common.{trim}
use procwarden.Linux.Fds.{close_fd_ignore_ebadf}
use procwarden.Linux.Fds.{close_fds}
use procwarden.Linux.Fds.{collect_open_fds_from_proc}
use procwarden.Linux.Fds.{parse_i32}
use procwarden.Linux.Fds.{parse_entries}
use procwarden.Linux.Seccomp.{target_arch}
use procwarden.Linux.Landlock.{check_enforced}
use procwarden.Linux.Landlock.{set_no_new_privs}
use procwarden.Linux.Landlock.{add_read_rules}
use procwarden.Linux.Landlock.{crate_call}
use procwarden.Common.{decimal}
use procwarden.Paths.{join_path}
use procwarden.Linux.Mounts.{placeholder_path}
use procwarden.Linux.Mounts.{create_placeholder}
use procwarden.Linux.Mounts.{apply_deny_bind_mount}
use procwarden.Linux.Mounts.{remount_bind_readonly}
use procwarden.Linux.Kernel.{libc}
use procwarden.Linux.Namespace.{c_path}
use procwarden.Linux.Mounts.{bind_mount}
use procwarden.Linux.Kernel.{std_fs}
use procwarden.Linux.Mounts.{metadata_is_dir}
use procwarden.Linux.Mounts.{apply_readonly_bind_mount}
use procwarden.Linux.Mounts.{apply_overlay}
use mathlib.Core.List.{Perm}
use procwarden.Common.{
  false, ◌&&◌, ◌≡◌, refl, none, some, List, [], ◌∷◌, ◌++◌, map, Text, lit, All, err, if◌then◌else◌,
  keep, not, ErrorKind,
}
use procwarden.Common.Int.{pos}
use procwarden.Output.{SandboxExecOutput}
use procwarden.Manager as Manager
use procwarden.Manager.{sanitized_for_execution}
use procwarden.Manager.Dispatch.{IsAccepted}
use procwarden.Linux.Kernel.{close, read_fd_dir, TargetArch, sys_socket}
use procwarden.Linux.Kernel.Keeps.{Each}
use procwarden.Linux.Kernel.Makes.{AllAccepted}
use procwarden.Linux.Execution.{restrict, is_released}
use procwarden.Linux.Overlay.{
  ReadWriteOverlayEntry, entry, read_only_kind, deny_kind, merge_overlays,
  collect_readwrite_overlay_entries, collect_deny_overlay_entries,
}
use procwarden.Linux.Overlay.Merge.{kind_at, listed, kind_at-merge_overlays}
use procwarden.Linux.Overlay.Order.{DeepestFirst, collect_readwrite_overlay_entries_order}
use procwarden.Linux.Mounts.{apply_overlays}
use procwarden.Linux.Mounts.Installed.{IsMounted, apply_overlays_ok}
use procwarden.Linux.Landlock.{install_filesystem_landlock_rules_on_current_thread}
use procwarden.Linux.Landlock.Granted.{landlock_calls, landlock_ok}
use procwarden.Linux.Seccomp.{
  x86_64, network_filter, install_network_seccomp_filter_on_current_thread,
}
use procwarden.Linux.Seccomp.Table.{
  filter_action, verdict, is_forbidden, is_left_out, filters_for, network_filter_action, seccomp_ok,
}
use procwarden.Linux.Fds.{is_stdio, close_non_stdio_fds_on_current_process}
use procwarden.Linux.Fds.Closing.{
  SparesStdio, close_non_stdio_fds-SparesStdio, close_non_stdio_fds_ok,
}
use procwarden.Linux.Execution.{execute}
use procwarden.Linux.Execution.Run.{RanSandboxed, manager_execute-RanSandboxed}
use procwarden.Linux.Execution.Report.{overlays_unavailable, execute-overlays_unavailable}
use procwarden.Tests.Hosts.{
  request, policy, files, host, system, old_system, compiler, launch, old_launch, quick,
}

abbrev paths : List Text
paths = lit "/a" ∷ lit "/a/b" ∷ []

abbrev entries : List ReadWriteOverlayEntry
entries = entry (lit "/a/b") read_only_kind ∷ entry (lit "/a") deny_kind ∷ []

kind_at-merge_overlays_example : kind_at (lit "/a") (merge_overlays paths (lit "/a" ∷ [])) ≡ (
    if listed (lit "/a") (lit "/a" ∷ [])
    then some deny_kind
    else if listed (lit "/a") paths
    then some read_only_kind
    else none)
kind_at-merge_overlays_example = kind_at-merge_overlays (lit "/a") paths (lit "/a" ∷ [])

collect_readwrite_overlay_entries_order_example :
    Perm
      (collect_readwrite_overlay_entries paths (lit "/c" ∷ []))
      (map (λ (path, kind). entry path kind) (merge_overlays paths (lit "/c" ∷ [])))
    × DeepestFirst (collect_readwrite_overlay_entries paths (lit "/c" ∷ []))
collect_readwrite_overlay_entries_order_example =
    collect_readwrite_overlay_entries_order paths (lit "/c" ∷ [])

apply_overlays_ok_example :
    All (λ e. IsMounted system e (apply_overlays system (lit "/tmp/x") 0 entries []).1) entries
unfolding apply_overlays apply_overlay apply_readonly_bind_mount metadata_is_dir std_fs bind_mount
    c_path lit libc remount_bind_readonly apply_deny_bind_mount create_placeholder placeholder_path
    join_path decimal
apply_overlays_ok_example = apply_overlays_ok system (lit "/tmp/x") 0 entries [] refl

landlock_ok_example :
    (install_filesystem_landlock_rules_on_current_thread system false paths paths []).1
    ≡ [] ++ landlock_calls false paths paths
unfolding install_filesystem_landlock_rules_on_current_thread crate_call add_read_rules
    set_no_new_privs check_enforced
landlock_ok_example = landlock_ok system false paths paths [] refl

network_filter_action_example :
    filter_action (network_filter TargetArch.x86_64) sys_socket (λ i. 2)
    ≡ verdict (is_forbidden sys_socket (λ i. 2) && not (is_left_out sys_socket))
network_filter_action_example = network_filter_action TargetArch.x86_64 sys_socket (λ i. 2)

seccomp_ok_example :
    ((install_network_seccomp_filter_on_current_thread system compiler x86_64 []).1
      ≡ [] ++ filters_for x86_64)
    × AllAccepted system [] (filters_for x86_64)
unfolding install_network_seccomp_filter_on_current_thread target_arch crate_call
seccomp_ok_example = seccomp_ok system compiler x86_64 [] refl

close_non_stdio_fds-SparesStdio_example :
    Each (SparesStdio system) (close_non_stdio_fds_on_current_process system []).1
close_non_stdio_fds-SparesStdio_example = close_non_stdio_fds-SparesStdio system [] tt

close_non_stdio_fds_ok_example :
    (close_non_stdio_fds_on_current_process system []).1
    ≡ ([] ++ (read_fd_dir ∷ [])) ++ map close (keep (λ fd. not (is_stdio fd)) (pos 1 ∷ pos 5 ∷ []))
unfolding parse_entries parse_i32 lit close_non_stdio_fds_on_current_process
    collect_open_fds_from_proc std_fs close_fds is_stdio close_fd_ignore_ebadf libc
close_non_stdio_fds_ok_example =
    close_non_stdio_fds_ok system [] (pos 1 ∷ pos 5 ∷ []) refl refl refl

abbrev output : SandboxExecOutput
output = record {
  exit_code = pos 0;
  stdout = [];
  stderr = [];
  aggregated_output = [];
  duration = 0;
  timed_out = false;
  degraded_mode_reason = none;
}

manager_execute-RanSandboxed_example :
    IsAccepted files request policy × RanSandboxed host launch policy []
unfolding Manager.execute Manager.validate trim lit path_exists parent file_name is_dir
    Manager.validate_policy_allow_paths deny allow_read_write execute mount_overlay_entries
    default_write_access default_read_access normalize_existing_overlay_paths traverse denied_paths
    resolve_overlay normalize_scope_path collect_deny_overlay_entries sort_by
    run_command_with_timeout with_pre_exec pre_exec restrict is_released
    install_readwrite_mount_overlays_on_current_process enter_overlay_mount_namespace libc
    configure_current_process_user_namespace_mapping deny_setgroups std_fs write_map
    mark_mount_tree_private c_path create_overlay_scratch_root apply_overlays apply_overlay
    apply_deny_bind_mount metadata_is_dir create_placeholder bind_mount placeholder_path join_path
    decimal remount_bind_readonly install_filesystem_landlock_rules_on_current_thread crate_call
    add_read_rules set_no_new_privs writable_paths check_enforced
    install_network_seccomp_filter_on_current_thread target_arch
    close_non_stdio_fds_on_current_process collect_open_fds_from_proc parse_entries parse_i32
    close_fds is_stdio close_fd_ignore_ebadf sanitized_for_execution explain_overlay_error
    output_from_utf8_lossy from_utf8_lossy read_pipe
manager_execute-RanSandboxed_example =
    manager_execute-RanSandboxed files host launch quick 3 request policy [] output refl

-- The secret is hidden, and Landlock is missing: the caller is told that overlays are.
execute-overlays_unavailable_example :
    (execute host old_launch quick 3 request policy []).0
    ≡ some (err (overlays_unavailable old_system))
unfolding mount_overlay_entries default_write_access default_read_access
    normalize_existing_overlay_paths traverse denied_paths deny resolve_overlay normalize_scope_path
    lit allow_read_write collect_deny_overlay_entries sort_by pre_exec restrict
    install_readwrite_mount_overlays_on_current_process enter_overlay_mount_namespace libc
    configure_current_process_user_namespace_mapping deny_setgroups std_fs write_map
    mark_mount_tree_private c_path create_overlay_scratch_root apply_overlays apply_overlay
    apply_deny_bind_mount metadata_is_dir create_placeholder bind_mount placeholder_path join_path
    decimal remount_bind_readonly install_filesystem_landlock_rules_on_current_thread crate_call
execute-overlays_unavailable_example =
    execute-overlays_unavailable host old_launch quick 3 request policy []
      (entry (lit "/secret") deny_kind ∷ []) ErrorKind.permission_denied
      (lit "landlock is not supported") refl refl refl
