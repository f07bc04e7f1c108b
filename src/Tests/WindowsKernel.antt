-- ===== src/Tests/WindowsKernel.antt =====
-- Runs of the Windows backend's calls on small systems.
use procwarden.Windows.Acl.Balance.{access_lists-Moves}
use procwarden.Windows.Acl.{apply_optional_readonly_paths, drop_rollback, new}
use procwarden.Windows.Acl.{track}
use procwarden.Windows.Acl.{add_readwrite}
use procwarden.Windows.Acl.{add_allow_access_ace}
use procwarden.Windows.Acl.{add_allow_read_only_ace}
use procwarden.Windows.Acl.{add_allowed}
use procwarden.Windows.Acl.{add_deny_write_ace}
use procwarden.Windows.Acl.{add_writes}
use procwarden.Windows.Kernel.{pure}
use procwarden.Windows.Kernel.{call}
use procwarden.Windows.Acl.{add_access_ace}
use procwarden.Windows.Acl.{add_deny_access_ace}
use procwarden.Windows.Acl.{add_deny_no_access_ace}
use procwarden.Windows.Acl.{add_each}
use procwarden.Windows.Acl.{add_plan}
use procwarden.Windows.Kernel.{◌>>=◌}
use procwarden.Common.{
  suc, ◌+◌, ◌<◌, ◌≤◌, ◌≡◌, ◌≢◌, refl, ◌↔◌, ◌%◌, ◌^◌, ◌-◌, true, false, none, some, [], ◌∷◌, lit,
  length, ok, ErrorKind, arith,
}
use procwarden.Windows.Kernel.{
  System, Call, Answer, fails, gives, Log, AccessMode, set_access, deny_access, revoke_access,
  set_entries_in_acl, wait_for_single_object, create_job_object,
}
use procwarden.Windows.Kernel.Holds.{Moves, if_ok}
use procwarden.Windows.Acl.{AclAccessPlan, AclRollback, apply_access_plan}
use procwarden.Windows.Acl.Entries.{last_entry}
use procwarden.Windows.Acl.Undoing.{CanRevoke, Restored}
use procwarden.Windows.Acl.Rollback.{apply_access_plan-Restored}
use procwarden.Windows.Acl.Order.{planned, plan_paths, apply_access_plan-last_entry}
use procwarden.Windows.Process.{
  run_process_in_appcontainer, setup_stdio_pipes, create_job_kill_on_close,
}
use procwarden.Windows.Process.Timeout.{wait_timeout, infinite, wait_timeout_bounds}
use procwarden.Windows.Process.Handles.{leaked, run_process_in_appcontainer-Moves}
use procwarden.Windows.Elevation.{stop_helper}
use procwarden.Windows.Elevation.Stop.{ends, removals, stop_helper-ends}
use procwarden.Windows.Filters.{
  install_filters, block_layers, NetworkFilterGuard, wfp_session, drop_network_guard,
  install_block_all_network_filters,
}
use procwarden.Windows.Filters.Atomic.{Decides, block_filters, install_filters-atomic}
use procwarden.Windows.Filters.Owned
use procwarden.Windows.Filters.Owned.{install_block_all_network_filters-Moves}
use procwarden.Windows.Profile.{
  AppContainerContext, create_appcontainer_context_with_network, drop_context,
}
use procwarden.Windows.Profile.Owned.{sid_resource, create_appcontainer_context-Moves}
use procwarden.Windows.Elevated.{ElevatedOpsSpec}
use procwarden.Windows.Elevated.Spawn.{spawn}
use procwarden.Windows.Elevated.Spawn.Ends.{spawn_ends}

-- A system by its answers.
abbrev answering : (Log → Call → Answer) → System
answering answer = record {
  answer = answer;
  strerror = λ code. lit "refused";
  var = λ name. none;
  pid = 7;
  random = length;
  temp_dir = lit "C:\\Temp";
  contents = λ log path. ok (lit "ok");
  wide_text = λ log p. lit "S-1-15-2";
  delay = length;
  kind_of = λ e. ErrorKind.other;
  display_io = λ e. lit "refused";
  chunks = λ log handle. (104 ∷ 105 ∷ []) ∷ [];
}

-- Every value is new, and a process that is waited for has exited.
abbrev agreed : Log → Call → Answer
agreed log (wait_for_single_object _ _) = gives 0 0
agreed log _ = gives (suc (length log)) (100 + length log)

abbrev agreeable : System
agreeable = answering agreed

abbrev entry_answer : AccessMode → Answer
entry_answer set_access = fails 5
entry_answer deny_access = gives 13 0
entry_answer revoke_access = gives 14 0

-- Entries that allow are refused.
abbrev denies_allowing : Log → Call → Answer
denies_allowing log (set_entries_in_acl e _) = entry_answer e.mode
denies_allowing log _ = gives 11 12

abbrev strict : System
strict = answering denies_allowing

strict-CanRevoke : CanRevoke strict
strict-CanRevoke = record {
  read_again = λ log path e h. (11, 12, refl);
  merge = λ log e dacl h. (14, 0, rw h refl);
  store = λ log path e dacl h k. (11, 12, refl);
}

abbrev small_plan : AclAccessPlan
small_plan = record {
  allow_readonly_paths = lit "C:\\b" ∷ [];
  allow_readwrite_paths = [];
  deny_write_paths = lit "C:\\b" ∷ [];
  deny_readwrite_paths = lit "C:\\a" ∷ [];
}

apply_access_plan-Restored_example :
    Restored 3 [] (lit "C:\\a") (apply_access_plan strict small_plan 3 []).1
unfolding apply_access_plan ◌>>=◌ add_plan add_each add_deny_no_access_ace add_deny_access_ace
    add_access_ace call pure add_writes add_deny_write_ace add_allowed add_allow_read_only_ace
    add_allow_access_ace
apply_access_plan-Restored_example =
    apply_access_plan-Restored strict strict-CanRevoke small_plan 3 [] refl (lit "C:\\a")

abbrev agreed_rollback : AclRollback
agreed_rollback = record { sid = 3; paths = lit "C:\\a" ∷ lit "C:\\b" ∷ lit "C:\\b" ∷ [] }

apply_access_plan-last_entry_example :
    (last_entry (lit "C:\\b") (apply_access_plan agreeable small_plan 3 []).1
      ≡ planned (lit "C:\\b") small_plan 3 none)
    × (agreed_rollback.paths ≡ plan_paths small_plan)
    × (agreed_rollback.sid ≡ 3)
unfolding apply_access_plan ◌>>=◌ add_plan add_each add_deny_no_access_ace add_deny_access_ace
    add_access_ace call pure add_writes add_deny_write_ace add_allowed add_allow_read_only_ace
    add_allow_access_ace add_readwrite track new
apply_access_plan-last_entry_example =
    apply_access_plan-last_entry agreeable (lit "C:\\b") small_plan 3 [] {r = agreed_rollback} refl

wait_timeout_bounds_example :
    (wait_timeout (some 4294967300) < 2 ^ 32)
    × ((wait_timeout (some 4294967300) ≡ 4294967300) ↔ (4294967300 < 2 ^ 32))
    × (2 ^ 32 ≤ 4294967300 → wait_timeout (some 4294967300) < 4294967300)
    × (wait_timeout none ≡ infinite)
    × ((wait_timeout (some 4294967300) ≡ infinite) ↔ (4294967300 % 2 ^ 32 ≡ 2 ^ 32 - 1))
wait_timeout_bounds_example = wait_timeout_bounds (some 4294967300) 4294967300

-- Jobs are refused.
abbrev without_jobs : Log → Call → Answer
without_jobs log create_job_object = fails 8
without_jobs log c = agreed log c

abbrev jobless : System
jobless = answering without_jobs

run_process_in_appcontainer-Moves_example :
    Moves []
      (leaked
        (setup_stdio_pipes jobless []).0
        (create_job_kill_on_close jobless (setup_stdio_pipes jobless []).1).0)
      []
      (run_process_in_appcontainer jobless 3
        (lit "C:\\a.exe")
        (lit "a" ∷ [])
        (lit "C:\\")
        []
        (some 5)
        false
        []).1
run_process_in_appcontainer-Moves_example =
    run_process_in_appcontainer-Moves jobless 3 (lit "C:\\a.exe") (lit "a" ∷ []) (lit "C:\\") []
      (some 5) false []

stop_helper-ends_example :
    (ends 9 [] < ends 9 (stop_helper agreeable 9 (lit "stop") (lit "dir") []).1)
    × (removals (lit "dir") (stop_helper agreeable 9 (lit "stop") (lit "dir") []).1 ≡ 1)
stop_helper-ends_example = stop_helper-ends agreeable 9 (lit "stop") (lit "dir") []

install_filters-atomic_example :
    Decides (block_filters block_layers 4 3 0) [] 6 (install_filters agreeable 6 4 3 [])
install_filters-atomic_example = install_filters-atomic agreeable 6 4 3 []

abbrev session_guard : NetworkFilterGuard
session_guard = wfp_session (record { session_engine = 6; app_id_blob = 4 })

install_block_all_network_filters-Moves_example :
    (Moves []
      (if_ok Owned.owned (install_block_all_network_filters agreeable (lit "a.exe") 3 []).0)
      []
      (install_block_all_network_filters agreeable (lit "a.exe") 3 []).1)
    × (Moves (Owned.owned session_guard) [] [] (drop_network_guard agreeable session_guard []).1)
install_block_all_network_filters-Moves_example =
    install_block_all_network_filters-Moves agreeable (lit "a.exe") 3 session_guard []

abbrev made_context : AppContainerContext
made_context = record { sid = 3; profile_name = lit "procwarden_7_0"; profile_created = true }

create_appcontainer_context-Moves_example :
    (Moves []
      (if_ok sid_resource (create_appcontainer_context_with_network agreeable true []).0)
      []
      (create_appcontainer_context_with_network agreeable true []).1)
    × (Moves (sid_resource made_context) [] [] (drop_context agreeable made_context []).1)
create_appcontainer_context-Moves_example =
    create_appcontainer_context-Moves agreeable true made_context []

abbrev ops_spec : ElevatedOpsSpec
ops_spec = record {
  sid_string = lit "S-1-15-2";
  executable = lit "C:\\a.exe";
  block_network = true;
  allow_readonly_paths = lit "C:\\b" ∷ [];
  allow_readwrite_paths = [];
  deny_write_paths = [];
  deny_readwrite_paths = [];
}

spawn_ends_example : (spawn agreeable (lit "script") ops_spec []).0 ≢ none
spawn_ends_example = spawn_ends agreeable (lit "script") (λ c a log. omega arith) ops_spec []

access_lists-Moves_example :
    (Moves [] [] [] (apply_access_plan strict small_plan 3 []).1)
    × (Moves [] [] [] (apply_optional_readonly_paths strict (lit "C:\\b" ∷ []) 3 []).1)
    × (Moves [] [] [] (drop_rollback strict agreed_rollback []).1)
access_lists-Moves_example =
    access_lists-Moves strict small_plan (lit "C:\\b" ∷ []) 3 agreed_rollback []
