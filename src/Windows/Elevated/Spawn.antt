-- ===== src/Windows/Elevated/Spawn.antt =====
-- platform/windows/elevated_ops.rs: the helper that sets access lists and firewall rules with
-- administrator's rights, and its guard.
pub mod Ends
use procwarden.Common.{
  ℕ, zero, suc, ◌+◌, ◌*◌, Bool, true, false, Option, none, some, List, [], ◌∷◌, ◌++◌, Text, lit,
  decimal, if◌then◌else◌, Result, ok, err, IoError, os,
}
use procwarden.Output.{SandboxError, io}
use procwarden.Windows.Elevated.{
  ElevatedOpsSpec, Helper, serialize_acl_spec, wait_until_initialized,
}
use procwarden.Windows.Environment.{or_default}
use procwarden.Windows.Kernel.{
  System, Answer, fails, gives, Log, Win, pure, asks, ◌>>=◌, ◌>>◌, call, tell, Done, write_file,
  create_dir_all, remove_dir_all, remove_file, read_to_string,
}
use procwarden.Windows.Elevation.{
  join, quote_windows_arg, shell_execute, try_wait_exit_code, stop_helper,
}

pub record ElevatedOpsGuard : Type 0 where
  pub process : ℕ
  pub workspace_dir : Text
  pub stop_file : Text
  pub ready_file : Text
  pub progress_file : Text

-- A flag of the command line and its value.
abbrev argument : Text → Text → Text
argument flag value = flag ++ quote_windows_arg value

unfoldable pub elevated_powershell_parameters :
    Text → Text → Text → Text → Text → Text → Text → Text → Text → Bool → Text
elevated_powershell_parameters script_path spec_path stop_file ready_file progress_file executable
      out_rule_name in_rule_name sid_string block_network =
    argument (lit "-NoProfile -NonInteractive -ExecutionPolicy Bypass -WindowStyle Hidden -File ")
      script_path
    ++ (argument (lit " -Sid ") sid_string
        ++ (argument (lit " -SpecFile ") spec_path
            ++ (argument (lit " -StopFile ") stop_file
                ++ (argument (lit " -ReadyFile ") ready_file
                    ++ (argument (lit " -ProgressFile ") progress_file
                        ++ (argument (lit " -Executable ") executable
                            ++ (argument (lit " -OutRule ") out_rule_name
                                ++ (argument (lit " -InRule ") in_rule_name
                                    ++ (lit " -BlockNetwork "
                                        ++ (if block_network then lit "1" else lit "0"))))))))))

abbrev pub ops_guard : Text → ℕ → ElevatedOpsGuard
ops_guard dir process = record {
  process = process;
  workspace_dir = dir;
  stop_file = join dir (lit "stop.signal");
  ready_file = join dir (lit "ready.signal");
  progress_file = join dir (lit "progress.log");
}

-- `script` is the text of `ELEVATED_OPS_HELPER_SCRIPT`.
module _ (s : System) (script : Text) where
  unfoldable pub powershell_executable_path : Text
  powershell_executable_path =
      join
        (join
          (join (join (or_default (s.var (lit "WINDIR")) (lit "C:\\Windows")) (lit "System32"))
            (lit "WindowsPowerShell"))
          (lit "v1.0"))
        (lit "powershell.exe")

  abbrev pub numbered : Text → Win Text
  numbered prefix = asks λ log. prefix ++ (decimal s.pid ++ (lit "-" ++ decimal (s.random log)))

  abbrev pub made_dir : Text → Answer → Win (Result SandboxError Text)
  made_dir path (fails code) = pure (err (io (os code)))
  made_dir path (gives _ _) = pure (ok path)

  unfoldable pub create_elevated_workspace_dir : Win (Result SandboxError Text)
  create_elevated_workspace_dir = numbered (lit "procwarden-elevated-ops-") >>= λ name.
      call s (create_dir_all (join s.temp_dir name)) >>= made_dir (join s.temp_dir name)

  -- The helper for the wait, over the log and the sleeps so far.
  abbrev pub helper_of : ElevatedOpsGuard → Helper (Log × ℕ)
  helper_of guard = record {
    read_ready = λ w.
        let (_, log) = tell s (read_to_string guard.ready_file) w.0 in
        (s.contents log guard.ready_file, (log, w.1));
    read_progress = λ w. s.contents w.0 guard.progress_file;
    try_wait_exit_code =
        λ w. let (r, log) = try_wait_exit_code s guard.process 0 w.0 in (r, (log, w.1));
    elapsed = λ w. w.1 + s.delay w.0;
    sleep = λ ms w. (w.0, w.1 + ms);
    workspace_dir = guard.workspace_dir;
    kind_of = s.kind_of;
    display_error = s.display_io;
  }

  -- The wait, within 201 rounds.
  abbrev pub waiting : ElevatedOpsGuard → Win (Option (Result SandboxError Done))
  waiting guard log = let (r, w) = wait_until_initialized (helper_of guard) 201 (log, 0) in (r, w.0)

  -- `Drop`
  unfoldable pub drop_ops_guard : ElevatedOpsGuard → Win Done
  drop_ops_guard guard = stop_helper s guard.process guard.stop_file guard.workspace_dir

  -- No result is a wait that has not ended within its rounds.
  abbrev pub after_wait :
      ElevatedOpsGuard
      → Option (Result SandboxError Done)
      → Win (Option (Result SandboxError ElevatedOpsGuard))
  after_wait guard none = pure none
  after_wait guard (some (ok _)) = pure (some (ok guard))
  after_wait guard (some (err e)) = drop_ops_guard guard >> pure (some (err e))

  abbrev pub after_launch :
      Text → Result SandboxError ℕ → Win (Option (Result SandboxError ElevatedOpsGuard))
  after_launch dir (err e) = tell s (remove_dir_all dir) >> pure (some (err e))
  after_launch dir (ok process) =
      waiting (ops_guard dir process) >>= after_wait (ops_guard dir process)

  abbrev pub refuse_write : Text → ℕ → Win (Option (Result SandboxError ElevatedOpsGuard))
  refuse_write dir code = tell s (remove_dir_all dir) >> pure (some (err (io (os code))))

  abbrev pub after_spec :
      ElevatedOpsSpec → Text → Text → Answer → Win (Option (Result SandboxError ElevatedOpsGuard))
  after_spec spec dir rule_prefix (fails code) = refuse_write dir code
  after_spec spec dir rule_prefix (gives _ _) =
      tell s (remove_file (join dir (lit "ready.signal")))
      >> (shell_execute s powershell_executable_path (
            elevated_powershell_parameters (join dir (lit "elevated-ops-helper.ps1"))
              (join dir (lit "acl-spec.tsv")) (join dir (lit "stop.signal"))
              (join dir (lit "ready.signal")) (join dir (lit "progress.log")) spec.executable
              (rule_prefix ++ lit "-out") (rule_prefix ++ lit "-in") spec.sid_string
              spec.block_network)
          >>= after_launch dir)

  abbrev pub after_script :
      ElevatedOpsSpec → Text → Text → Answer → Win (Option (Result SandboxError ElevatedOpsGuard))
  after_script spec dir rule_prefix (fails code) = refuse_write dir code
  after_script spec dir rule_prefix (gives _ _) =
      call s (write_file (join dir (lit "acl-spec.tsv")) (serialize_acl_spec spec))
      >>= after_spec spec dir rule_prefix

  abbrev pub in_workspace :
      ElevatedOpsSpec
      → Result SandboxError Text
      → Win (Option (Result SandboxError ElevatedOpsGuard))
  in_workspace spec (err e) = pure (some (err e))
  in_workspace spec (ok dir) = numbered (lit "procwarden-elevated-all-") >>= λ rule_prefix.
      call s (write_file (join dir (lit "elevated-ops-helper.ps1")) script)
      >>= after_script spec dir rule_prefix

  unfoldable pub spawn : ElevatedOpsSpec → Win (Option (Result SandboxError ElevatedOpsGuard))
  spawn spec = create_elevated_workspace_dir >>= in_workspace spec
