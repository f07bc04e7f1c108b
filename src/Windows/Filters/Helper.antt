-- ===== src/Windows/Filters/Helper.antt =====
-- platform/windows/wfp.rs: the helper that sets two firewall rules with administrator's rights, and
-- its guard.
use procwarden.Common.{
  ℕ, zero, suc, ◌+◌, ◌-◌, ◌*◌, Bool, true, false, Option, none, some, List, [], ◌∷◌, ◌++◌, Text,
  lit, decimal, trim, strip_prefix, eq_ignore_ascii_case, is_empty, join_with, leb, if◌then◌else◌,
  Result, ok, err, IoError, ErrorKind, os,
}
use procwarden.Output.{SandboxError, denied, io}
use procwarden.Windows.Elevated.{ReadySignal, pending, ready, failed}
use procwarden.Windows.Environment.{or_default}
use procwarden.Windows.Kernel.{
  System, Answer, fails, gives, Win, pure, asks, ◌>>=◌, ◌>>◌, ◌>>?◌, call, tell, Done, write_file,
  create_dir_all, remove_dir_all, remove_file, read_to_string,
}
use procwarden.Windows.Elevation.{
  join, quote_windows_arg, shell_execute, try_wait_exit_code, stop_helper,
}

pub record ElevatedFirewallGuard : Type 0 where
  pub process : ℕ
  pub workspace_dir : Text
  pub stop_file : Text
  pub ready_file : Text
  pub out_rule_name : Text
  pub in_rule_name : Text

abbrev script_lines : List Text
script_lines =
    lit ""
    ∷ lit "param("
    ∷ lit "    [Parameter(Mandatory=$true)][string]$Executable,"
    ∷ lit "    [Parameter(Mandatory=$true)][string]$RulePrefix,"
    ∷ lit "    [Parameter(Mandatory=$true)][string]$StopFile,"
    ∷ lit "    [Parameter(Mandatory=$true)][string]$ReadyFile"
    ∷ lit ")"
    ∷ lit ""
    ∷ lit "$ErrorActionPreference = \"Stop\""
    ∷ lit "$outRule = \"$RulePrefix-out\""
    ∷ lit "$inRule = \"$RulePrefix-in\""
    ∷ lit ""
    ∷ lit "function Invoke-Netsh([string[]]$Arguments) {"
    ∷ lit "    & netsh @Arguments | Out-Null"
    ∷ lit "    if ($LASTEXITCODE -ne 0) {"
    ∷ lit "        throw \"netsh failed with exit code ${LASTEXITCODE}: $($Arguments -join ' ')\""
    ∷ lit "    }"
    ∷ lit "}"
    ∷ lit ""
    ∷ lit "function Remove-Rules {"
    ∷ lit
        "    & netsh advfirewall firewall delete rule name=\"$outRule\" program=\"$Executable\" | Out-Null"
    ∷ lit
        "    & netsh advfirewall firewall delete rule name=\"$inRule\" program=\"$Executable\" | Out-Null"
    ∷ lit "}"
    ∷ lit ""
    ∷ lit "try {"
    ∷ lit
        "    Invoke-Netsh @(\"advfirewall\", \"firewall\", \"add\", \"rule\", \"name=$outRule\", \"dir=out\", \"action=block\", \"program=$Executable\", \"enable=yes\", \"profile=any\")"
    ∷ lit
        "    Invoke-Netsh @(\"advfirewall\", \"firewall\", \"add\", \"rule\", \"name=$inRule\", \"dir=in\", \"action=block\", \"program=$Executable\", \"enable=yes\", \"profile=any\")"
    ∷ lit ""
    ∷ lit "    Set-Content -LiteralPath $ReadyFile -Value \"ok\" -NoNewline -Encoding ascii"
    ∷ lit ""
    ∷ lit "    while (-not (Test-Path -LiteralPath $StopFile)) {"
    ∷ lit "        Start-Sleep -Milliseconds 200"
    ∷ lit "    }"
    ∷ lit "}"
    ∷ lit "catch {"
    ∷ lit
        "    Set-Content -LiteralPath $ReadyFile -Value (\"error:\" + $_.Exception.Message) -NoNewline -Encoding utf8"
    ∷ lit "    exit 1"
    ∷ lit "}"
    ∷ lit "finally {"
    ∷ lit "    Remove-Rules"
    ∷ lit "}"
    ∷ lit ""
    ∷ []

elevated_firewall_helper_script : Text
elevated_firewall_helper_script = join_with (10 ∷ []) script_lines

abbrev is_absent : ErrorKind → Bool
is_absent ErrorKind.not_found = true
is_absent ErrorKind.permission_denied = true
is_absent _ = false

unfoldable pub read_ready_signal :
    (IoError → ErrorKind) → Result IoError Text → Result SandboxError ReadySignal
read_ready_signal kind_of (ok contents) =
    let normalized = trim contents in
    if is_empty normalized
    then ok pending
    else if eq_ignore_ascii_case normalized (lit "ok")
    then ok ready
    else elim (strip_prefix normalized (lit "error:")) [
      | none ↦ ok (failed normalized)
      | some error ↦ ok (failed (trim error))
    ]
read_ready_signal kind_of (err e) = if is_absent (kind_of e) then ok pending else err (io e)

unfoldable pub elevated_powershell_parameters : Text → Text → Text → Text → Text → Text
elevated_powershell_parameters script_path executable rule_prefix stop_file ready_file =
    lit "-NoProfile -NonInteractive -ExecutionPolicy Bypass -WindowStyle Hidden -File "
    ++ (quote_windows_arg script_path
        ++ (lit " -Executable "
            ++ (quote_windows_arg executable
                ++ (lit " -RulePrefix "
                    ++ (quote_windows_arg rule_prefix
                        ++ (lit " -StopFile "
                            ++ (quote_windows_arg stop_file
                                ++ (lit " -ReadyFile " ++ quote_windows_arg ready_file))))))))

module _ (s : System) where
  unfoldable pub powershell_executable_path : Text
  powershell_executable_path =
      join
        (join
          (join (join (or_default (s.var (lit "WINDIR")) (lit "C:\\Windows")) (lit "System32"))
            (lit "WindowsPowerShell"))
          (lit "v1.0"))
        (lit "powershell.exe")

  -- A prefix with the process's number and a random one.
  abbrev pub numbered : Text → Win Text
  numbered prefix = asks λ log. prefix ++ (decimal s.pid ++ (lit "-" ++ decimal (s.random log)))

  abbrev pub made_dir : Text → Answer → Win (Result SandboxError Text)
  made_dir path (fails code) = pure (err (io (os code)))
  made_dir path (gives _ _) = pure (ok path)

  unfoldable pub create_elevated_workspace_dir : Win (Result SandboxError Text)
  create_elevated_workspace_dir = numbered (lit "procwarden-elevated-wfp-") >>= λ name.
      call s (create_dir_all (join s.temp_dir name)) >>= made_dir (join s.temp_dir name)

  -- `fs::read_to_string` of the ready file.
  abbrev pub read_ready : Text → Win (Result SandboxError ReadySignal)
  read_ready ready_file =
      tell s (read_to_string ready_file)
      >> asks λ log. read_ready_signal s.kind_of (s.contents log ready_file)

  abbrev pub exited_early : Text → ℕ → SandboxError
  exited_early workspace_dir exit_code = denied (
      lit "automatic administrator elevation helper exited before initialization (exit code "
      ++ (decimal exit_code ++ (lit ", workspace: " ++ (workspace_dir ++ lit ")"))))

  abbrev pub timed_out : Text → SandboxError
  timed_out workspace_dir = denied (
      lit "automatic administrator elevation helper timed out before readiness (workspace: "
      ++ (workspace_dir ++ lit ")"))

  abbrev pub after_exit :
      Win (Result SandboxError Done)
      → Text
      → ℕ
      → Result SandboxError (Option ℕ)
      → Win (Result SandboxError Done)
  after_exit rest workspace_dir slept (err e) = pure (err e)
  after_exit rest workspace_dir slept (ok (some exit_code)) =
      pure (err (exited_early workspace_dir exit_code))
  after_exit rest workspace_dir slept (ok none) =
      asks (λ log. leb 20000 (slept + s.delay log)) >>= λ late.
      if late then pure (err (timed_out workspace_dir)) else rest

  abbrev pub after_signal :
      Win (Result SandboxError Done)
      → Result SandboxError ReadySignal
      → Win (Result SandboxError Done)
  after_signal rest (err e) = pure (err e)
  after_signal rest (ok ready) = pure (ok tt)
  after_signal rest (ok (failed message)) = pure (
      err (
        denied (lit "automatic administrator elevation helper initialization failed: " ++ message)))
  after_signal rest (ok pending) = rest

  -- The rounds that are left of 200. A round ends with a sleep of 100 milliseconds, which may take
  -- longer, so the round after the 200th finds the time over: with no round left the two cases of
  -- the test are the same.
  unfoldable pub wait_rounds : ℕ → ElevatedFirewallGuard → Win (Result SandboxError Done)
  wait_rounds zero guard =
      read_ready guard.ready_file
      >>= after_signal (
          try_wait_exit_code s guard.process 0
          >>= after_exit (pure (err (timed_out guard.workspace_dir))) guard.workspace_dir 20000)
  wait_rounds (suc n) guard =
      read_ready guard.ready_file
      >>= after_signal (
          try_wait_exit_code s guard.process 0
          >>= after_exit (wait_rounds n guard) guard.workspace_dir (100 * (199 - n)))

  unfoldable pub wait_until_initialized : ElevatedFirewallGuard → Win (Result SandboxError Done)
  wait_until_initialized guard = wait_rounds 200 guard

  -- `Drop`
  unfoldable pub drop_firewall_guard : ElevatedFirewallGuard → Win Done
  drop_firewall_guard guard = stop_helper s guard.process guard.stop_file guard.workspace_dir

  abbrev pub after_wait :
      ElevatedFirewallGuard
      → Result SandboxError Done
      → Win (Result SandboxError ElevatedFirewallGuard)
  after_wait guard (ok _) = pure (ok guard)
  after_wait guard (err e) = drop_firewall_guard guard >> pure (err e)

  abbrev pub after_launch :
      Text → Text → Result SandboxError ℕ → Win (Result SandboxError ElevatedFirewallGuard)
  after_launch dir rule_prefix (err e) = tell s (remove_dir_all dir) >> pure (err e)
  after_launch dir rule_prefix (ok process) =
      let guard : ElevatedFirewallGuard = record {
        process = process;
        workspace_dir = dir;
        stop_file = join dir (lit "stop.signal");
        ready_file = join dir (lit "ready.signal");
        out_rule_name = rule_prefix ++ lit "-out";
        in_rule_name = rule_prefix ++ lit "-in";
      } in
      wait_until_initialized guard >>= after_wait guard

  abbrev pub after_script :
      Text → Text → Text → Answer → Win (Result SandboxError ElevatedFirewallGuard)
  after_script executable dir rule_prefix (fails code) =
      tell s (remove_dir_all dir) >> pure (err (io (os code)))
  after_script executable dir rule_prefix (gives _ _) =
      tell s (remove_file (join dir (lit "ready.signal")))
      >> (shell_execute s powershell_executable_path (
            elevated_powershell_parameters (join dir (lit "elevated-firewall-helper.ps1"))
              executable rule_prefix (join dir (lit "stop.signal")) (join dir (lit "ready.signal")))
          >>= after_launch dir rule_prefix)

  unfoldable pub spawn : Text → Win (Result SandboxError ElevatedFirewallGuard)
  unfolding elevated_firewall_helper_script
  spawn executable = create_elevated_workspace_dir >>? λ dir.
      numbered (lit "procwarden-elevated-") >>= λ rule_prefix.
      call s
        (write_file (join dir (lit "elevated-firewall-helper.ps1")) elevated_firewall_helper_script)
      >>= after_script executable dir rule_prefix
