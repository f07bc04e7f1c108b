-- ===== src/Macos/Execution.antt =====
-- platform/macos.rs: `execute` and `execute_command`.
use procwarden.Common.{
  ℕ, Bool, not, Option, none, some, List, ◌∷◌, ◌++◌, Text, lit, trim, is_empty, err, if◌then◌else◌,
}
use procwarden.Paths.{PathBuf, display}
use procwarden.Policy.{SandboxPolicy}
use procwarden.Manager.{EnvMap, Outcome, Backend}
use procwarden.Output.{unavailable}
use procwarden.CommandRunner.{
  ProcessGroup, new_command, configure_piped_stdio, run_command_with_timeout,
}
use procwarden.Macos.Profile.{build_sbpl_profile}

unfoldable pub default_sandbox_exec_path : Text
default_sandbox_exec_path = lit "/usr/bin/sandbox-exec"

unfoldable pub macos_sandbox_exec_env : Text
macos_sandbox_exec_env = lit "PROCWARDEN_MACOS_SANDBOX_EXEC"

-- The program's own environment, and `Path::is_file`.
pub record MacosHost : Type 0 where
  pub env_var : Text → Option Text
  pub is_file : PathBuf → Bool

-- `.filter(|value| !value.trim().is_empty()).unwrap_or_else(..)`
unfoldable pub sandbox_exec_path : Option Text → Text
sandbox_exec_path none = default_sandbox_exec_path
sandbox_exec_path (some value) =
    if not (is_empty (trim value)) then value else default_sandbox_exec_path

unfoldable pub sandbox_exec_arguments : SandboxPolicy → List Text → List Text
sandbox_exec_arguments policy command = lit "-p" ∷ build_sbpl_profile policy ∷ lit "--" ∷ command

module _ {W : Type 0} (host : MacosHost) (group : ProcessGroup W) (fuel : ℕ) where
  -- The arguments always begin with the program, so the slice after it is the rest.
  unfoldable pub execute_command : Text → List Text → PathBuf → EnvMap → Option ℕ → W → Outcome × W
  execute_command program args cwd env timeout_ms w =
      run_command_with_timeout group fuel (configure_piped_stdio (new_command program args cwd env))
        timeout_ms w

  unfoldable pub execute : Backend W
  unfolding sandbox_exec_path sandbox_exec_arguments execute_command
  execute request policy w =
      let program = sandbox_exec_path (host.env_var macos_sandbox_exec_env) in
      if not (host.is_file program)
      then (
        some (
            err (
              unavailable (
                lit "macOS sandbox executable not found at "
                ++ (display program
                    ++ (lit "; set "
                        ++ (macos_sandbox_exec_env ++ lit " to override the path")))))),
        w,
      )
      else execute_command program (sandbox_exec_arguments policy request.command) request.cwd
          request.env request.timeout_ms w
