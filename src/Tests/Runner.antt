-- ===== src/Tests/Runner.antt =====
-- The polling loop at concrete children.
use procwarden.CommandRunner.{read_pipe}
use procwarden.Common.{from_utf8_lossy}
use procwarden.Output.{output_from_utf8_lossy}
use procwarden.Common.{true, false, ◌≢◌, refl, none, some, [], lit, arith}
use procwarden.Output.{SandboxExecOutput, timeout_exit_code}
use procwarden.CommandRunner.{Command, poll, new_command, run_command_with_timeout}
use procwarden.CommandRunner.Timeout.{
  Explains, IsLate, poll-Explains, run_command_with_timeout-IsLate,
}
use procwarden.CommandRunner.Totality.{IsClocked, IsReaped, run_command_with_timeout-ends}
use procwarden.Tests.Hosts.{env, endless}

endless-IsClocked : IsClocked endless
endless-IsClocked = record {
  spawn_forward = λ c w. omega arith;
  try_wait_forward = λ w. omega arith;
  kill_forward = λ w. omega arith;
  wait_forward = λ w. omega arith;
  sleep_forward = λ ms w. omega arith;
}

endless-IsReaped : IsReaped endless
endless-IsReaped = record {
  exit_ends = λ w h. absurd (cc h);
  kill_ends = λ w. refl;
  pipes_end = λ w h. refl;
}

abbrev command : Command
unfolding new_command
command = new_command (lit "/bin/sleep") [] (lit "/") env

abbrev late : SandboxExecOutput
late = record {
  exit_code = timeout_exit_code;
  stdout = [];
  stderr = [];
  aggregated_output = [];
  duration = 20;
  timed_out = true;
  degraded_mode_reason = none;
}

run_command_with_timeout-IsLate_example : IsLate endless (some 20) late
unfolding run_command_with_timeout output_from_utf8_lossy from_utf8_lossy read_pipe
run_command_with_timeout-IsLate_example =
    run_command_with_timeout-IsLate endless endless-IsClocked 3 command (some 20) (0, false) late
      refl refl

run_command_with_timeout-ends_example :
    (run_command_with_timeout endless 3 command (some 20) (0, false)).0 ≢ none
run_command_with_timeout-ends_example =
    run_command_with_timeout-ends endless endless-IsClocked endless-IsReaped 3 command 20 (0, false)
      (omega arith)

poll-Explains_example : Explains endless 20 (poll endless 3 20 (0, false))
poll-Explains_example = poll-Explains endless 3 20 (0, false)
