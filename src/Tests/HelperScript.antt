-- ===== src/Tests/HelperScript.antt =====
-- The script of the elevated helper.
use mathlib.Core.List.{Memᴰ}
use procwarden.Common.{refl, false, [], ◌∷◌, ◌++◌, lit, trim, eq_ignore_ascii_case, Text}
use procwarden.Windows.Elevated.Shell.{
  Command, icacls, netsh, Answer, gives, Machine, Params, State, pure, track, enable_firewall, run,
  throw, catch, ◌>>=◌,
}
use procwarden.Windows.Elevated.Script.{
  log_progress, invoke_netsh, apply_rule, each_line, rule_permission, log_timed, invoke_icacls,
  block_network, wait_for_stop, body, split_tab, rule_access_mode, line_step, rule_step,
}
use procwarden.Windows.Elevated.Script.Denies.{Denied, Blocked, body-IsSecured}

-- Every program succeeds, and every path is there.
abbrev answer_of : Command → Answer
answer_of (icacls _) = gives 0
answer_of (netsh _) = gives 0
answer_of _ = gives 1

abbrev machine : Machine
machine = record {
  answer = λ log c. answer_of c;
  lines = λ log. [];
  date = λ log. lit "now";
  elapsed = λ log. 4;
}

abbrev params : Params
params = record {
  sid = lit "S-1-15-2";
  spec_file = lit "spec";
  stop_file = lit "stop";
  ready_file = lit "ready";
  progress_file = lit "progress";
  executable = lit "a.exe";
  out_rule = lit "r-out";
  in_rule = lit "r-in";
  block_network = 1;
}

abbrev at_start : State
at_start = record { log = []; applied_paths = []; firewall_enabled = false }

abbrev line : Text
line = lit "dn" ++ (9 ∷ lit "C:\\a")

body-IsSecured_example :
    Denied machine params
      (trim (lit "dn"))
      (lit "C:\\a")
      (body machine params 1 (line ∷ []) at_start).1.log
    × Blocked machine params 1 (body machine params 1 (line ∷ []) at_start).1.log
unfolding pure log_progress invoke_netsh track enable_firewall apply_rule run throw each_line
    rule_permission log_timed catch invoke_icacls block_network wait_for_stop ◌>>=◌ body split_tab
    rule_access_mode line_step rule_step trim eq_ignore_ascii_case lit
body-IsSecured_example =
    body-IsSecured machine params 1 (line ∷ []) line (lit "dn") (lit "C:\\a") at_start
      (Memᴰ.head refl) refl refl refl refl
