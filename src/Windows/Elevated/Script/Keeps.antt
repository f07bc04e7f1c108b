-- ===== src/Windows/Elevated/Script/Keeps.antt =====
-- platform/windows/elevated_ops.rs: no part of the helper's script forgets an event.
use procwarden.Common.{
  ℕ, zero, suc, decimal, Option, none, some, List, [], ◌∷◌, ◌++◌, Text, lit, trim, is_empty,
}
use procwarden.Windows.Kernel.{Done}
use procwarden.Windows.Elevated.Shell.{add_content, Machine, Params, Script, ◌>>◌, track}
use procwarden.Windows.Elevated.Shell.Logs.{
  Keeps, Keeps-pure, Keeps-throw, Keeps-catch, Keeps-bind, Keeps-run, Keeps-track,
  Keeps-enable_firewall, Keeps-if,
}
use procwarden.Windows.Elevated.Script.{
  split_tab, Mode, is_allow, rule_access_mode, log_progress, exit_tested, invoke_icacls,
  invoke_netsh, with_mode, if_found, apply_rule, log_timed, event, rule_failed, rule_step,
  split_line, line_step, each_line, block_network, unless_stopped, wait_for_stop,
}

module _ (m : Machine) (params : Params) where
  pub log_progress-Keeps : (message : Text) → Keeps (log_progress m params message)
  unfolding log_progress Keeps
  log_progress-Keeps message st =
      Keeps-run m (add_content params.progress_file (m.date st.log ++ (lit "|" ++ message))) st

  pub log_timed-Keeps : (message : Text → Text) → Keeps (log_timed m params message)
  unfolding log_timed Keeps
  log_timed-Keeps message st = log_progress-Keeps (message (decimal (m.elapsed st.log))) st

  pub exit_tested-Keeps :
      (program : Text) (arguments : List Text) (n : ℕ)
      → Keeps (exit_tested m params program arguments n)
  exit_tested-Keeps program arguments zero = Keeps-pure tt
  exit_tested-Keeps program arguments (suc n) = Keeps-throw _ _

  pub invoke_icacls-Keeps : (arguments : List Text) → Keeps (invoke_icacls m params arguments)
  unfolding invoke_icacls
  invoke_icacls-Keeps arguments = Keeps-bind _ _ (Keeps-run m _) (exit_tested-Keeps _ arguments)

  pub invoke_netsh-Keeps : (arguments : List Text) → Keeps (invoke_netsh m params arguments)
  unfolding invoke_netsh
  invoke_netsh-Keeps arguments = Keeps-bind _ _ (Keeps-run m _) (exit_tested-Keeps _ arguments)

  pub with_mode-Keeps :
      (kind path : Text) (mode : Option Mode) (n : ℕ) → Keeps (with_mode m params kind path mode n)
  with_mode-Keeps kind path none n = Keeps-throw _ _
  with_mode-Keeps kind path (some mode) n = invoke_icacls-Keeps _

  pub if_found-Keeps : (kind path : Text) (n : ℕ) → Keeps (if_found m params kind path n)
  if_found-Keeps kind path zero = Keeps-pure tt
  if_found-Keeps kind path (suc n) =
      Keeps-bind _ _ (Keeps-run m _) (with_mode-Keeps kind path (rule_access_mode kind))

  pub apply_rule-Keeps : (kind path : Text) → Keeps (apply_rule m params kind path)
  unfolding apply_rule
  apply_rule-Keeps kind path = Keeps-bind _ _ (Keeps-run m _) (if_found-Keeps kind path)

  pub rule_failed-Keeps : (kind path e : Text) → Keeps (rule_failed m params kind path e)
  rule_failed-Keeps kind path e =
      Keeps-if (is_allow kind) _ _ (Keeps-bind _ _ (log_timed-Keeps _) (λ _. Keeps-pure tt))
        (Keeps-throw _ e)

  pub applied-Keeps :
      (kind path : Text)
      → Keeps (
          log_timed m params (λ ms. event m params (lit "end") kind path ++ (lit "|ms=" ++ ms))
          >> track path)
  applied-Keeps kind path = Keeps-bind _ _ (log_timed-Keeps _) (λ _. Keeps-track path)

  pub rule_step-Keeps : (kind path : Text) → Keeps (rule_step m params kind path)
  unfolding rule_step
  rule_step-Keeps kind path = Keeps-bind _ _ (log_progress-Keeps _) (λ _.
      Keeps-catch _ _ (Keeps-bind _ _ (apply_rule-Keeps kind path) (λ _. applied-Keeps kind path))
        (rule_failed-Keeps kind path))

  pub split_line-Keeps :
      (line : Text) (parts : Option (Text × Text)) → Keeps (split_line m params line parts)
  split_line-Keeps line none = Keeps-throw _ _
  split_line-Keeps line (some (kind, path)) = rule_step-Keeps (trim kind) path

  pub line_step-Keeps : (line : Text) → Keeps (line_step m params line)
  unfolding line_step
  line_step-Keeps line =
      Keeps-if (is_empty (trim line)) _ _ (Keeps-pure tt) (split_line-Keeps line (split_tab line))

  pub each_line-Keeps : (lines : List Text) → Keeps (each_line m params lines)
  unfolding each_line
  each_line-Keeps [] = Keeps-pure tt
  each_line-Keeps (line ∷ lines) =
      Keeps-bind _ _ (line_step-Keeps line) (λ _. each_line-Keeps lines)

  pub block_network-Keeps : (n : ℕ) → Keeps (block_network m params n)
  unfolding block_network
  block_network-Keeps zero = Keeps-pure tt
  block_network-Keeps (suc n) =
      Keeps-bind _ _
        (Keeps-bind _ _
          (Keeps-bind _ _
            (Keeps-bind _ _ (Keeps-bind _ _ (log_progress-Keeps _) (λ _. invoke_netsh-Keeps _))
              (λ _. invoke_netsh-Keeps _))
            (λ _. Keeps-enable_firewall))
          (λ _. log_progress-Keeps _))
        (λ _. Keeps-pure tt)

  pub unless_stopped-Keeps :
      (rest : Script (Option Done)) → Keeps rest → (n : ℕ) → Keeps (unless_stopped m params rest n)
  unless_stopped-Keeps rest k zero = Keeps-bind _ _ (Keeps-run m _) (λ _. k)
  unless_stopped-Keeps rest k (suc n) = Keeps-pure (some tt)

  pub wait_for_stop-Keeps : (fuel : ℕ) → Keeps (wait_for_stop m params fuel)
  unfolding wait_for_stop
  wait_for_stop-Keeps zero = Keeps-pure none
  wait_for_stop-Keeps (suc fuel) =
      Keeps-bind _ _ (Keeps-run m _) (unless_stopped-Keeps _ (wait_for_stop-Keeps fuel))
