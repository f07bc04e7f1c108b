-- ===== src/Windows/Elevated/Script.antt =====
-- platform/windows/elevated_ops.rs: the PowerShell script of the elevated helper. The PowerShell
-- operators compare kinds without regard to case.
pub mod Keeps
pub mod Denies
use procwarden.Common.{
  ℕ, zero, suc, Bool, true, false, ◌||◌, Option, none, some, List, [], ◌∷◌, ◌++◌, Text, lit, trim,
  join_with, decimal, eq_ignore_ascii_case, is_empty, length, ◌==◌, if◌then◌else◌, reverse,
}
use procwarden.Windows.Kernel.{Done}
use procwarden.Windows.Elevated.Shell.{
  Command, test_path, test_container, get_content, set_content, add_content, icacls, netsh,
  is_in_role, start_sleep, Log, Machine, Params, State, Outcome, done, thrown, exited, Script,
  ◌>>=◌, pure, throw, catch, ◌>>◌, track, enable_firewall, run,
}

-- `Split` at the first tab.
unfoldable pub split_tab : Text → Option (Text × Text)
split_tab [] = none
split_tab (c ∷ s) =
    let rest = split_tab s in
    if c == 9
    then some ([], s)
    else elim rest [ none ↦ none | some (kind, path) ↦ some (c ∷ kind, path) ]

pub data Mode : Type 0 where
  grant deny : Mode

abbrev flag : Mode → Text
flag grant = lit "/grant"
flag deny = lit "/deny"

abbrev is_kind : Text → Text → Bool
is_kind tag kind = eq_ignore_ascii_case kind tag

abbrev is_allow : Text → Bool
is_allow kind = is_kind (lit "ro") kind || is_kind (lit "rw") kind

-- No mode is an unknown kind.
unfoldable pub rule_access_mode : Text → Option Mode
rule_access_mode kind =
    if is_allow kind
    then some grant
    else if is_kind (lit "dw") kind || is_kind (lit "dn") kind
    then some deny
    else none

abbrev inherited : ℕ → Text → Text
inherited is_directory rights = if is_directory == 0 then rights else lit "(OI)(CI)" ++ rights

unfoldable pub rule_permission : Text → ℕ → Text
rule_permission kind is_directory = inherited is_directory (
    if is_kind (lit "ro") kind
    then lit "(RX)"
    else if is_kind (lit "rw") kind
    then lit "(M)"
    else if is_kind (lit "dw") kind
    then lit "(W)"
    else lit "(RX,W)")

abbrev bool_text : ℕ → Text
bool_text n = if n == 0 then lit "False" else lit "True"

module _ (m : Machine) (params : Params) where
  unfoldable pub log_progress : Text → Script ℕ
  log_progress message st =
      run m (add_content params.progress_file (m.date st.log ++ (lit "|" ++ message))) st

  abbrev exit_tested : Text → List Text → ℕ → Script Done
  exit_tested program arguments zero = pure tt
  exit_tested program arguments (suc n) = throw (
      program
      ++ (lit " failed with exit code "
          ++ (decimal (suc n) ++ (lit ": " ++ join_with (lit " ") arguments))))

  unfoldable pub invoke_icacls : List Text → Script Done
  invoke_icacls arguments = run m (icacls arguments) >>= exit_tested (lit "icacls") arguments

  unfoldable pub invoke_netsh : List Text → Script Done
  invoke_netsh arguments = run m (netsh arguments) >>= exit_tested (lit "netsh") arguments

  abbrev rule_arguments : Mode → Text → Text → List Text
  rule_arguments mode path permission =
      path ∷ flag mode ∷ (lit "*" ++ (params.sid ++ (lit ":" ++ permission))) ∷ lit "/C" ∷ []

  abbrev with_mode : Text → Text → Option Mode → ℕ → Script Done
  with_mode kind path none is_directory = throw (lit "unknown ACL rule kind: " ++ kind)
  with_mode kind path (some mode) is_directory =
      invoke_icacls (rule_arguments mode path (rule_permission kind is_directory))

  abbrev if_found : Text → Text → ℕ → Script Done
  if_found kind path zero = pure tt
  if_found kind path (suc n) =
      run m (test_container path) >>= with_mode kind path (rule_access_mode kind)

  unfoldable pub apply_rule : Text → Text → Script Done
  apply_rule kind path = run m (test_path path) >>= if_found kind path

  abbrev event : Text → Text → Text → Text
  event word kind path = word ++ (lit "|" ++ (kind ++ (lit "|" ++ path)))

  -- The message with the time of the rule after it.
  unfoldable pub log_timed : (Text → Text) → Script ℕ
  log_timed message st = log_progress (message (decimal (m.elapsed st.log))) st

  -- The inner `catch`: a rule that allows may fail.
  abbrev rule_failed : Text → Text → Text → Script Done
  rule_failed kind path e =
      if is_allow kind
      then log_timed (λ ms.
        event (lit "skip_allow_error") kind path ++ (lit "|ms=" ++ (ms ++ (lit "|error=" ++ e))))
        >> pure tt
      else throw e

  unfoldable pub rule_step : Text → Text → Script Done
  rule_step kind path =
      log_progress (event (lit "begin") kind path)
      >> catch
          (apply_rule kind path
            >> (log_timed (λ ms. event (lit "end") kind path ++ (lit "|ms=" ++ ms)) >> track path))
          (rule_failed kind path)

  abbrev split_line : Text → Option (Text × Text) → Script Done
  split_line line none = throw (lit "invalid ACL spec line: " ++ line)
  split_line line (some (kind, path)) = rule_step (trim kind) path

  unfoldable pub line_step : Text → Script Done
  line_step line = if is_empty (trim line) then pure tt else split_line line (split_tab line)

  unfoldable pub each_line : List Text → Script Done
  each_line [] = pure tt
  each_line (line ∷ lines) = line_step line >> each_line lines

  abbrev block_rule : Text → Text → List Text
  block_rule name direction =
      lit "advfirewall"
      ∷ lit "firewall"
      ∷ lit "add"
      ∷ lit "rule"
      ∷ (lit "name=" ++ name)
      ∷ (lit "dir=" ++ direction)
      ∷ lit "action=block"
      ∷ (lit "program=" ++ params.executable)
      ∷ lit "enable=yes"
      ∷ lit "profile=any"
      ∷ []

  unfoldable pub block_network : ℕ → Script Done
  block_network zero = pure tt
  block_network (suc n) =
      log_progress (lit "begin|network")
      >> invoke_netsh (block_rule params.out_rule (lit "out"))
      >> invoke_netsh (block_rule params.in_rule (lit "in"))
      >> enable_firewall
      >> log_progress (lit "end|network")
      >> pure tt

  abbrev unless_stopped : Script (Option Done) → ℕ → Script (Option Done)
  unless_stopped rest zero = run m (start_sleep 200) >> rest
  unless_stopped rest (suc n) = pure (some tt)

  -- One test for each unit of fuel; `none` still waits.
  unfoldable pub wait_for_stop : ℕ → Script (Option Done)
  wait_for_stop zero = pure none
  wait_for_stop (suc fuel) =
      run m (test_path params.stop_file) >>= unless_stopped (wait_for_stop fuel)

  -- The `try`.
  unfoldable pub body : ℕ → List Text → Script (Option Done)
  body fuel entries =
      run m (set_content params.progress_file [])
      >> log_progress (lit "sid=" ++ params.sid)
      >> (run m is_in_role >>= λ admin. log_progress (lit "is_admin=" ++ bool_text admin))
      >> log_progress (lit "entries=" ++ decimal (length entries))
      >> each_line entries
      >> block_network params.block_network
      >> run m (set_content params.ready_file (lit "ok"))
      >> log_progress (lit "ready")
      >> wait_for_stop fuel

  unfoldable on_error : Text → Script (Option Done)
  on_error e =
      log_progress (lit "error|" ++ e)
      >> run m (set_content params.ready_file (lit "error:" ++ e))
      >> λ st. (exited 1, st)

  abbrev account : Text
  account = lit "*" ++ params.sid

  abbrev remove_found : Text → ℕ → Script Done
  remove_found path zero = pure tt
  remove_found path (suc n) =
      run m (icacls (path ∷ lit "/remove:g" ∷ account ∷ lit "/C" ∷ []))
      >> run m (icacls (path ∷ lit "/remove:d" ∷ account ∷ lit "/C" ∷ []))
      >> pure tt

  unfoldable remove_rule : Text → Script Done
  remove_rule path = run m (test_path path) >>= remove_found path

  unfoldable remove_each : List Text → Script Done
  remove_each [] = pure tt
  remove_each (path ∷ paths) = remove_rule path >> remove_each paths

  abbrev delete_rule : Text → List Text
  delete_rule name =
      lit "advfirewall"
      ∷ lit "firewall"
      ∷ lit "delete"
      ∷ lit "rule"
      ∷ (lit "name=" ++ name)
      ∷ (lit "program=" ++ params.executable)
      ∷ []

  abbrev delete_rules : Bool → Script Done
  delete_rules false = pure tt
  delete_rules true =
      run m (netsh (delete_rule params.out_rule))
      >> run m (netsh (delete_rule params.in_rule))
      >> pure tt

  -- The `finally`.
  unfoldable cleanup : Script Done
  cleanup st =
      (log_progress (lit "cleanup_begin")
          >> remove_each (reverse st.applied_paths)
          >> delete_rules st.firewall_enabled
          >> log_progress (lit "cleanup_end")
          >> pure tt)
        st

  abbrev cleaned : Outcome (Option Done) → Script (Option Done)
  cleaned (done none) st = (done none, st)
  cleaned outcome st = (cleanup >> λ st'. (outcome, st')) st

  abbrev with_entries : ℕ → List Text → Script (Option Done)
  with_entries fuel entries st =
      let (outcome, st') = catch (body fuel entries) on_error st in cleaned outcome st'

  abbrev if_specified : ℕ → ℕ → Script (Option Done)
  if_specified fuel zero = with_entries fuel []
  if_specified fuel (suc n) =
      run m (get_content params.spec_file) >> λ st. with_entries fuel (m.lines st.log) st

  unfoldable helper_script : ℕ → Script (Option Done)
  helper_script fuel = run m (test_path params.spec_file) >>= if_specified fuel
