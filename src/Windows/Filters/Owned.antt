-- ===== src/Windows/Filters/Owned.antt =====
-- platform/windows/wfp.rs: what a guard owns, and that dropping it gives it back.
use procwarden.Common.{
  ℕ, zero, suc, refl, Option, none, some, List, [], ◌∷◌, ◌++◌, Text, Result, ok, err,
}
use procwarden.Output.{SandboxError}
use procwarden.Windows.Elevated.{ReadySignal, pending, ready, failed}
use procwarden.Windows.Kernel.{System, gives, Log, Win, Done, Layer}
use procwarden.Windows.Kernel.Holds.{
  Resource, engine, blob, Holds, Moves, nothing, if_ok, Holds-bind, Holds-frame, Holds-try,
  Holds-if, Holds-reorder, count_swap, Holds-null_engine, Holds-null_blob,
}
use procwarden.Windows.Kernel.Holds.Rules.{
  holds_rules, Holds-ask, Holds-asks, Holds-asked, Holds-last, Holds-note, Holds-engine_close,
}
use procwarden.Windows.Elevation.Stop.{
  process_resource, current_process_is_elevated-Holds, shell_execute-Holds,
  try_wait_exit_code-Holds, stop_helper-Holds,
}
use procwarden.Windows.Filters.Helper.{
  ElevatedFirewallGuard, spawn, drop_firewall_guard, wait_rounds, wait_until_initialized,
  after_signal, after_exit, after_wait, after_launch, create_elevated_workspace_dir, read_ready,
}
use procwarden.Windows.Filters.{
  should_try_auto_elevation, WfpStatusError, NetworkFilterGuard, wfp_session, elevated_firewall,
  drop_network_guard, drop_session, drop_app_id, close_engine, opened_engine, open_dynamic_engine,
  got_app_id, app_id_from_executable, or_abort, add_block_filter, commit, add_filters,
  install_filters, try_elevated_network_guard, elevated_or_both, after_install, with_app_id,
  with_engine, install_block_all_network_filters,
}

abbrev pub owned : NetworkFilterGuard → List Resource
owned (wfp_session guard) = engine guard.session_engine ∷ blob guard.app_id_blob ∷ []
owned (elevated_firewall guard) = process_resource guard.process

abbrev engine_resource : ℕ → List Resource
engine_resource e = engine e ∷ []

abbrev blob_resource : ℕ → List Resource
blob_resource b = blob b ∷ []

module _ (s : System) where
  after_exit-Holds :
      (rest : Win (Result SandboxError Done)) (dir : Text) (slept : ℕ)
      → Holds [] nothing rest
      → (r : Result SandboxError (Option ℕ)) → Holds [] nothing (after_exit s rest dir slept r)
  after_exit-Holds rest dir slept h (err e) = search holds_rules
  after_exit-Holds rest dir slept h (ok (some code)) = search holds_rules
  after_exit-Holds rest dir slept h (ok none) =
      Holds-asks _ _ λ late. Holds-if late (λ _. search holds_rules) (λ _. h)

  after_signal-Holds :
      (rest : Win (Result SandboxError Done))
      → Holds [] nothing rest
      → (r : Result SandboxError ReadySignal) → Holds [] nothing (after_signal s rest r)
  after_signal-Holds rest h (err e) = search holds_rules
  after_signal-Holds rest h (ok ready) = search holds_rules
  after_signal-Holds rest h (ok (failed message)) = search holds_rules
  after_signal-Holds rest h (ok pending) = h

  read_ready-Holds : (file : Text) → Holds [] nothing (read_ready s file)
  read_ready-Holds file = Holds-note s _ _ refl (λ a. refl) (Holds-asked _ λ a. refl)

  wait_rounds-Holds :
      (n : ℕ) (guard : ElevatedFirewallGuard) → Holds [] nothing (wait_rounds s n guard)
  unfolding wait_rounds
  wait_rounds-Holds zero guard = Holds-bind (read_ready-Holds guard.ready_file) (
      after_signal-Holds _ (
        Holds-bind (try_wait_exit_code-Holds s guard.process 0)
          (after_exit-Holds _ guard.workspace_dir 20000 (search holds_rules))))
  wait_rounds-Holds (suc n) guard = Holds-bind (read_ready-Holds guard.ready_file) (
      after_signal-Holds _ (
        Holds-bind (try_wait_exit_code-Holds s guard.process 0)
          (after_exit-Holds _ guard.workspace_dir _ (wait_rounds-Holds n guard))))

  drop_firewall_guard-Holds :
      (guard : ElevatedFirewallGuard)
      → Holds (process_resource guard.process) nothing (drop_firewall_guard s guard)
  unfolding drop_firewall_guard
  drop_firewall_guard-Holds guard = stop_helper-Holds s _ _ _

  abbrev guard_process : ElevatedFirewallGuard → List Resource
  guard_process guard = process_resource guard.process

  after_wait-Holds :
      (guard : ElevatedFirewallGuard) (r : Result SandboxError Done)
      → Holds (guard_process guard) (if_ok guard_process) (after_wait s guard r)
  after_wait-Holds guard (ok _) = search holds_rules
  after_wait-Holds guard (err e) =
      Holds-bind (drop_firewall_guard-Holds guard) λ _. search holds_rules

  after_launch-Holds :
      (dir prefix : Text) (r : Result SandboxError ℕ)
      → Holds (if_ok process_resource r) (if_ok guard_process) (after_launch s dir prefix r)
  unfolding wait_until_initialized
  after_launch-Holds dir prefix (err e) = search holds_rules
  after_launch-Holds dir prefix (ok process) =
      Holds-bind (Holds-frame (process_resource process) (wait_rounds-Holds 200 _))
        (after_wait-Holds _)

  opened_engine-Holds :
      (e x : ℕ) → Holds (engine_resource e) (if_ok engine_resource) (opened_engine s (gives e x))
  opened_engine-Holds zero x = Holds-null_engine (search holds_rules)
  opened_engine-Holds (suc e) x = search holds_rules

  got_app_id-Holds :
      (b x : ℕ) → Holds (blob_resource b) (if_ok blob_resource) (got_app_id s (gives b x))
  got_app_id-Holds zero x = Holds-null_blob (search holds_rules)
  got_app_id-Holds (suc b) x = search holds_rules

  create_workspace-Holds : Holds [] (if_ok nothing) (create_elevated_workspace_dir s)
  unfolding create_elevated_workspace_dir
  create_workspace-Holds =
      Holds-asks _ _
        λ name. Holds-ask s _ _ refl (λ _. search holds_rules) λ _ _. search holds_rules

  spawn-Holds : (executable : Text) → Holds [] (if_ok guard_process) (spawn s executable)
  unfolding spawn
  spawn-Holds executable = Holds-try create_workspace-Holds λ dir. Holds-asks _ _ λ rule_prefix.
      Holds-ask s _ _ refl (λ _. search holds_rules)
        λ _ _.
          Holds-note s _ _ refl (λ a. refl)
            (Holds-bind (shell_execute-Holds s _ _) (after_launch-Holds dir rule_prefix))

  elevated_or_both-Holds :
      (original : WfpStatusError) (r : Result SandboxError ElevatedFirewallGuard)
      → Holds (if_ok guard_process r) (if_ok owned) (elevated_or_both s original r)
  elevated_or_both-Holds original (ok guard) = search holds_rules
  elevated_or_both-Holds original (err e) = search holds_rules

  try_elevated-Holds :
      (executable : Text) (original : WfpStatusError)
      → Holds [] (if_ok owned) (try_elevated_network_guard s executable original)
  unfolding try_elevated_network_guard
  try_elevated-Holds executable original =
      Holds-if (should_try_auto_elevation original)
        (λ _. Holds-try (current_process_is_elevated-Holds s) λ elevated.
          Holds-if elevated (λ _. search holds_rules)
            (λ _. Holds-bind (spawn-Holds executable) (elevated_or_both-Holds original)))
        (λ _. search holds_rules)

  open_engine-Holds : Holds [] (if_ok engine_resource) (open_dynamic_engine s)
  unfolding open_dynamic_engine
  open_engine-Holds = Holds-ask s _ _ refl (λ _. search holds_rules) opened_engine-Holds

  app_id-Holds :
      (executable : Text) → Holds [] (if_ok blob_resource) (app_id_from_executable s executable)
  unfolding app_id_from_executable
  app_id-Holds executable = Holds-ask s _ _ refl (λ _. search holds_rules) got_app_id-Holds

  or_abort-Holds :
      (e : ℕ) (rest : Win (Result WfpStatusError Done))
      → Holds [] nothing rest
      → (r : Result WfpStatusError Done) → Holds [] nothing (or_abort s e rest r)
  or_abort-Holds e rest h (ok _) = h
  or_abort-Holds e rest h (err _) = search holds_rules

  add_filters-Holds :
      (e app_id sid : ℕ) (layers : List Layer) (index : ℕ)
      → Holds [] nothing (add_filters s e app_id sid layers index)
  unfolding add_filters add_block_filter commit
  add_filters-Holds e app_id sid [] index =
      Holds-bind {mid = nothing} (search holds_rules) (or_abort-Holds e _ (search holds_rules))
  add_filters-Holds e app_id sid (layer ∷ layers) index =
      Holds-bind {mid = nothing} (search holds_rules)
        (or_abort-Holds e _ (add_filters-Holds e app_id sid layers (suc index)))

  install_filters-Holds : (e app_id sid : ℕ) → Holds [] nothing (install_filters s e app_id sid)
  unfolding install_filters
  install_filters-Holds e app_id sid =
      Holds-ask s _ _ refl (λ _. search holds_rules) λ _ _. add_filters-Holds e app_id sid _ 0

  drop_app_id-Holds : (b : ℕ) → Holds (blob_resource b) nothing (drop_app_id s b)
  unfolding drop_app_id
  drop_app_id-Holds zero = Holds-null_blob (search holds_rules)
  drop_app_id-Holds (suc b) = Holds-last _ (search holds_rules)

  after_install-Holds :
      (executable : Text) (e b : ℕ) (r : Result WfpStatusError Done)
      → Holds
          (engine_resource e ++ blob_resource b)
          (if_ok owned)
          (after_install s executable e b r)
  after_install-Holds executable e b (ok _) = search holds_rules
  after_install-Holds executable e b (err error) = Holds-engine_close s e _ (
      Holds-bind (Holds-frame (blob_resource b) (try_elevated-Holds executable error)) λ r.
        Holds-reorder (λ q. count_swap q (if_ok owned r) (blob_resource b))
          (Holds-bind (Holds-frame (if_ok owned r) (drop_app_id-Holds b)) λ _. search holds_rules))

  with_app_id-Holds :
      (executable : Text) (sid e : ℕ) (r : Result SandboxError ℕ)
      → Holds
          (if_ok blob_resource r ++ engine_resource e)
          (if_ok owned)
          (with_app_id s executable sid e r)
  with_app_id-Holds executable sid e (err _) = search holds_rules
  with_app_id-Holds executable sid e (ok b) =
      Holds-reorder (λ q. count_swap q (blob_resource b) (engine_resource e))
        (Holds-bind
          (Holds-frame (engine_resource e ++ blob_resource b) (install_filters-Holds e b sid))
          (after_install-Holds executable e b))

  with_engine-Holds :
      (executable : Text) (sid : ℕ) (r : Result WfpStatusError ℕ)
      → Holds (if_ok engine_resource r) (if_ok owned) (with_engine s executable sid r)
  with_engine-Holds executable sid (err error) = try_elevated-Holds executable error
  with_engine-Holds executable sid (ok e) =
      Holds-bind (Holds-frame (engine_resource e) (app_id-Holds executable))
        (with_app_id-Holds executable sid e)

  install-Holds :
      (executable : Text) (sid : ℕ)
      → Holds [] (if_ok owned) (install_block_all_network_filters s executable sid)
  unfolding install_block_all_network_filters
  install-Holds executable sid = Holds-bind open_engine-Holds (with_engine-Holds executable sid)

  close_engine-Holds : (e : ℕ) → Holds (engine_resource e) nothing (close_engine s e)
  close_engine-Holds zero = Holds-null_engine (search holds_rules)
  close_engine-Holds (suc e) = Holds-last _ (search holds_rules)

  drop_guard-Holds :
      (guard : NetworkFilterGuard) → Holds (owned guard) nothing (drop_network_guard s guard)
  unfolding drop_network_guard drop_session
  drop_guard-Holds (wfp_session guard) =
      Holds-bind
        (Holds-frame (blob_resource guard.app_id_blob) (close_engine-Holds guard.session_engine))
        λ _. drop_app_id-Holds guard.app_id_blob
  drop_guard-Holds (elevated_firewall guard) = drop_firewall_guard-Holds guard

  -- Installing the network filter leaves open what its guard owns and nothing else, the engine and
  -- the executable's id or the handle of the helper, and nothing at all where it fails, whatever the
  -- system answers; and dropping a guard closes just what it owns.
  pub install_block_all_network_filters-Moves :
      (executable : Text) (sid : ℕ) (guard : NetworkFilterGuard) (log : Log)
      → let (r, log') = install_block_all_network_filters s executable sid log in
        (Moves [] (if_ok owned r) log log')
        × (Moves (owned guard) [] log (drop_network_guard s guard log).1)
  install_block_all_network_filters-Moves executable sid guard log =
      ((install-Holds executable sid).at log, (drop_guard-Holds guard).at log)
