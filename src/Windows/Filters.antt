-- ===== src/Windows/Filters.antt =====
-- platform/windows/wfp.rs: filters that block the network for an executable in the AppContainer, in
-- one transaction of a session that ends with its guard; or a helper with administrator's rights,
-- where the session is refused.
pub mod Helper
pub mod Atomic
pub mod Owned
use procwarden.Common.{
  ℕ, zero, suc, ◌+◌, ◌-◌, ◌*◌, ◌%◌, ◌^◌, Bool, true, false, ◌||◌, Option, none, some, List, [], ◌∷◌,
  ◌++◌, Text, lit, decimal, trim, strip_prefix, eq_ignore_ascii_case, is_empty, ◌==◌, leb,
  if◌then◌else◌, Result, ok, err,
}
use procwarden.Output.{SandboxError, denied, windows}
use procwarden.Windows.Kernel.{
  System, Answer, fails, gives, Win, pure, ◌>>=◌, ◌>>◌, ◌>>?◌, call, tell, Done, Layer, BlockFilter,
  auth_connect_v4, auth_connect_v6, auth_recv_accept_v4, auth_recv_accept_v6,
  resource_assignment_v4, resource_assignment_v6, as_i32, engine_open, engine_close,
  transaction_begin, transaction_commit, transaction_abort, filter_add, get_app_id, free_memory,
}
use procwarden.Windows.Elevation.{current_process_is_elevated, display}
use procwarden.Windows.Filters.Helper.{ElevatedFirewallGuard, spawn, drop_firewall_guard}

abbrev pub block_layers : List Layer
block_layers =
    auth_connect_v4 ∷ auth_connect_v6 ∷ auth_recv_accept_v4 ∷ auth_recv_accept_v6
    ∷ resource_assignment_v4 ∷ resource_assignment_v6 ∷ []

pub record WfpStatusError : Type 0 where
  pub context : Text
  pub status : ℕ

-- `ERROR_ACCESS_DENIED` and `ERROR_NOT_SUPPORTED`.
abbrev pub error_access_denied : ℕ
error_access_denied = 5

abbrev pub error_not_supported : ℕ
error_not_supported = 50

unfoldable pub should_try_auto_elevation : WfpStatusError → Bool
should_try_auto_elevation error =
    error.status == error_access_denied || error.status == error_not_supported

pub record WfpSessionGuard : Type 0 where
  pub session_engine : ℕ
  pub app_id_blob : ℕ

-- One of the two options of the struct is filled.
pub data NetworkFilterGuard : Type 0 where
  wfp_session : WfpSessionGuard → NetworkFilterGuard
  elevated_firewall : ElevatedFirewallGuard → NetworkFilterGuard

abbrev pub block_filter : Layer → ℕ → ℕ → ℕ → BlockFilter
block_filter layer app_id sid index = record {
  layer = layer;
  app_id = app_id;
  sid = sid;
  name = lit "procwarden-network-block-" ++ decimal index;
}

module _ (s : System) where
  unfoldable pub wfp_error : Text → ℕ → SandboxError
  wfp_error context status =
      let detail = s.strerror (as_i32 status) in
      if status == error_access_denied
      then denied (
          context
          ++ (lit " failed with access denied ("
              ++ (detail ++ lit "): requires privileges to install temporary WFP filters")))
      else windows
          (context ++ (lit " failed: " ++ (decimal status ++ (lit " (" ++ (detail ++ lit ")")))))

  unfoldable pub into_sandbox_error : WfpStatusError → SandboxError
  into_sandbox_error error = wfp_error error.context error.status

  abbrev pub opened_engine : Answer → Win (Result WfpStatusError ℕ)
  opened_engine (fails status) =
      pure (err (record { context = lit "FwpmEngineOpen0"; status = status }))
  opened_engine (gives zero _) =
      pure (err (record { context = lit "FwpmEngineOpen0"; status = error_not_supported }))
  opened_engine (gives (suc engine) _) = pure (ok (suc engine))

  unfoldable pub open_dynamic_engine : Win (Result WfpStatusError ℕ)
  open_dynamic_engine = call s engine_open >>= opened_engine

  abbrev pub got_app_id : Answer → Win (Result SandboxError ℕ)
  got_app_id (fails status) = pure (err (wfp_error (lit "FwpmGetAppIdFromFileName0") status))
  got_app_id (gives zero _) =
      pure (err (windows (lit "FwpmGetAppIdFromFileName0 returned null app id blob")))
  got_app_id (gives (suc blob) _) = pure (ok (suc blob))

  -- `AppIdBlob::from_executable`
  unfoldable pub app_id_from_executable : Text → Win (Result SandboxError ℕ)
  app_id_from_executable executable = call s (get_app_id executable) >>= got_app_id

  -- `Drop` of `AppIdBlob`
  unfoldable pub drop_app_id : ℕ → Win Done
  drop_app_id zero = pure tt
  drop_app_id (suc blob) = tell s (free_memory (suc blob))

  abbrev pub close_engine : ℕ → Win Done
  close_engine zero = pure tt
  close_engine (suc engine) = tell s (engine_close (suc engine))

  -- `Drop` of `WfpSessionGuard`, and then of its blob.
  unfoldable pub drop_session : WfpSessionGuard → Win Done
  drop_session guard = close_engine guard.session_engine >> drop_app_id guard.app_id_blob

  unfoldable pub drop_network_guard : NetworkFilterGuard → Win Done
  drop_network_guard (wfp_session guard) = drop_session guard
  drop_network_guard (elevated_firewall guard) = drop_firewall_guard s guard

  abbrev pub status_result : Text → Answer → Win (Result WfpStatusError Done)
  status_result context (fails status) = pure (err (record { context = context; status = status }))
  status_result context (gives _ _) = pure (ok tt)

  unfoldable pub add_block_filter : ℕ → Layer → ℕ → ℕ → ℕ → Win (Result WfpStatusError Done)
  add_block_filter engine layer app_id sid index =
      call s (filter_add engine (block_filter layer app_id sid index))
      >>= status_result (lit "FwpmFilterAdd0")

  abbrev pub or_abort :
      ℕ
      → Win (Result WfpStatusError Done)
      → Result WfpStatusError Done
      → Win (Result WfpStatusError Done)
  or_abort engine rest (ok _) = rest
  or_abort engine rest (err e) = tell s (transaction_abort engine) >> pure (err e)

  unfoldable pub commit : ℕ → Win (Result WfpStatusError Done)
  commit engine =
      (call s (transaction_commit engine) >>= status_result (lit "FwpmTransactionCommit0"))
      >>= or_abort engine (pure (ok tt))

  -- The loop over the layers from the number `index` on, and the commit.
  unfoldable pub add_filters : ℕ → ℕ → ℕ → List Layer → ℕ → Win (Result WfpStatusError Done)
  add_filters engine app_id sid [] index = commit engine
  add_filters engine app_id sid (layer ∷ layers) index =
      add_block_filter engine layer app_id sid index
      >>= or_abort engine (add_filters engine app_id sid layers (suc index))

  abbrev pub begun : ℕ → ℕ → ℕ → Answer → Win (Result WfpStatusError Done)
  begun engine app_id sid (fails status) =
      pure (err (record { context = lit "FwpmTransactionBegin0"; status = status }))
  begun engine app_id sid (gives _ _) = add_filters engine app_id sid block_layers 0

  unfoldable pub install_filters : ℕ → ℕ → ℕ → Win (Result WfpStatusError Done)
  install_filters engine app_id sid = call s (transaction_begin engine) >>= begun engine app_id sid

  abbrev pub elevated_or_both :
      WfpStatusError
      → Result SandboxError ElevatedFirewallGuard
      → Win (Result SandboxError NetworkFilterGuard)
  elevated_or_both original (ok guard) = pure (ok (elevated_firewall guard))
  elevated_or_both original (err e) = pure (
      err (
        denied (
          display s (into_sandbox_error original)
          ++ (lit "; automatic administrator elevation failed: " ++ display s e))))

  unfoldable pub try_elevated_network_guard :
      Text → WfpStatusError → Win (Result SandboxError NetworkFilterGuard)
  try_elevated_network_guard executable original =
      if should_try_auto_elevation original
      then (current_process_is_elevated s >>? λ elevated.
          if elevated
          then pure (err (into_sandbox_error original))
          else spawn s executable >>= elevated_or_both original)
      else pure (err (into_sandbox_error original))

  -- On a failure the engine is closed, the helper tried, and the blob dropped at the end.
  abbrev pub after_install :
      Text → ℕ → ℕ → Result WfpStatusError Done → Win (Result SandboxError NetworkFilterGuard)
  after_install executable engine blob (ok _) =
      pure (ok (wfp_session (record { session_engine = engine; app_id_blob = blob })))
  after_install executable engine blob (err e) =
      tell s (engine_close engine)
      >> (try_elevated_network_guard executable e >>= λ r. drop_app_id blob >> pure r)

  abbrev pub with_app_id :
      Text → ℕ → ℕ → Result SandboxError ℕ → Win (Result SandboxError NetworkFilterGuard)
  with_app_id executable sid engine (err e) = tell s (engine_close engine) >> pure (err e)
  with_app_id executable sid engine (ok blob) =
      install_filters engine blob sid >>= after_install executable engine blob

  abbrev pub with_engine :
      Text → ℕ → Result WfpStatusError ℕ → Win (Result SandboxError NetworkFilterGuard)
  with_engine executable sid (err e) = try_elevated_network_guard executable e
  with_engine executable sid (ok engine) =
      app_id_from_executable executable >>= with_app_id executable sid engine

  unfoldable pub install_block_all_network_filters :
      Text → ℕ → Win (Result SandboxError NetworkFilterGuard)
  install_block_all_network_filters executable sid =
      open_dynamic_engine >>= with_engine executable sid
