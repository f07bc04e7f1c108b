-- ===== src/Windows/Process/Handles.antt =====
-- platform/windows/process.rs: the handles and the memory that a run opens.
use procwarden.Common.{
  ℕ, zero, suc, Bool, true, false, refl, arith, Option, List, [], ◌∷◌, ◌++◌, Text, map, Result, ok,
  err,
}
use procwarden.Output.{SandboxError}
use procwarden.Manager.{EnvMap}
use procwarden.Windows.Kernel.{
  System, Answer, fails, gives, Log, Win, pure, ◌>>=◌, ◌>>◌, ◌>>?◌, continue, call, fail_last,
  close_many, set_inherit, create_job_object, Spawn, create_pipe, create_process,
}
use procwarden.Windows.Kernel.Holds.{
  Resource, handle, Holds, Moves, Moves-trans, Moves-frame, nothing, if_ok, Holds-bind, Holds-frame,
  Holds-reorder, Holds-null_handle, count-append,
}
use procwarden.Windows.Kernel.Holds.Rules.{
  holds_rules, Holds-ask, Holds-asks, Holds-last, Holds-note, Holds-close_handle, close_many-Holds,
  fail_last-Holds, last_error-Holds, get_last_error_code-Holds,
}
use procwarden.Windows.Process.Attributes.{
  PreparedAttributes, prepare_appcontainer_child_job_attributes,
}
use procwarden.Windows.Process.Attributes.Owned.{owned, prepare-Holds, drop_prepared-Holds_last}
use procwarden.Windows.Process.{
  Pipes, pipe_handles, inherit_in, CaptureResult, setup_stdio_pipes, create_job_kill_on_close,
  created_job, read_chunks, read_pipe_to_end, wait_and_collect, exit_code_raw, spawn_request,
  is_timeout, after_wait, spawned, prepared_attributes, run_process_in_appcontainer,
}

abbrev pub pipe_resources : Pipes → List Resource
pipe_resources p = map handle (pipe_handles p)

-- What is still open after a run, by the results of setting up the pipes and the job.
abbrev pub leaked : Result SandboxError Pipes → Result SandboxError ℕ → List Resource
leaked (ok p) (err _) = pipe_resources p
leaked (ok p) (ok _) = []
leaked (err _) _ = []

module _ (s : System) where
  closes_pipes :
      (p : Pipes) (context : Text)
      → Holds
          (pipe_resources p)
          (if_ok pipe_resources)
          (close_many s (pipe_handles p) >> fail_last s context)
  closes_pipes p context =
      close_many-Holds s (pipe_handles p) _ (fail_last-Holds s context λ e. refl)

  inherits-Holds :
      (p : Pipes)
      → Holds
          (pipe_resources p)
          (if_ok pipe_resources)
          (call s (set_inherit p.in_r) >>= inherit_in s p)
  inherits-Holds p =
      Holds-ask s _ _ refl (λ _. closes_pipes p _)
        λ _ _.
          Holds-ask s _ _ refl (λ _. closes_pipes p _)
            λ _ _. Holds-ask s _ _ refl (λ _. closes_pipes p _) λ _ _. search holds_rules

  setup_stdio_pipes-Holds : Holds [] (if_ok pipe_resources) (setup_stdio_pipes s)
  unfolding setup_stdio_pipes
  setup_stdio_pipes-Holds =
      Holds-ask s create_pipe _ refl (λ _. fail_last-Holds s _ λ e. refl)
        λ in_r in_w.
          Holds-ask s create_pipe _ refl
            (λ _. close_many-Holds s (in_r ∷ in_w ∷ []) _ (fail_last-Holds s _ λ e. refl))
            λ out_r out_w.
              Holds-ask s create_pipe _ refl
                (λ _.
                  Holds-reorder {held = map handle (in_r ∷ in_w ∷ out_r ∷ out_w ∷ [])}
                    (λ r. omega arith)
                    (close_many-Holds s (in_r ∷ in_w ∷ out_r ∷ out_w ∷ []) _
                      (fail_last-Holds s _ λ e. refl)))
                λ err_r err_w.
                  Holds-reorder
                    {held = map handle (in_r ∷ in_w ∷ out_r ∷ out_w ∷ err_r ∷ err_w ∷ [])}
                    (λ r. omega arith) (inherits-Holds _)

  abbrev pub job_resource : ℕ → List Resource
  job_resource job = handle job ∷ []

  created_job-Holds :
      (job x : ℕ) → Holds (handle job ∷ []) (if_ok job_resource) (created_job s (gives job x))
  created_job-Holds zero x = Holds-null_handle (fail_last-Holds s _ λ e. refl)
  created_job-Holds (suc job) x =
      Holds-ask s _ _ refl
        (λ _. last_error-Holds s _ _ λ e. Holds-close_handle s (suc job) _ (search holds_rules))
        λ _ _. search holds_rules

  create_job-Holds : Holds [] (if_ok job_resource) (create_job_kill_on_close s)
  unfolding create_job_kill_on_close
  create_job-Holds =
      Holds-ask s create_job_object _ refl (λ _. fail_last-Holds s _ λ e. refl) created_job-Holds

  read_chunks-Holds : (h : ℕ) (chunks : List (List ℕ)) → Holds [] nothing (read_chunks s h chunks)
  unfolding read_chunks
  read_chunks-Holds h [] = Holds-last _ (search holds_rules)
  read_chunks-Holds h ([] ∷ chunks) = Holds-last _ (search holds_rules)
  read_chunks-Holds h ((b ∷ bs) ∷ chunks) =
      Holds-note s _ _ refl (λ a. refl) (read_chunks-Holds h chunks)

  read_pipe-Holds : (h : ℕ) → Holds (handle h ∷ []) nothing (read_pipe_to_end s h)
  unfolding read_pipe_to_end
  read_pipe-Holds h = Holds-asks _ _ λ chunks.
      Holds-bind (Holds-frame (handle h ∷ []) (read_chunks-Holds h chunks))
        λ _. Holds-close_handle s h _ (search holds_rules)

  exit_code_raw-Holds :
      (process : ℕ) (late : Bool) → Holds [] nothing (exit_code_raw s process late)
  exit_code_raw-Holds process true = search holds_rules
  exit_code_raw-Holds process false = search holds_rules

  -- What is open while the child runs, in the order in which it is closed.
  abbrev running : Pipes → ℕ → PreparedAttributes → ℕ → ℕ → List Resource
  running p job prepared process thread =
      map handle (p.in_r ∷ p.in_w ∷ p.out_w ∷ p.err_w ∷ [])
      ++ (map handle (thread ∷ process ∷ job ∷ [])
          ++ (map handle (p.out_r ∷ p.err_r ∷ []) ++ owned prepared))

  wait_and_collect-Holds :
      (p : Pipes) (job : ℕ) (prepared : PreparedAttributes) (timeout_ms : Option ℕ)
      (process thread : ℕ)
      → Holds
          (running p job prepared process thread)
          nothing
          (wait_and_collect s p job prepared timeout_ms process thread)
  unfolding wait_and_collect
  wait_and_collect-Holds p job prepared timeout_ms process thread =
      close_many-Holds s (p.in_r ∷ p.in_w ∷ p.out_w ∷ p.err_w ∷ []) _
        (Holds-ask s _ _ refl (λ code. collected (fails code)) λ x y. collected (gives x y))
    where
      collected :
          (waited : Answer)
          → Holds
              (map handle (thread ∷ process ∷ job ∷ [])
                ++ (map handle (p.out_r ∷ p.err_r ∷ []) ++ owned prepared))
              nothing
              (after_wait s p job prepared process thread waited)
      collected waited =
          Holds-bind (Holds-frame _ (exit_code_raw-Holds process (is_timeout waited))) λ code.
            close_many-Holds s (thread ∷ process ∷ job ∷ []) _ (
              Holds-bind (Holds-frame _ (read_pipe-Holds p.out_r)) λ stdout.
                Holds-bind (Holds-frame (owned prepared) (read_pipe-Holds p.err_r))
                  λ stderr. drop_prepared-Holds_last s prepared _ (search holds_rules))

  abbrev before_spawn : Pipes → ℕ → PreparedAttributes → List Resource
  before_spawn p job prepared = owned prepared ++ (job_resource job ++ pipe_resources p)

  spawned-Holds :
      (p : Pipes) (job : ℕ) (prepared : PreparedAttributes) (timeout_ms : Option ℕ) (spawn : Spawn)
      → Holds
          (before_spawn p job prepared)
          nothing
          (call s (create_process spawn) >>= spawned s p job prepared timeout_ms)
  spawned-Holds p job prepared timeout_ms spawn =
      Holds-ask s (create_process spawn) _ refl
        (λ _. get_last_error_code-Holds s _ λ code.
          Holds-reorder
            (λ r.
              omega (arith, count-append r (owned prepared) (job_resource job ++ pipe_resources p)))
            (close_many-Holds s (pipe_handles p ++ (job ∷ [])) _
              (drop_prepared-Holds_last s prepared _ (search holds_rules))))
        λ process thread.
          Holds-reorder
            (λ r.
              omega (arith, count-append r (owned prepared) (job_resource job ++ pipe_resources p)))
            (wait_and_collect-Holds p job prepared timeout_ms process thread)

  prepared_attributes-Holds :
      (spawn : Spawn) (p : Pipes) (job : ℕ) (timeout_ms : Option ℕ)
      (r : Result SandboxError PreparedAttributes)
      → Holds
          (if_ok owned r ++ (job_resource job ++ pipe_resources p))
          nothing
          (prepared_attributes s spawn p job timeout_ms r)
  prepared_attributes-Holds spawn p job timeout_ms (ok prepared) =
      spawned-Holds p job prepared timeout_ms _
  prepared_attributes-Holds spawn p job timeout_ms (err e) =
      Holds-reorder (λ r. omega arith)
        (close_many-Holds {held = []} s (pipe_handles p ++ (job ∷ [])) _ (search holds_rules))

  module _ (spawn : Spawn) (sid : ℕ) (timeout_ms : Option ℕ) (network_access : Bool) where
    abbrev with_job : Pipes → ℕ → Win (Result SandboxError CaptureResult)
    with_job p job =
        prepare_appcontainer_child_job_attributes s sid job network_access
        >>= prepared_attributes s spawn p job timeout_ms

    with_job-Holds :
        (p : Pipes) (job : ℕ)
        → Holds (job_resource job ++ pipe_resources p) nothing (with_job p job)
    with_job-Holds p job =
        Holds-bind
          (Holds-frame (job_resource job ++ pipe_resources p)
            (prepare-Holds s sid job network_access))
          (prepared_attributes-Holds spawn p job timeout_ms)

    job_Moves :
        (p : Pipes) (job : Result SandboxError ℕ) (log log' : Log)
        → Moves [] (if_ok job_resource job) log log'
        → Moves (pipe_resources p) (leaked (ok p) job) log (continue (with_job p) job log').1
    unfolding pure
    job_Moves p (ok job) log log' h =
        Moves-trans (pipe_resources p) (job_resource job ++ pipe_resources p) [] log log' _
          (Moves-frame [] (job_resource job) (pipe_resources p) log log' h)
          ((with_job-Holds p job).at log')
    job_Moves p (err e) log log' h = Moves-frame [] [] (pipe_resources p) log log' h

    pipes_Moves :
        (pipes : Result SandboxError Pipes) (log log' : Log)
        → Moves [] (if_ok pipe_resources pipes) log log'
        → Moves []
            (leaked pipes (create_job_kill_on_close s log').0)
            log
            (continue (λ p. create_job_kill_on_close s >>? with_job p) pipes log').1
    unfolding ◌>>=◌ pure
    pipes_Moves (ok p) log log' h = Moves-trans [] (pipe_resources p) _ log log' _ h (
        job_Moves p (create_job_kill_on_close s log').0 log' (create_job_kill_on_close s log').1
          (create_job-Holds.at log'))
    pipes_Moves (err e) log log' h = h

  -- A run closes every handle and frees all the memory that it opens, whatever the system answers,
  -- the errors included, but for one case: where the pipes are set up and the job cannot be, their
  -- six ends stay open.
  pub run_process_in_appcontainer-Moves :
      (sid : ℕ) (application_name : Text) (command : List Text) (cwd : Text) (env_map : EnvMap)
      (timeout_ms : Option ℕ) (network_access : Bool) (log : Log)
      → let (pipes, log') = setup_stdio_pipes s log in
        let (job, _) = create_job_kill_on_close s log' in
        Moves []
          (leaked pipes job)
          log
          (run_process_in_appcontainer s sid application_name command cwd env_map timeout_ms
            network_access log).1
  unfolding run_process_in_appcontainer ◌>>=◌
  run_process_in_appcontainer-Moves sid name command cwd env_map timeout_ms network_access log =
      pipes_Moves (spawn_request s name command cwd env_map) sid timeout_ms network_access
        (setup_stdio_pipes s log).0 log (setup_stdio_pipes s log).1 (setup_stdio_pipes-Holds.at log)
