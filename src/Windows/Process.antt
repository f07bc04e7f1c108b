-- ===== src/Windows/Process.antt =====
-- platform/windows/process.rs: a command is run in the AppContainer, with pipes, a job that ends
-- with its handle, a waiting time and two readers. A reader runs here where it is joined: of the
-- calls that it makes only the order among the others is another.
pub mod Attributes
pub mod Timeout
pub mod Handles
use procwarden.Common.{
  ℕ, zero, suc, ◌+◌, ◌-◌, ◌%◌, ◌^◌, ℤ, pos, Bool, true, false, Option, none, some, List, [], ◌∷◌,
  ◌++◌, Text, lit, ◌==◌, if◌then◌else◌, Result, ok, err,
}
use procwarden.Output.{SandboxError}
use procwarden.Manager.{EnvMap}
use procwarden.Windows.Arguments.{command_line_string}
use procwarden.Windows.Environment.{environment_block_for_create_process}
use procwarden.Windows.Kernel.{
  System, Answer, fails, gives, Win, pure, asks, ◌>>=◌, ◌>>◌, ◌>>?◌, call, tell, Done, Spawn,
  as_i32, get_last_error_code, windows_error, fail_last, last_error, close_many, close_handle,
  create_pipe, create_job_object, set_inherit, set_kill_on_job_close, create_process,
  wait_for_single_object, terminate_process, get_exit_code_process, read_file,
}
use procwarden.Windows.Process.Attributes.{
  PreparedAttributes, drop_prepared, prepare_appcontainer_child_job_attributes,
}
use procwarden.Windows.Process.Timeout.{wait_timeout}

pub record CaptureResult : Type 0 where
  pub exit_code : ℤ
  pub stdout : List ℕ
  pub stderr : List ℕ
  pub timed_out : Bool
  pub degraded_mode_reason : Option Text

-- `PipeHandles`
pub record Pipes : Type 0 where
  pub in_r : ℕ
  pub in_w : ℕ
  pub out_r : ℕ
  pub out_w : ℕ
  pub err_r : ℕ
  pub err_w : ℕ

abbrev pub pipe_handles : Pipes → List ℕ
pipe_handles p = p.in_r ∷ p.in_w ∷ p.out_r ∷ p.out_w ∷ p.err_r ∷ p.err_w ∷ []

abbrev pub is_timeout : Answer → Bool
is_timeout (fails _) = false
is_timeout (gives r _) = r == 0x102

abbrev pub exit_code_of : Answer → ℕ
exit_code_of (fails _) = 1
exit_code_of (gives code _) = code

-- Of the reads up to an empty one.
abbrev pub gathered : List (List ℕ) → List ℕ
gathered [] = []
gathered ([] ∷ chunks) = []
gathered ((b ∷ bs) ∷ chunks) = (b ∷ bs) ++ gathered chunks

module _ (s : System) where
  abbrev pub inherit_err : Pipes → Answer → Win (Result SandboxError Pipes)
  inherit_err p (fails _) =
      close_many s (pipe_handles p) >> fail_last s (lit "SetHandleInformation(stderr)")
  inherit_err p (gives _ _) = pure (ok p)

  abbrev pub inherit_out : Pipes → Answer → Win (Result SandboxError Pipes)
  inherit_out p (fails _) =
      close_many s (pipe_handles p) >> fail_last s (lit "SetHandleInformation(stdout)")
  inherit_out p (gives _ _) = call s (set_inherit p.err_w) >>= inherit_err p

  abbrev pub inherit_in : Pipes → Answer → Win (Result SandboxError Pipes)
  inherit_in p (fails _) =
      close_many s (pipe_handles p) >> fail_last s (lit "SetHandleInformation(stdin)")
  inherit_in p (gives _ _) = call s (set_inherit p.out_w) >>= inherit_out p

  abbrev pub third_pipe : ℕ → ℕ → ℕ → ℕ → Answer → Win (Result SandboxError Pipes)
  third_pipe in_r in_w out_r out_w (fails _) =
      close_many s (in_r ∷ in_w ∷ out_r ∷ out_w ∷ []) >> fail_last s (lit "CreatePipe(stderr)")
  third_pipe in_r in_w out_r out_w (gives err_r err_w) =
      call s (set_inherit in_r)
      >>= inherit_in (record {
        in_r = in_r;
        in_w = in_w;
        out_r = out_r;
        out_w = out_w;
        err_r = err_r;
        err_w = err_w;
      })

  abbrev pub second_pipe : ℕ → ℕ → Answer → Win (Result SandboxError Pipes)
  second_pipe in_r in_w (fails _) =
      close_many s (in_r ∷ in_w ∷ []) >> fail_last s (lit "CreatePipe(stdout)")
  second_pipe in_r in_w (gives out_r out_w) =
      call s create_pipe >>= third_pipe in_r in_w out_r out_w

  abbrev pub first_pipe : Answer → Win (Result SandboxError Pipes)
  first_pipe (fails _) = fail_last s (lit "CreatePipe(stdin)")
  first_pipe (gives in_r in_w) = call s create_pipe >>= second_pipe in_r in_w

  unfoldable pub setup_stdio_pipes : Win (Result SandboxError Pipes)
  setup_stdio_pipes = call s create_pipe >>= first_pipe

  abbrev pub limited_job : ℕ → Answer → Win (Result SandboxError ℕ)
  limited_job job (fails _) = last_error s (lit "SetInformationJobObject") >>= λ e.
      tell s (close_handle job) >> pure (err e)
  limited_job job (gives _ _) = pure (ok job)

  abbrev pub created_job : Answer → Win (Result SandboxError ℕ)
  created_job (fails _) = fail_last s (lit "CreateJobObjectW")
  created_job (gives zero _) = fail_last s (lit "CreateJobObjectW")
  created_job (gives (suc job) _) =
      call s (set_kill_on_job_close (suc job)) >>= limited_job (suc job)

  unfoldable pub create_job_kill_on_close : Win (Result SandboxError ℕ)
  create_job_kill_on_close = call s create_job_object >>= created_job

  unfoldable pub read_chunks : ℕ → List (List ℕ) → Win Done
  read_chunks handle [] = tell s (read_file handle)
  read_chunks handle ([] ∷ chunks) = tell s (read_file handle)
  read_chunks handle ((b ∷ bs) ∷ chunks) = tell s (read_file handle) >> read_chunks handle chunks

  -- What the pipe delivers from here on, read by read.
  abbrev pub delivered : ℕ → Win (List (List ℕ))
  delivered handle = asks λ log. s.chunks log handle

  unfoldable pub read_pipe_to_end : ℕ → Win (List ℕ)
  read_pipe_to_end handle = delivered handle >>= λ chunks.
      read_chunks handle chunks >> (tell s (close_handle handle) >> pure (gathered chunks))

  abbrev pub exit_code_raw : ℕ → Bool → Win ℕ
  exit_code_raw process true = tell s (terminate_process process 1) >> pure 1
  exit_code_raw process false =
      call s (get_exit_code_process process) >>= λ a. pure (exit_code_of a)

  abbrev pub after_wait :
      Pipes → ℕ → PreparedAttributes → ℕ → ℕ → Answer → Win (Result SandboxError CaptureResult)
  after_wait p job prepared process thread waited =
      exit_code_raw process (is_timeout waited) >>= λ code.
      close_many s (thread ∷ process ∷ job ∷ [])
      >> (read_pipe_to_end p.out_r >>= λ stdout. read_pipe_to_end p.err_r >>= λ stderr.
          drop_prepared s prepared
          >> pure (
              ok (record {
                exit_code = if is_timeout waited then pos 124 else as_i32 code;
                stdout = stdout;
                stderr = stderr;
                timed_out = is_timeout waited;
                degraded_mode_reason = prepared.degraded_mode_reason;
              })))

  -- The child runs: the ends that it has are closed, and it is waited for.
  unfoldable pub wait_and_collect :
      Pipes → ℕ → PreparedAttributes → Option ℕ → ℕ → ℕ → Win (Result SandboxError CaptureResult)
  wait_and_collect p job prepared timeout_ms process thread =
      close_many s (p.in_r ∷ p.in_w ∷ p.out_w ∷ p.err_w ∷ [])
      >> (call s (wait_for_single_object process (wait_timeout timeout_ms))
          >>= after_wait p job prepared process thread)

  abbrev pub spawned :
      Pipes → ℕ → PreparedAttributes → Option ℕ → Answer → Win (Result SandboxError CaptureResult)
  spawned p job prepared timeout_ms (fails _) = get_last_error_code s >>= λ code.
      close_many s (pipe_handles p ++ (job ∷ []))
      >> (drop_prepared s prepared
          >> pure (err (windows_error s (lit "CreateProcessW(AppContainer)") code)))
  spawned p job prepared timeout_ms (gives process thread) =
      wait_and_collect p job prepared timeout_ms process thread

  abbrev pub prepared_attributes :
      Spawn
      → Pipes
      → ℕ
      → Option ℕ
      → Result SandboxError PreparedAttributes
      → Win (Result SandboxError CaptureResult)
  prepared_attributes spawn p job timeout_ms (err e) =
      close_many s (pipe_handles p ++ (job ∷ [])) >> pure (err e)
  prepared_attributes spawn p job timeout_ms (ok prepared) =
      call s (
        create_process (record spawn {
          std_input = p.in_r;
          std_output = p.out_w;
          std_error = p.err_w;
          attribute_list = prepared.attribute_list;
        }))
      >>= spawned p job prepared timeout_ms

  -- What does not depend on the handles.
  abbrev pub spawn_request : Text → List Text → Text → EnvMap → Spawn
  spawn_request application_name command cwd env_map = record {
    application_name = application_name;
    command_line = command_line_string command;
    environment_block = environment_block_for_create_process s.var env_map;
    cwd = cwd;
    std_input = 0;
    std_output = 0;
    std_error = 0;
    attribute_list = 0;
  }

  unfoldable pub run_process_in_appcontainer :
      ℕ
      → Text
      → List Text
      → Text
      → EnvMap
      → Option ℕ
      → Bool
      → Win (Result SandboxError CaptureResult)
  run_process_in_appcontainer sid application_name command cwd env_map timeout_ms network_access =
      setup_stdio_pipes >>? λ p. create_job_kill_on_close >>? λ job.
      prepare_appcontainer_child_job_attributes s sid job network_access
      >>= prepared_attributes (spawn_request application_name command cwd env_map) p job timeout_ms
