-- ===== src/CommandRunner.antt =====
-- platform/command_runner.rs: a command is started as a process group, polled against its timeout,
-- killed when that has passed, and reaped; its two pipes are read to the end by threads.
pub mod Timeout
pub mod Totality
use procwarden.Common.{
  ℕ, zero, suc, Bool, true, false, not, Option, none, some, List, [], ◌∷◌, ◌++◌, Text, lit, leb,
  Result, ok, err, IoError, custom, ErrorKind, if◌then◌else◌,
}
use procwarden.Common.Int.{ℤ, minus_one}
use procwarden.Paths.{PathBuf}
use procwarden.Manager.{EnvMap, Outcome}
use procwarden.Output.{SandboxError, io, SandboxExecOutput, output_from_utf8_lossy}

pub data Stdio : Type 0 where
  inherit null piped : Stdio

-- `std::process::Command`, as far as the program fills it in.
pub record Command : Type 0 where
  pub program : Text
  pub args : List Text
  pub cwd : PathBuf
  pub env : EnvMap
  pub stdin : Stdio
  pub stdout : Stdio
  pub stderr : Stdio

-- `Command::new(..).args(..)`, then `current_dir`, `env_clear` and `envs`.
unfoldable pub new_command : Text → List Text → PathBuf → EnvMap → Command
new_command program args cwd env = record {
  program = program;
  args = args;
  cwd = cwd;
  env = env;
  stdin = inherit;
  stdout = inherit;
  stderr = inherit;
}

unfoldable pub configure_piped_stdio : Command → Command
configure_piped_stdio command = record command { stdin = null; stdout = piped; stderr = piped }

-- The results of the reads of a pipe; `read_to_end` keeps what came before an error or the end.
unfoldable pub read_pipe : List (Result IoError (List ℕ)) → List ℕ
read_pipe [] = []
read_pipe (err e ∷ reads) = []
read_pipe (ok [] ∷ reads) = []
read_pipe (ok (b ∷ bytes) ∷ reads) = (b ∷ bytes) ++ read_pipe reads

-- The process group of the crate command_group, the clock and the reader threads, over a world.
-- Times are in milliseconds, and `elapsed` counts from the start of the request.
pub record ProcessGroup (W : Type 0) : Type 0 where
  pub group_spawn : Command → W → Result IoError (Unit {0}) × W
  pub has_stdout : W → Bool
  pub has_stderr : W → Bool
  pub try_wait : W → Result IoError Bool × W
  pub kill : W → Result IoError (Unit {0}) × W
  -- `wait` returns: the child has exited or has been killed. If not, it blocks.
  pub wait_ends : W → Bool
  -- The status's `code()`, which is absent after a signal.
  pub wait : W → Result IoError (Option ℤ) × W
  pub elapsed : W → ℕ
  pub sleep : ℕ → W → W
  -- Both pipes come to their end: no process holds their other ends. If not, a join blocks.
  pub pipes_end : W → Bool
  -- The reads that the thread of a pipe made, or nothing if it panicked.
  pub stdout_reads : W → Option (List (Result IoError (List ℕ)))
  pub stderr_reads : W → Option (List (Result IoError (List ℕ)))

-- The polling loop has stopped: by the child's exit, by the timeout, or by an error.
pub data Poll : Type 0 where
  exited timed_out exhausted : Poll
  failed : IoError → Poll

module _ {W : Type 0} (group : ProcessGroup W) where
  -- A round of the loop, from the answer of `try_wait`; `rest` is the loop after the sleep.
  abbrev pub round : ℕ → Result IoError Bool → W → Poll × W → Poll × W
  round timeout (err e) w rest = (failed e, w)
  round timeout (ok done) w rest =
      if done
      then (exited, w)
      else if leb timeout (group.elapsed w)
      then (timed_out, (group.kill w).1)
      else rest

  -- One round for each unit of fuel.
  unfoldable pub poll : ℕ → ℕ → W → Poll × W
  poll zero timeout w = (exhausted, w)
  poll (suc fuel) timeout w =
      let (waited, w') = group.try_wait w in
      let rest = poll fuel timeout (group.sleep 10 w') in round timeout waited w' rest

  abbrev bytes_of : Option (List (Result IoError (List ℕ))) → List ℕ
  bytes_of none = []
  bytes_of (some reads) = read_pipe reads

  abbrev code_of : Option ℤ → ℤ
  code_of none = minus_one
  code_of (some code) = code

  -- `none` is a loop that has not ended within its fuel, or a `wait` or a join that blocks.
  abbrev pub Run : Type 0
  Run = Outcome × W

  -- The two joins, and the output.
  abbrev pub joined : Bool → Result IoError (Option ℤ) → W → Run
  joined late (err e) w = (some (err (io e)), w)
  joined late (ok code) w =
      if group.pipes_end w
      then (
        some (
            ok (
              output_from_utf8_lossy (code_of code) (bytes_of (group.stdout_reads w))
                (bytes_of (group.stderr_reads w)) (group.elapsed w) late)),
        w,
      )
      else (none, w)

  -- After the loop: `wait` first.
  unfoldable pub reap : Bool → W → Run
  reap late w =
      let (status, w') = group.wait w in
      if group.wait_ends w then joined late status w' else (none, w)

  unfoldable pub after_poll : Poll × W → Run
  unfolding reap
  after_poll (exited, w) = reap false w
  after_poll (timed_out, w) = reap true w
  after_poll (exhausted, w) = (none, w)
  after_poll (failed e, w) = (some (err (io e)), w)

  unfoldable pub watch : ℕ → Option ℕ → W → Run
  unfolding poll after_poll
  watch fuel none w = reap false w
  watch fuel (some timeout) w = after_poll (poll fuel timeout w)

  abbrev unavailable_pipe : Text → IoError
  unavailable_pipe message = custom ErrorKind.other message

  unfoldable pub run_command_with_timeout : ℕ → Command → Option ℕ → W → Run
  unfolding watch
  run_command_with_timeout fuel command timeout_ms w =
      let (spawned, w') = group.group_spawn command w in
      elim spawned [
        | err e ↦ (some (err (io e)), w')
        | ok _ ↦
            if not (group.has_stdout w')
            then (some (err (io (unavailable_pipe (lit "child stdout pipe unavailable")))), w')
            else if not (group.has_stderr w')
            then (some (err (io (unavailable_pipe (lit "child stderr pipe unavailable")))), w')
            else watch fuel timeout_ms w'
      ]
