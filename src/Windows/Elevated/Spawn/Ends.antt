-- ===== src/Windows/Elevated/Spawn/Ends.antt =====
-- platform/windows/elevated_ops.rs: starting the helper comes to an end.
use procwarden.Common.{
  ℕ, ◌≢◌, ◌≤◌, refl, Option, none, some, ◌∷◌, Text, arith, Bool-cases, inl, inr, ◌==◌, Result, ok,
  err,
}
use procwarden.Output.{SandboxError}
use procwarden.Windows.Elevated.{ElevatedOpsSpec}
use procwarden.Windows.Elevated.Ready.{IsTimed, wait_until_initialized-ends}
use procwarden.Windows.Kernel.{
  System, Call, Answer, fails, gives, Log, Win, pure, ◌>>=◌, call, tell, Done, fail_last,
  last_error, get_last_error_code, get_exit_code_process, wait_for_single_object,
}
use procwarden.Windows.Elevation.{try_wait_exit_code, waited, exited}
use procwarden.Windows.Elevated.Spawn.{
  ElevatedOpsGuard, ops_guard, helper_of, waiting, after_wait, after_launch, after_spec,
  after_script, in_workspace, spawn,
}

-- The clock does not run backwards while calls are made.
abbrev pub IsClocked : System → Type 0
IsClocked s = (c : Call) (a : Answer) (log : Log) → s.delay log ≤ s.delay ((c, a) ∷ log)

module _ (s : System) (script : Text) (clocked : IsClocked s) where
  exited_forward : (a : Answer) (log : Log) → s.delay log ≤ s.delay (exited s a log).1
  unfolding fail_last last_error get_last_error_code ◌>>=◌ pure call
  exited_forward (fails _) log = clocked _ _ log
  exited_forward (gives _ _) log = omega arith

  waited_forward :
      (process : ℕ) (a : Answer) (log : Log) → s.delay log ≤ s.delay (waited s process a log).1
  unfolding fail_last last_error get_last_error_code ◌>>=◌ pure call
  waited_forward process (fails _) log = clocked _ _ log
  waited_forward process (gives r x) log = elim (Bool-cases (r == 0)) [
    | inl zero_now ↦ rw zero_now (
        let c : Call = get_exit_code_process process in
        omega (
          arith,
          clocked c (s.answer log c) log,
          exited_forward (s.answer log c) ((c, s.answer log c) ∷ log),
        ))
    | inr other ↦ elim (Bool-cases (r == 0x102)) [
      | inl late ↦ rw (other, late) (omega arith)
      | inr odd ↦ rw (other, odd) (clocked _ _ log)
    ]
  ]

  try_wait_forward :
      (process timeout_ms : ℕ) (log : Log)
      → s.delay log ≤ s.delay (try_wait_exit_code s process timeout_ms log).1
  unfolding try_wait_exit_code ◌>>=◌ call
  try_wait_forward process timeout_ms log =
      let c : Call = wait_for_single_object process timeout_ms in
      omega (
        arith,
        clocked c (s.answer log c) log,
        waited_forward process (s.answer log c) ((c, s.answer log c) ∷ log),
      )

  helper_of-IsTimed : (guard : ElevatedOpsGuard) → IsTimed (helper_of s script guard)
  unfolding tell ◌>>=◌ call pure
  helper_of-IsTimed guard = record {
    read_forward = λ w. omega (arith, clocked _ _ w.0);
    exit_forward = λ w. omega (arith, try_wait_forward guard.process 0 w.0);
    sleep_forward = λ ms w. omega arith;
  }

  waiting_ends : (guard : ElevatedOpsGuard) (log : Log) → (waiting s script guard log).0 ≢ none
  waiting_ends guard log =
      wait_until_initialized-ends (helper_of s script guard) (helper_of-IsTimed guard) 201 (log, 0)
        (omega arith) (omega arith)

  after_wait_ends :
      (guard : ElevatedOpsGuard) (r : Option (Result SandboxError Done)) (log : Log)
      → r ≢ none
      → (after_wait s script guard r log).0 ≢ none
  unfolding ◌>>=◌ pure
  after_wait_ends guard none log h = absurd (h refl)
  after_wait_ends guard (some (ok _)) log h = ground arith
  after_wait_ends guard (some (err e)) log h = ground arith

  abbrev HasResult : {A : Type 0} → Win (Option A) → Type 0
  HasResult m = (log : Log) → (m log).0 ≢ none

  bind-HasResult :
      {A B : Type 0} (m : Win A) (k : A → Win (Option B))
      → ((a : A) → HasResult (k a))
      → HasResult (m >>= k)
  unfolding ◌>>=◌
  bind-HasResult m k h log = h (m log).0 (m log).1

  some-HasResult : {A : Type 0} (a : A) → HasResult (pure (some a))
  unfolding pure
  some-HasResult a log = ground arith

  after_launch-HasResult :
      (dir : Text) (r : Result SandboxError ℕ) → HasResult (after_launch s script dir r)
  unfolding ◌>>=◌ pure
  after_launch-HasResult dir (err e) = λ log. ground arith
  after_launch-HasResult dir (ok process) = λ log.
      let guard = ops_guard dir process in
      after_wait_ends guard (waiting s script guard log).0 (waiting s script guard log).1
        (waiting_ends guard log)

  after_spec-HasResult :
      (spec : ElevatedOpsSpec) (dir prefix : Text) (a : Answer)
      → HasResult (after_spec s script spec dir prefix a)
  after_spec-HasResult spec dir prefix (fails code) = bind-HasResult _ _ λ _. some-HasResult _
  after_spec-HasResult spec dir prefix (gives _ _) =
      bind-HasResult _ _ λ _. bind-HasResult _ _ (after_launch-HasResult dir)

  after_script-HasResult :
      (spec : ElevatedOpsSpec) (dir prefix : Text) (a : Answer)
      → HasResult (after_script s script spec dir prefix a)
  after_script-HasResult spec dir prefix (fails code) = bind-HasResult _ _ λ _. some-HasResult _
  after_script-HasResult spec dir prefix (gives _ _) =
      bind-HasResult _ _ (after_spec-HasResult spec dir prefix)

  in_workspace-HasResult :
      (spec : ElevatedOpsSpec) (r : Result SandboxError Text)
      → HasResult (in_workspace s script spec r)
  in_workspace-HasResult spec (err e) = some-HasResult _
  in_workspace-HasResult spec (ok dir) =
      bind-HasResult _ _ λ prefix. bind-HasResult _ _ (after_script-HasResult spec dir prefix)

  -- On a system whose clock does not run backwards, starting the helper for the access lists comes to
  -- an end, with a guard or an error, within the 201 rounds of the wait.
  pub spawn_ends : (spec : ElevatedOpsSpec) (log : Log) → (spawn s script spec log).0 ≢ none
  unfolding spawn
  spawn_ends spec log = bind-HasResult _ _ (in_workspace-HasResult spec) log
