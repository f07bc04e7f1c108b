-- ===== src/Windows/Elevation/Stop.antt =====
-- platform/windows/elevation.rs and the guards of the helpers: the handles, and the end of a helper.
use procwarden.Common.{
  ℕ, zero, suc, ◌≡◌, refl, ◌+◌, ◌≤◌, ◌<◌, text_eq, text_eq_iff, lit, true, Option, none, some, List,
  [], ◌∷◌, Text, ◌==◌, if◌then◌else◌, Result, ok, err, arith, inl, inr, Bool-cases,
}
use procwarden.Output.{SandboxError}
use procwarden.Windows.Kernel.{
  System, Call, Answer, fails, gives, Log, pure, ◌>>=◌, call, tell, fail_last, last_error,
  get_last_error_code, wait_for_single_object, get_exit_code_process, terminate_process,
  remove_dir_all, write_file,
}
use procwarden.Windows.Kernel.Holds.{
  Resource, handle, Holds, nothing, if_ok, Holds-bind, Holds-frame, Holds-null_handle, Holds-if,
}
use procwarden.Windows.Kernel.Holds.Rules.{holds_rules, Holds-ask, Holds-last, Holds-note}
use procwarden.Windows.Elevation.{
  shell_execute, launched, try_wait_exit_code, waited, exited, terminate, drop_process,
  current_process_is_elevated, after_stop, stop_helper,
}

abbrev pub process_resource : ℕ → List Resource
process_resource process = handle process ∷ []

abbrev same_process : ℕ → ℕ → ℕ
same_process p q = if p == q then 1 else 0

-- The last event is a wait for the process that has found it ended.
abbrev found_ended : ℕ → Log → ℕ
found_ended p ((wait_for_single_object q _, gives zero _) ∷ log) = same_process p q
found_ended p _ = 0

abbrev exit_seen : ℕ → ℕ → Answer → Log → ℕ
exit_seen p q (fails _) log = 0
exit_seen p q (gives _ _) log = if p == q then found_ended p log else 0

-- How often the system has been asked to terminate the process, or the exit code of the process has
-- been read after a wait had found the process ended. Whether a termination is refused is not asked.
abbrev pub ends : ℕ → Log → ℕ
ends p [] = 0
ends p ((terminate_process q _, _) ∷ log) = same_process p q + ends p log
ends p ((get_exit_code_process q, a) ∷ log) = exit_seen p q a log + ends p log
ends p (_ ∷ log) = ends p log

-- How often the system has been asked to remove a workspace.
abbrev pub removals : Text → Log → ℕ
removals dir [] = 0
removals dir ((remove_dir_all path, _) ∷ log) =
    (if text_eq dir path then 1 else 0) + removals dir log
removals dir (_ ∷ log) = removals dir log

abbrev Waited : ℕ → Text → Log → Result SandboxError (Option ℕ) × Log → Type 0
Waited p dir log (ok (some _), log') =
    (suc (ends p log) ≤ ends p log') × (removals dir log' ≡ removals dir log)
Waited p dir log (_, log') = (ends p log ≤ ends p log') × (removals dir log' ≡ removals dir log)

text_eq_refl : (t : Text) → text_eq t t ≡ true
text_eq_refl t = (text_eq_iff t t).1 refl

module _ (s : System) where
  pub current_process_is_elevated-Holds : Holds [] (if_ok nothing) (current_process_is_elevated s)
  unfolding current_process_is_elevated
  current_process_is_elevated-Holds = search holds_rules depth 12

  launched-Holds :
      (process x : ℕ)
      → Holds (process_resource process) (if_ok process_resource) (launched s (gives process x))
  launched-Holds zero x = Holds-null_handle (search holds_rules)
  launched-Holds (suc process) x = search holds_rules

  pub shell_execute-Holds :
      (file parameters : Text) → Holds [] (if_ok process_resource) (shell_execute s file parameters)
  unfolding shell_execute
  shell_execute-Holds file parameters =
      Holds-ask s _ _ refl (λ _. search holds_rules depth 12) launched-Holds

  pub try_wait_exit_code-Holds :
      (process timeout_ms : ℕ) → Holds [] nothing (try_wait_exit_code s process timeout_ms)
  unfolding try_wait_exit_code
  try_wait_exit_code-Holds process timeout_ms =
      Holds-ask s _ _ refl (λ _. search holds_rules)
        λ r _.
          Holds-if (r == 0) (λ _. search holds_rules depth 12)
            (λ _. Holds-if (r == 0x102) (λ _. search holds_rules) (λ _. search holds_rules))

  drop_process-Holds :
      (process : ℕ) → Holds (process_resource process) nothing (drop_process s process)
  unfolding drop_process
  drop_process-Holds zero = Holds-null_handle (search holds_rules)
  drop_process-Holds (suc process) = Holds-last _ (search holds_rules)

  after_stop-Holds :
      (process : ℕ) (r : Result SandboxError (Option ℕ)) → Holds [] nothing (after_stop s process r)
  unfolding terminate
  after_stop-Holds process (ok (some _)) = search holds_rules
  after_stop-Holds process (ok none) =
      Holds-note s _ _ refl (λ a. refl)
        (Holds-bind (try_wait_exit_code-Holds process 5000) λ _. search holds_rules)
  after_stop-Holds process (err _) = Holds-last _ (search holds_rules)

  pub stop_helper-Holds :
      (process : ℕ) (stop_file workspace_dir : Text)
      → Holds (process_resource process) nothing (stop_helper s process stop_file workspace_dir)
  unfolding stop_helper
  stop_helper-Holds process stop_file dir =
      Holds-note s _ _ refl (λ a. refl)
        (Holds-bind (Holds-frame (process_resource process) (try_wait_exit_code-Holds process 5000))
          λ r.
            Holds-bind (Holds-frame (process_resource process) (after_stop-Holds process r))
              λ _. Holds-note s _ _ refl (λ a. refl) (drop_process-Holds process))

  module _ (p : ℕ) (dir : Text) where
    exited-Waited :
        (timeout_ms x : ℕ) (a : Answer) (log : Log)
        → let log' : Log = (wait_for_single_object p timeout_ms, gives 0 x) ∷ log in
          Waited p dir log (exited s a ((get_exit_code_process p, a) ∷ log'))
    unfolding fail_last last_error get_last_error_code ◌>>=◌ pure call
    exited-Waited timeout_ms x (fails _) log = ground arith
    exited-Waited timeout_ms x (gives code _) log = ground arith

    waited-Waited :
        (timeout_ms : ℕ) (a : Answer) (log : Log)
        → Waited p dir log (waited s p a ((wait_for_single_object p timeout_ms, a) ∷ log))
    unfolding fail_last last_error get_last_error_code ◌>>=◌ pure call
    waited-Waited timeout_ms (fails _) log = ground arith
    waited-Waited timeout_ms (gives zero x) log = exited-Waited timeout_ms x _ log
    waited-Waited timeout_ms (gives (suc r) x) log = elim (Bool-cases (suc r == 0x102)) [
      | inl late ↦ rw late (ground arith)
      | inr odd ↦ rw odd (ground arith)
    ]

    try_wait-Waited :
        (timeout_ms : ℕ) (log : Log) → Waited p dir log (try_wait_exit_code s p timeout_ms log)
    unfolding try_wait_exit_code ◌>>=◌ call
    try_wait-Waited timeout_ms log =
        waited-Waited timeout_ms (s.answer log (wait_for_single_object p timeout_ms)) log

    abbrev Stopped : Log → Log → Type 0
    Stopped log log' = (suc (ends p log) ≤ ends p log') × (removals dir log' ≡ removals dir log)

    Waited-more :
        (log : Log) (r : Result SandboxError (Option ℕ) × Log)
        → Waited p dir log r
        → (ends p log ≤ ends p r.1) × (removals dir r.1 ≡ removals dir log)
    Waited-more log (ok (some _), log') w = ground arith
    Waited-more log (ok none, log') w = w
    Waited-more log (err _, log') w = w

    after_stop_ends :
        (r : Result SandboxError (Option ℕ)) (log log' : Log)
        → Waited p dir log (r, log')
        → Stopped log (after_stop s p r log').1
    unfolding terminate tell call ◌>>=◌ pure
    after_stop_ends (ok (some _)) log log' w = w
    after_stop_ends (ok none) log log' w =
        let log'' : Log = (terminate_process p 1, s.answer log' (terminate_process p 1)) ∷ log' in
        ground (
          arith,
          Waited-more log'' (try_wait_exit_code s p 5000 log'') (try_wait-Waited 5000 log''),
        )
    after_stop_ends (err _) log log' w = ground arith

    drop_process_keeps :
        (process : ℕ) (log : Log)
        → (ends p (drop_process s process log).1 ≡ ends p log)
          × (removals dir (drop_process s process log).1 ≡ removals dir log)
    unfolding drop_process tell call ◌>>=◌ pure
    drop_process_keeps zero log = (refl, refl)
    drop_process_keeps (suc n) log = (refl, refl)

  -- Dropping the guard of a helper, whatever the system answers: either a wait has found the helper
  -- ended and its exit code has been read, or the system has been asked to terminate the helper; and
  -- it has been asked once to remove the workspace. What it makes of either request is its own.
  pub stop_helper-ends :
      (process : ℕ) (stop_file workspace_dir : Text) (log : Log)
      → let log' = (stop_helper s process stop_file workspace_dir log).1 in
        (ends process log < ends process log')
        × (removals workspace_dir log' ≡ suc (removals workspace_dir log))
  unfolding stop_helper tell call ◌>>=◌ pure
  stop_helper-ends process stop_file dir log =
      let write : Call = write_file stop_file (lit "stop") in
      let log1 : Log = (write, s.answer log write) ∷ log in
      let (r, log2) = try_wait_exit_code s process 5000 log1 in
      let log3 = (after_stop s process r log2).1 in
      let log4 : Log = (remove_dir_all dir, s.answer log3 (remove_dir_all dir)) ∷ log3 in
      ground (
        arith,
        after_stop_ends process dir r log1 log2 (try_wait-Waited process dir 5000 log1),
        drop_process_keeps process dir process log4,
        text_eq_refl dir,
      )
