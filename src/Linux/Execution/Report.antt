-- ===== src/Linux/Execution/Report.antt =====
-- How the failure of the child's closure reaches the caller.
use procwarden.Common.{
  ℕ, ℤ, true, false, [], ◌∷◌, Result, none, subst, if◌then◌else◌, ebadf, ◌==◌, Bool-cases, inl, inr,
  ◌≡◌, refl, Option, some, List, ◌++◌, Text, lit, is_empty, ok, err, IoError, os, custom, ErrorKind,
  kind, einval,
}
use procwarden.Policy.{SandboxPolicy}
use procwarden.Manager.{SandboxCommandRequest, Outcome}
use procwarden.Output.{SandboxError, unavailable, io}
use procwarden.CommandRunner.{ProcessGroup, Command, run_command_with_timeout}
use procwarden.Linux.Kernel.{
  System, Calls, Call, close, Os, continue, ◌>>=◌, libc, getrlimit_nofile,
}
use procwarden.Linux.Scope.{HostPaths}
use procwarden.Linux.Namespace.{display_error}
use procwarden.Linux.Overlay.{ReadWriteOverlayEntry}
use procwarden.Linux.Fds.{
  is_stdio, ignore_ebadf, close_round, close_fd_ignore_ebadf, close_fds, attempt, or_else,
  collect_open_fds_from_proc, collect_fd_range_from_rlimit, close_non_stdio_fds_on_current_process,
}
use procwarden.Linux.Execution.{
  mount_overlay_entries, Launch, restrict, pre_exec, with_pre_exec, explain, explain_overlay_error,
  is_overlay_namespace_unavailable_error, reported_error, linux_command, execute,
}

-- A failure of a system call, which carries a code and no message.
abbrev HasCode {ℓ} : {A : Type ℓ} → Result IoError A → Type 0
HasCode (err (custom k message)) = ⊥
HasCode _ = Unit

abbrev Coded {ℓ} : {A : Type ℓ} → Os A → Type 0
Coded m = (calls : Calls) → HasCode (m calls).0

continue-HasCode {ℓ κ} :
    {A : Type ℓ} {B : Type κ} (r : Result IoError A) (f : A → Os B) (calls : Calls)
    → HasCode r
    → ((a : A) → Coded (f a))
    → HasCode (continue r f calls).0
continue-HasCode (ok a) f calls h k = k a calls
continue-HasCode (err (os code)) f calls h k = tt
continue-HasCode (err (custom kind message)) f calls h k = absurd h

bind-Coded {ℓ κ} :
    {A : Type ℓ} {B : Type κ} (m : Os A) (f : A → Os B)
    → Coded m
    → ((a : A) → Coded (f a))
    → Coded (m >>= f)
bind-Coded m f hm hf calls = continue-HasCode (m calls).0 f (m calls).1 (hm calls) hf

module _ (s : System) where
  libc-Coded : (c : Call) → Coded (libc s c)
  unfolding libc
  libc-Coded c calls = answered (s.errno_of calls c)
    where
      answered :
          (e : Option ℕ)
          → HasCode (elim e as (λ _. Result IoError (Unit {0})) [
            | none ↦ ok tt
            | some code ↦ err (os code)
          ])
      answered none = tt
      answered (some code) = tt

  ignore_ebadf-HasCode : (r : Result IoError (Unit {0})) → HasCode r → HasCode (ignore_ebadf s r)
  ignore_ebadf-HasCode (ok _) h = tt
  ignore_ebadf-HasCode (err (os code)) h =
      elim (code == ebadf) as (λ b. HasCode (if b then ok tt else err (os code))) [
        | true ↦ tt
        | false ↦ tt
      ]
  ignore_ebadf-HasCode (err (custom k message)) h = absurd h

  close_fd-Coded : (fd : ℤ) → Coded (close_fd_ignore_ebadf s fd)
  unfolding close_fd_ignore_ebadf
  close_fd-Coded fd calls =
      ignore_ebadf-HasCode (libc s (close fd) calls).0 (libc-Coded (close fd) calls)

  close_round-Coded : (fd : ℤ) (rest : Os (Unit {0})) → Coded rest → Coded (close_round s fd rest)
  close_round-Coded fd rest h calls = elim (Bool-cases (is_stdio fd)) [
    | inl stdio ↦ rw stdio (h calls)
    | inr other ↦
        rw other
          (bind-Coded (close_fd_ignore_ebadf s fd) (λ _. rest) (close_fd-Coded fd) (λ _. h) calls)
  ]

  close_fds-Coded : (fds : List ℤ) → Coded (close_fds s fds)
  unfolding close_fds
  close_fds-Coded [] calls = tt
  close_fds-Coded (fd ∷ fds) calls =
      close_round-Coded fd (close_fds s fds) (close_fds-Coded fds) calls

  range-Coded : Coded (collect_fd_range_from_rlimit s)
  unfolding collect_fd_range_from_rlimit
  range-Coded = bind-Coded (libc s getrlimit_nofile) _ (libc-Coded _) (λ _ calls. tt)

  attempt-HasCode :
      (r : Result IoError (List ℤ)) (calls : Calls)
      → HasCode (attempt s r (collect_fd_range_from_rlimit s) calls).0
  attempt-HasCode (ok fds) calls = tt
  attempt-HasCode (err e) calls = range-Coded calls

  -- The closing of the descriptors fails only with the code of a system call.
  closing-Coded : Coded (close_non_stdio_fds_on_current_process s)
  unfolding close_non_stdio_fds_on_current_process
  closing-Coded =
      bind-Coded (or_else s (collect_open_fds_from_proc s) (collect_fd_range_from_rlimit s)) _
        (λ calls.
          attempt-HasCode (collect_open_fds_from_proc s calls).0
            (collect_open_fds_from_proc s calls).1)
        close_fds-Coded

-- A closure that fails with a message has failed before the closing of the descriptors.
restrict_failed :
    (launch : Launch) (r : Result IoError (Unit {0})) (calls : Calls) (k : ErrorKind)
    (message : Text)
    → (continue r (λ _. close_non_stdio_fds_on_current_process launch.system) calls).0
      ≡ err (custom k message)
    → r ≡ err (custom k message)
restrict_failed launch (ok _) calls k message h =
    absurd (subst HasCode h (closing-Coded launch.system calls))
restrict_failed launch (err e) calls k message h = cc h

-- The spawn of a child whose closure fails with a message fails, with the code that is reported.
run-closure_failed :
    (launch : Launch) (policy : SandboxPolicy) (entries : List ReadWriteOverlayEntry)
    (group : ProcessGroup Calls) (fuel : ℕ) (command : Command) (timeout_ms : Option ℕ)
    (calls : Calls) (k : ErrorKind) (message : Text)
    → (pre_exec launch policy entries calls).0 ≡ err (custom k message)
    → (run_command_with_timeout
        (with_pre_exec launch policy entries group)
        fuel
        command
        timeout_ms
        calls).0
      ≡ some (err (io (reported_error (custom k message))))
unfolding run_command_with_timeout with_pre_exec pre_exec
run-closure_failed launch policy entries group fuel command timeout_ms calls k message h =
    rw
      (
        restrict_failed launch (restrict launch policy entries calls).0
            (restrict launch policy entries calls).1 k message h,
        run_command_with_timeout,
      )
      refl

-- What the caller is told when overlays were to be installed.
abbrev pub overlays_unavailable : System → SandboxError
overlays_unavailable system = unavailable (
    lit
      "linux path overlays require mount-namespace support (CLONE_NEWUSER/CLONE_NEWNS or CAP_SYS_ADMIN): "
    ++ display_error system (os einval))

explain-reported :
    (system : System) (k : ErrorKind) (message : Text) (r : Outcome × Calls)
    → r.0 ≡ some (err (io (reported_error (custom k message))))
    → (explain system true r).0 ≡ some (err (overlays_unavailable system))
unfolding explain_overlay_error reported_error is_overlay_namespace_unavailable_error kind
explain-reported system k message (r, calls) h = rw h refl

-- If the policy needs an overlay and the closure fails with an error that carries a message, the
-- caller is told that overlays are unavailable, with the code EINVAL: whichever step failed, be it
-- Landlock or the network filter, and whatever the message was.
pub execute-overlays_unavailable :
    (host : HostPaths) (launch : Launch) (group : ProcessGroup Calls) (fuel : ℕ)
    (request : SandboxCommandRequest) (policy : SandboxPolicy) (calls : Calls)
    (entries : List ReadWriteOverlayEntry) (k : ErrorKind) (message : Text)
    → mount_overlay_entries host policy ≡ ok entries
    → is_empty entries ≡ false
    → (pre_exec launch policy entries calls).0 ≡ err (custom k message)
    → (execute host launch group fuel request policy calls).0
      ≡ some (err (overlays_unavailable launch.system))
unfolding execute
execute-overlays_unavailable host launch group fuel request policy calls entries k message computed
      some_entry failed =
    rw (computed, some_entry)
      (explain-reported launch.system k message _ (
        run-closure_failed launch policy entries group fuel (linux_command request)
          request.timeout_ms calls k message failed))
