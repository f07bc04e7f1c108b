-- ===== src/CommandRunner/Timeout.antt =====
-- When a run is reported as timed out, and what has happened to the child by then.
use procwarden.Common.{
  ℕ, zero, suc, ◌≤◌, ◌≡◌, refl, true, false, none, some, Option, Result, ok, err, IoError, arith,
  leb, leb→le, Bool, Bool-cases, inl, inr,
}
use native.Mathlib.Nat.{le_trans}
use procwarden.Output.{SandboxExecOutput, timeout_exit_code, output_from_utf8_lossy}
use procwarden.CommandRunner.{
  ProcessGroup, Poll, exited, timed_out, exhausted, failed, round, poll, reap, after_poll, watch,
  Command, run_command_with_timeout,
}
use procwarden.CommandRunner.Totality.{IsClocked}

module _ {W : Type 0} (group : ProcessGroup W) where
  -- What a poll's end says of the child: it has exited, or the timeout has passed and it was killed.
  abbrev pub Explains : ℕ → Poll × W → Type 0
  Explains timeout (exited, w) = (v : W) × (group.try_wait v ≡ (ok true, w))
  Explains timeout (timed_out, w) = (v : W) × (timeout ≤ group.elapsed v) × (w ≡ (group.kill v).1)
  Explains timeout (failed e, w) = (v : W) × (group.try_wait v ≡ (err e, w))
  Explains timeout (exhausted, w) = Unit

  round-Explains :
      (timeout : ℕ) (waited : Result IoError Bool) (v w : W) (rest : Poll × W)
      → group.try_wait v ≡ (waited, w)
      → Explains timeout rest
      → Explains timeout (round group timeout waited w rest)
  round-Explains timeout (err e) v w rest h k = (v, h)
  round-Explains timeout (ok true) v w rest h k = (v, h)
  round-Explains timeout (ok false) v w rest h k =
      elim (Bool-cases (leb timeout (group.elapsed w))) [
        | inl late ↦ rw late (w, leb→le _ _ late, refl)
        | inr early ↦ rw early k
      ]

  -- A poll that reports an exit has seen it; one that reports a timeout has waited that long and has
  -- killed the group; one that fails has the error of `try_wait`.
  pub poll-Explains : (fuel timeout : ℕ) (w : W) → Explains timeout (poll group fuel timeout w)
  unfolding poll
  poll-Explains zero timeout w = tt
  poll-Explains (suc fuel) timeout w =
      let (waited, w') = group.try_wait w in
      round-Explains timeout waited w w' _ refl (poll-Explains fuel timeout (group.sleep 10 w'))

  -- The end of a run that the timeout has cut short.
  pub record IsLate (timeout_ms : Option ℕ) (output : SandboxExecOutput) : Type 0 where
    pub timeout : ℕ
    pub given : timeout_ms ≡ some timeout
    pub waited : timeout ≤ output.duration
    pub code : output.exit_code ≡ timeout_exit_code

  reap-false :
      (w : W) (output : SandboxExecOutput)
      → (reap group false w).0 ≡ some (ok output)
      → output.timed_out ≡ false
  unfolding reap output_from_utf8_lossy
  reap-false w output h = ground arith

  module _ (clocked : IsClocked group) where
    reap-true :
        (timeout : ℕ) (w : W) (output : SandboxExecOutput)
        → timeout ≤ group.elapsed w
        → (reap group true w).0 ≡ some (ok output)
        → IsLate (some timeout) output
    unfolding reap output_from_utf8_lossy
    reap-true timeout w output h e = record {
      timeout = timeout;
      given = refl;
      waited = ground (arith, clocked.wait_forward w);
      code = ground arith;
    }

    after_poll-IsLate :
        (timeout : ℕ) (p : Poll) (w : W) (output : SandboxExecOutput)
        → Explains timeout (p, w)
        → (after_poll group (p, w)).0 ≡ some (ok output)
        → output.timed_out ≡ true
        → IsLate (some timeout) output
    unfolding after_poll
    after_poll-IsLate timeout exited w output x h late = absurd (cc (reap-false w output h, late))
    after_poll-IsLate timeout timed_out w output (v, waited, killed) h late =
        reap-true timeout w output (rw killed (le_trans waited (clocked.kill_forward v))) h
    after_poll-IsLate timeout exhausted w output x h late = absurd (cc)
    after_poll-IsLate timeout (failed e) w output x h late = absurd (cc)

    watch-IsLate :
        (fuel : ℕ) (timeout_ms : Option ℕ) (w : W) (output : SandboxExecOutput)
        → (watch group fuel timeout_ms w).0 ≡ some (ok output)
        → output.timed_out ≡ true
        → IsLate timeout_ms output
    unfolding watch
    watch-IsLate fuel none w output h late = absurd (cc (reap-false w output h, late))
    watch-IsLate fuel (some timeout) w output h late =
        after_poll-IsLate timeout _ _ output (poll-Explains fuel timeout w) h late

    -- If the clock does not run backwards, a run whose output says that it timed out was given a
    -- timeout, has lasted that long, and has the exit code 124.
    pub run_command_with_timeout-IsLate :
        (fuel : ℕ) (command : Command) (timeout_ms : Option ℕ) (w : W) (output : SandboxExecOutput)
        → (run_command_with_timeout group fuel command timeout_ms w).0 ≡ some (ok output)
        → output.timed_out ≡ true
        → IsLate timeout_ms output
    unfolding run_command_with_timeout
    run_command_with_timeout-IsLate fuel command timeout_ms w output h late =
        watch-IsLate fuel timeout_ms (group.group_spawn command w).1 output (ground arith) late
