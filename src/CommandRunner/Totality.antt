-- ===== src/CommandRunner/Totality.antt =====
-- A run with a timeout ends.
use procwarden.Common.{
  ℕ, ℤ, zero, suc, ◌+◌, ◌*◌, ◌≡◌, Bool, true, false, Bool-cases, inl, inr, leb, Result, ok, err,
  IoError, ◌≤◌, ◌≢◌, refl, none, some, Option, arith,
}
use procwarden.CommandRunner.{
  ProcessGroup, Poll, exited, timed_out, exhausted, failed, round, joined, reap, poll, after_poll,
  watch, Command, run_command_with_timeout,
}

-- The clock does not run backwards, and a sleep takes as long as it was asked to.
pub record IsClocked {W : Type 0} (group : ProcessGroup W) : Type 0 where
  pub spawn_forward :
      (c : Command) (w : W) → group.elapsed w ≤ group.elapsed (group.group_spawn c w).1
  pub try_wait_forward : (w : W) → group.elapsed w ≤ group.elapsed (group.try_wait w).1
  pub kill_forward : (w : W) → group.elapsed w ≤ group.elapsed (group.kill w).1
  pub wait_forward : (w : W) → group.elapsed w ≤ group.elapsed (group.wait w).1
  pub sleep_forward : (ms : ℕ) (w : W) → group.elapsed w + ms ≤ group.elapsed (group.sleep ms w)

-- `wait` returns for a child that `try_wait` has seen exit or that has been killed, and the pipes end
-- after it: no process that the child has left behind holds them.
pub record IsReaped {W : Type 0} (group : ProcessGroup W) : Type 0 where
  pub exit_ends :
      (w : W) → (group.try_wait w).0 ≡ ok true → group.wait_ends (group.try_wait w).1 ≡ true
  pub kill_ends : (w : W) → group.wait_ends (group.kill w).1 ≡ true
  pub pipes_end : (w : W) → group.wait_ends w ≡ true → group.pipes_end (group.wait w).1 ≡ true

module _ {W : Type 0} (group : ProcessGroup W) (clocked : IsClocked group) where
  pub poll-ends :
      (fuel timeout : ℕ) (w : W)
      → timeout + 10 ≤ group.elapsed w + 10 * fuel
      → 1 ≤ fuel
      → (poll group fuel timeout w).0 ≢ exhausted
  unfolding poll
  poll-ends zero timeout w enough h = absurd (omega arith)
  poll-ends (suc fuel) timeout w enough h = ground (
    arith,
    poll-ends fuel timeout (group.sleep 10 (group.try_wait w).1),
    clocked.try_wait_forward w,
    clocked.sleep_forward 10 (group.try_wait w).1,
  )

  module _ (reaped : IsReaped group) where
    -- A poll that has ended leaves a child that `wait` returns for, or has failed.
    abbrev CanWait : Poll × W → Type 0
    CanWait (exited, w) = group.wait_ends w ≡ true
    CanWait (timed_out, w) = group.wait_ends w ≡ true
    CanWait _ = Unit

    round-CanWait :
        (timeout : ℕ) (waited : Result IoError Bool) (w : W) (rest : Poll × W)
        → (waited ≡ ok true → group.wait_ends w ≡ true)
        → CanWait rest
        → CanWait (round group timeout waited w rest)
    round-CanWait timeout (err e) w rest h k = tt
    round-CanWait timeout (ok true) w rest h k = h refl
    round-CanWait timeout (ok false) w rest h k =
        elim (Bool-cases (leb timeout (group.elapsed w))) [
          | inl late ↦ rw late (reaped.kill_ends w)
          | inr early ↦ rw early k
        ]

    poll-CanWait : (fuel timeout : ℕ) (w : W) → CanWait (poll group fuel timeout w)
    unfolding poll
    poll-CanWait zero timeout w = tt
    poll-CanWait (suc fuel) timeout w =
        let (waited, w') = group.try_wait w in
        round-CanWait timeout waited w' _ (reaped.exit_ends w)
          (poll-CanWait fuel timeout (group.sleep 10 w'))

    joined-ne-none :
        (late : Bool) (status : Result IoError (Option ℤ)) (w : W)
        → group.pipes_end w ≡ true
        → (joined group late status w).0 ≢ none
    joined-ne-none late (err e) w h = ground arith
    joined-ne-none late (ok code) w h = rw h (ground arith)

    reap-ne-none : (late : Bool) (w : W) → group.wait_ends w ≡ true → (reap group late w).0 ≢ none
    unfolding reap
    reap-ne-none late w h =
        rw h (joined-ne-none late (group.wait w).0 (group.wait w).1 (reaped.pipes_end w h))

    after_poll-ne-none :
        (p : Poll) (w : W) → CanWait (p, w) → p ≢ exhausted → (after_poll group (p, w)).0 ≢ none
    unfolding after_poll
    after_poll-ne-none exited w can h = reap-ne-none false w can
    after_poll-ne-none timed_out w can h = reap-ne-none true w can
    after_poll-ne-none exhausted w can h = absurd (h refl)
    after_poll-ne-none (failed e) w can h = ground arith

    watch-ne-none :
        (fuel timeout : ℕ) (w : W)
        → timeout + 10 ≤ 10 * fuel
        → (watch group fuel (some timeout) w).0 ≢ none
    unfolding watch
    watch-ne-none fuel timeout w h =
        after_poll-ne-none _ _ (poll-CanWait fuel timeout w)
          (poll-ends fuel timeout w (omega arith) (omega arith))

    -- A run with a timeout ends, in an output or in an error, within a round of polling for each ten
    -- milliseconds of the timeout and one more, if the clock does not run backwards, a sleep takes as
    -- long as asked, `wait` returns for a child that has exited or that has been killed, and nothing
    -- that the child leaves behind holds its pipes.
    pub run_command_with_timeout-ends :
        (fuel : ℕ) (command : Command) (timeout : ℕ) (w : W)
        → timeout + 10 ≤ 10 * fuel
        → (run_command_with_timeout group fuel command (some timeout) w).0 ≢ none
    unfolding run_command_with_timeout
    run_command_with_timeout-ends fuel command timeout w h =
        ground (arith, watch-ne-none fuel timeout (group.group_spawn command w).1 h)
