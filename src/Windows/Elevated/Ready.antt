-- ===== src/Windows/Elevated/Ready.antt =====
-- When the wait for the elevated helper ends, and how.
use procwarden.Common.{
  ℕ, zero, suc, ◌+◌, ◌*◌, ◌≤◌, ◌⊎◌, inl, inr, true, false, ◌≡◌, ◌≢◌, refl, Option, none, some, Text,
  lit, trim, eq_ignore_ascii_case, Result, ok, err, IoError, ErrorKind, arith, leb,
}
use procwarden.Output.{SandboxError}
use procwarden.Windows.Elevated.{
  ReadySignal, pending, ready, failed, read_ready_signal, Helper, after_pending, after_signal,
  wait_until_initialized,
}

-- The ready file was read, and says `ok` in some spelling.
pub record SaidOk {W : Type 0} (helper : Helper W) : Type 0 where
  pub at : W
  pub contents : Text
  pub read : (helper.read_ready at).0 ≡ ok contents
  pub says : eq_ignore_ascii_case (trim contents) (lit "ok") ≡ true

ready_contents :
    (kind_of : IoError → ErrorKind) (r : Result IoError Text)
    → read_ready_signal kind_of r ≡ ok ready
    → (contents : Text) × (r ≡ ok contents)
      × (eq_ignore_ascii_case (trim contents) (lit "ok") ≡ true)
unfolding read_ready_signal
ready_contents kind_of (ok contents) h = (contents, refl, ground arith)
ready_contents kind_of (err e) h = absurd (ground arith)

module _ {W : Type 0} (helper : Helper W) where
  after_pending_ok :
      (exited : Result SandboxError (Option ℕ)) (w : W)
      (rest : Option (Result SandboxError (Unit {0})) × W)
      → (after_pending helper exited w rest).0 ≡ some (ok tt)
      → rest.0 ≡ some (ok tt)
  after_pending_ok (err e) w rest h = absurd (ground arith)
  after_pending_ok (ok none) w rest h = ground arith
  after_pending_ok (ok (some code)) w rest h = absurd (ground arith)

  after_signal_ok :
      (signal : Result SandboxError ReadySignal) (w : W)
      (pend : Option (Result SandboxError (Unit {0})) × W)
      → (after_signal helper signal w pend).0 ≡ some (ok tt)
      → (signal ≡ ok ready) ⊎ (pend.0 ≡ some (ok tt))
  after_signal_ok (err e) w pend h = absurd (ground arith)
  after_signal_ok (ok ready) w pend h = inl refl
  after_signal_ok (ok pending) w pend h = inr h
  after_signal_ok (ok (failed message)) w pend h = absurd (ground arith)

  -- A wait that ends well has read a ready file that says `ok`.
  pub wait_until_initialized-SaidOk :
      (fuel : ℕ) (w : W) → (wait_until_initialized helper fuel w).0 ≡ some (ok tt) → SaidOk helper
  unfolding wait_until_initialized
  wait_until_initialized-SaidOk zero w h = absurd (ground arith)
  wait_until_initialized-SaidOk (suc fuel) w h =
      elim (after_signal_ok _ (helper.read_ready w).1 _ h) [
        | inl signal ↦
            let (contents, read, says) =
              ready_contents helper.kind_of (helper.read_ready w).0 signal in
            record { at = w; contents = contents; read = read; says = says }
        | inr later ↦ wait_until_initialized-SaidOk fuel _ (after_pending_ok _ _ _ later)
      ]

-- The clock does not run backwards, and a sleep takes as long as it was asked to.
pub record IsTimed {W : Type 0} (helper : Helper W) : Type 0 where
  pub read_forward : (w : W) → helper.elapsed w ≤ helper.elapsed (helper.read_ready w).1
  pub exit_forward : (w : W) → helper.elapsed w ≤ helper.elapsed (helper.try_wait_exit_code w).1
  pub sleep_forward : (ms : ℕ) (w : W) → helper.elapsed w + ms ≤ helper.elapsed (helper.sleep ms w)

module _ {W : Type 0} (helper : Helper W) (timed : IsTimed helper) where
  round-ends :
      (signal : Result SandboxError ReadySignal) (exited : Result SandboxError (Option ℕ)) (v w : W)
      (rest : Option (Result SandboxError (Unit {0})) × W)
      → (leb 20000 (helper.elapsed w) ≡ false → rest.0 ≢ none)
      → (after_signal helper signal v (after_pending helper exited w rest)).0 ≢ none
  round-ends (err e) exited v w rest h = ground arith
  round-ends (ok ready) exited v w rest h = ground arith
  round-ends (ok (failed message)) exited v w rest h = ground arith
  round-ends (ok pending) (err e) v w rest h = ground arith
  round-ends (ok pending) (ok none) v w rest h = ground (arith, h)
  round-ends (ok pending) (ok (some code)) v w rest h = ground arith

  -- If the clock does not run backwards and a sleep takes as long as asked, the wait ends after at most as many rounds as there are tenths of a second in its twenty seconds,
  -- and one more.
  pub wait_until_initialized-ends :
      (fuel : ℕ) (w : W)
      → 20100 ≤ helper.elapsed w + 100 * fuel
      → 1 ≤ fuel
      → (wait_until_initialized helper fuel w).0 ≢ none
  unfolding wait_until_initialized
  wait_until_initialized-ends zero w enough h = absurd (omega arith)
  wait_until_initialized-ends (suc fuel) w enough h =
      let v = (helper.read_ready w).1 in
      let w' = (helper.try_wait_exit_code v).1 in
      round-ends (read_ready_signal helper.kind_of (helper.read_ready w).0)
        (helper.try_wait_exit_code v).0 v w'
        (wait_until_initialized helper fuel (helper.sleep 100 w'))
        (λ early.
          wait_until_initialized-ends fuel (helper.sleep 100 w')
            (ground (arith, timed.read_forward w, timed.exit_forward v, timed.sleep_forward 100 w'))
            (ground
              (arith, timed.read_forward w, timed.exit_forward v, timed.sleep_forward 100 w')))
