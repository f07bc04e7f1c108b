-- ===== src/Windows/Process/Timeout.antt =====
-- platform/windows/process.rs: the waiting time, as the 32-bit number of milliseconds that
-- `WaitForSingleObject` takes.
use procwarden.Common.{ℕ, ◌-◌, ◌%◌, ◌^◌, ◌<◌, ◌≤◌, ◌≡◌, ◌↔◌, Option, none, some, arith}

-- `INFINITE`
abbrev pub infinite : ℕ
infinite = 0xffffffff

-- `timeout_ms.map(|ms| ms as u32).unwrap_or(INFINITE)`
unfoldable pub wait_timeout : Option ℕ → ℕ
wait_timeout none = infinite
wait_timeout (some ms) = ms % 2 ^ 32

-- The waiting time is a 32-bit number. A requested time is kept exactly when it is below 2^32
-- milliseconds: a longer one wraps around and waits for less. Without a requested time the wait has
-- no end, and with one it has an end unless the low 32 bits of the time are all set.
pub wait_timeout_bounds :
    (timeout_ms : Option ℕ) (ms : ℕ)
    → (wait_timeout timeout_ms < 2 ^ 32)
      × ((wait_timeout (some ms) ≡ ms) ↔ (ms < 2 ^ 32))
      × (2 ^ 32 ≤ ms → wait_timeout (some ms) < ms)
      × (wait_timeout none ≡ infinite)
      × ((wait_timeout (some ms) ≡ infinite) ↔ (ms % 2 ^ 32 ≡ 2 ^ 32 - 1))
unfolding wait_timeout
wait_timeout_bounds none ms = ground arith
wait_timeout_bounds (some t) ms = ground arith
