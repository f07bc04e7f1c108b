-- ===== src/Common/Int.antt =====
-- Signed integers: exit codes and file descriptors.
use Prim.Native.Nat.{ℕ}

-- `negsuc n` is -(n + 1).
pub data ℤ : Type 0 where
  pos : ℕ → ℤ
  negsuc : ℕ → ℤ

-- `-1`
abbrev pub minus_one : ℤ
minus_one = negsuc 0
