-- ===== src/Output.antt =====
-- result.rs and error.rs: what a run returns.
use procwarden.Common.{
  ℕ, Bool, Option, none, List, ◌++◌, Text, from_utf8_lossy, IoError, if◌then◌else◌, Result, ok, err,
}
use procwarden.Common.Int.{ℤ, pos}

pub data SandboxError : Type 0 where
  invalid_request : Text → SandboxError
  denied : Text → SandboxError
  unavailable : Text → SandboxError
  windows : Text → SandboxError
  io : IoError → SandboxError

-- `?` on an `io::Result` goes through `From<io::Error>`.
abbrev pub from_io {ℓ} : {A : Type ℓ} → Result IoError A → Result SandboxError A
from_io (ok a) = ok a
from_io (err e) = err (io e)

pub record SandboxExecOutput : Type 0 where
  pub exit_code : ℤ
  pub stdout : Text
  pub stderr : Text
  pub aggregated_output : Text
  -- in milliseconds
  pub duration : ℕ
  pub timed_out : Bool
  pub degraded_mode_reason : Option Text

abbrev pub timeout_exit_code : ℤ
timeout_exit_code = pos 124

unfoldable pub from_text_output : ℤ → Text → Text → ℕ → Bool → SandboxExecOutput
from_text_output exit_code stdout stderr duration timed_out = record {
  exit_code = if timed_out then timeout_exit_code else exit_code;
  stdout = stdout;
  stderr = stderr;
  aggregated_output = stdout ++ stderr;
  duration = duration;
  timed_out = timed_out;
  degraded_mode_reason = none;
}

unfoldable pub output_from_utf8_lossy : ℤ → List ℕ → List ℕ → ℕ → Bool → SandboxExecOutput
unfolding from_text_output
output_from_utf8_lossy exit_code stdout stderr duration timed_out =
    from_text_output exit_code (from_utf8_lossy stdout) (from_utf8_lossy stderr) duration timed_out

unfoldable pub with_degraded_mode_reason : SandboxExecOutput → Option Text → SandboxExecOutput
with_degraded_mode_reason output reason = record output { degraded_mode_reason = reason }
