-- ===== src/Windows/Elevated.antt =====
-- platform/windows/elevated_ops.rs: the specification that is written for the elevated helper, and
-- the wait for its ready signal. A path is a text here; the helper is the record `Helper`.
pub mod Lines
pub mod Ready
pub mod Shell
pub mod Script
pub mod Spawn
use procwarden.Common.{
  ℕ, zero, suc, ◌-◌, Bool, true, false, not, ◌||◌, Option, none, some, List, [], ◌∷◌, ◌++◌, map,
  Text, lit, trim, strip_prefix, join_with, decimal, eq_ignore_ascii_case, is_empty, keep, drop,
  length, leb, ◌==◌, if◌then◌else◌, Result, ok, err, IoError, ErrorKind, raw_os_error,
}
use procwarden.Output.{SandboxError, denied, io}
use procwarden.Windows.Environment.{split_at}

pub record ElevatedOpsSpec : Type 0 where
  pub sid_string : Text
  pub executable : Text
  pub block_network : Bool
  pub allow_readonly_paths : List Text
  pub allow_readwrite_paths : List Text
  pub deny_write_paths : List Text
  pub deny_readwrite_paths : List Text

-- `format!("dn\t{}", path)` for each path of a list, with the tag of the list.
abbrev pub tagged : Text → List Text → List Text
tagged tag paths = map (λ path. tag ++ (9 ∷ path)) paths

unfoldable pub spec_lines : ElevatedOpsSpec → List Text
spec_lines spec =
    tagged (lit "dn") spec.deny_readwrite_paths
    ++ (tagged (lit "dw") spec.deny_write_paths
        ++ (tagged (lit "ro") spec.allow_readonly_paths
            ++ tagged (lit "rw") spec.allow_readwrite_paths))

abbrev pub line_feed : ℕ
line_feed = 10

abbrev pub lines_text : List Text → Text
lines_text lines =
    if is_empty lines then [] else join_with (line_feed ∷ []) lines ++ (line_feed ∷ [])

unfoldable pub serialize_acl_spec : ElevatedOpsSpec → Text
serialize_acl_spec spec = lines_text (spec_lines spec)

pub data ReadySignal : Type 0 where
  pending ready : ReadySignal
  failed : Text → ReadySignal

abbrev is_absent : ErrorKind → Bool
is_absent ErrorKind.not_found = true
is_absent ErrorKind.permission_denied = true
is_absent _ = false

abbrev is_code : ℕ → Option ℕ → Bool
is_code code none = false
is_code code (some n) = n == code

-- The signal in the contents of the ready file, or in the error of reading it. `kind_of` is Rust's
-- table of the error kinds of Windows codes.
unfoldable pub read_ready_signal :
    (IoError → ErrorKind) → Result IoError Text → Result SandboxError ReadySignal
read_ready_signal kind_of (ok contents) =
    let normalized = trim contents in
    if is_empty normalized
    then ok pending
    else if eq_ignore_ascii_case normalized (lit "ok")
    then ok ready
    else elim (strip_prefix normalized (lit "error:")) [
      | none ↦ ok (failed normalized)
      | some error ↦ ok (failed (trim error))
    ]
read_ready_signal kind_of (err e) =
    if is_absent (kind_of e) || is_code 32 (raw_os_error e) then ok pending else err (io e)

-- `str::lines`: a carriage return before the line feed is no part of the line.
strip_return : Text → Text
strip_return [] = []
strip_return (c ∷ []) = if c == 13 then [] else c ∷ []
strip_return (c ∷ d ∷ s) = c ∷ strip_return (d ∷ s)

ended_lines : List Text → List Text
unfolding strip_return
ended_lines [] = []
ended_lines (part ∷ []) = if is_empty part then [] else part ∷ []
ended_lines (part ∷ next ∷ parts) = strip_return part ∷ ended_lines (next ∷ parts)

abbrev is_not_found : ErrorKind → Bool
is_not_found ErrorKind.not_found = true
is_not_found _ = false

abbrev progress_lines : List Text → ℕ → Text
progress_lines lines max_lines =
    if is_empty lines
    then lit "(no progress lines)"
    else join_with (lit " || ") (drop (length lines - max_lines) lines)

unfoldable pub read_progress_tail :
    (IoError → ErrorKind) → (IoError → Text) → Result IoError Text → ℕ → Text
unfolding ended_lines
read_progress_tail kind_of display_error (ok content) max_lines =
    progress_lines
      (keep (λ line. not (is_empty (trim line))) (ended_lines (split_at line_feed content)))
      max_lines
read_progress_tail kind_of display_error (err e) max_lines =
    if is_not_found (kind_of e)
    then lit "(progress file missing)"
    else lit "(failed to read progress file: " ++ (display_error e ++ lit ")")

-- The helper process and its files, over a world. Times are in milliseconds.
pub record Helper (W : Type 0) : Type 0 where
  pub read_ready : W → Result IoError Text × W
  pub read_progress : W → Result IoError Text
  pub try_wait_exit_code : W → Result SandboxError (Option ℕ) × W
  pub elapsed : W → ℕ
  pub sleep : ℕ → W → W
  pub workspace_dir : Text
  pub kind_of : IoError → ErrorKind
  pub display_error : IoError → Text

module _ {W : Type 0} (helper : Helper W) where
  abbrev pub refusal : Text → W → Result SandboxError (Unit {0})
  refusal message w = err (
      denied (
        message
        ++ read_progress_tail helper.kind_of helper.display_error (helper.read_progress w) 20))

  -- After a pending signal: has the helper exited, or is the time over?
  abbrev pub after_pending :
      Result SandboxError (Option ℕ)
      → W
      → Option (Result SandboxError (Unit {0})) × W
      → Option (Result SandboxError (Unit {0})) × W
  after_pending (err e) w rest = (some (err e), w)
  after_pending (ok (some exit_code)) w rest = (
    some (
        refusal
          (lit
              "automatic administrator elevated-ops helper exited before initialization (exit code "
            ++ (decimal exit_code
                ++ (lit ", workspace: " ++ (helper.workspace_dir ++ lit ", last progress: "))))
          w),
    w,
  )
  after_pending (ok none) w rest =
      if leb 20000 (helper.elapsed w)
      then (
        some (
            refusal
              (lit
                  "automatic administrator elevated-ops helper timed out before readiness (workspace: "
                ++ (helper.workspace_dir ++ lit ", last progress: "))
              w),
        w,
      )
      else rest

  abbrev pub after_signal :
      Result SandboxError ReadySignal
      → W
      → Option (Result SandboxError (Unit {0})) × W
      → Option (Result SandboxError (Unit {0})) × W
  after_signal (err e) w pend = (some (err e), w)
  after_signal (ok ready) w pend = (some (ok tt), w)
  after_signal (ok (failed message)) w pend = (
    some (
        refusal
          (lit "automatic administrator elevated-ops initialization failed: "
            ++ (message ++ lit "; last progress: "))
          w),
    w,
  )
  after_signal (ok pending) w pend = pend

  -- One round for each unit of fuel; `none` is a loop that has not ended within it.
  unfoldable pub wait_until_initialized : ℕ → W → Option (Result SandboxError (Unit {0})) × W
  wait_until_initialized zero w = (none, w)
  wait_until_initialized (suc fuel) w =
      let (contents, w') = helper.read_ready w in
      let (exited, w'') = helper.try_wait_exit_code w' in
      let rest = wait_until_initialized fuel (helper.sleep 100 w'') in
      after_signal (read_ready_signal helper.kind_of contents) w' (after_pending exited w'' rest)
