-- ===== src/Windows/Elevation.antt =====
-- platform/windows/elevation.rs: a process that runs with administrator's rights, by its handle; and
-- what the two helpers share: their workspace's paths and the way their guards end them.
pub mod Stop
use procwarden.Common.{
  ℕ, zero, suc, ◌+◌, Bool, true, false, not, ◌&&◌, ◌||◌, Option, none, some, List, [], ◌∷◌, ◌++◌,
  Text, lit, last?, ◌==◌, if◌then◌else◌, Result, ok, err, IoError, os,
}
use procwarden.Output.{SandboxError, denied, windows, invalid_request, unavailable, io}
use procwarden.Windows.Arguments
use procwarden.Windows.Kernel.{
  System, Answer, fails, gives, Win, pure, ◌>>=◌, ◌>>◌, ◌>>?◌, call, tell, Done, as_i32,
  get_last_error, get_last_error_code, windows_error, last_error, fail_last, answer_code,
  close_handle, open_process_token, get_token_elevation, shell_execute_runas,
  wait_for_single_object, get_exit_code_process, terminate_process, write_file, remove_dir_all,
}

-- `PathBuf::join` with a plain file name: a separator, unless the path ends in one, is empty or is a
-- bare drive.
abbrev pub is_separator : ℕ → Bool
is_separator c = c == 92 || c == 47

abbrev ends_open : Option ℕ → Bool
ends_open none = false
ends_open (some c) = not (is_separator c)

abbrev is_bare_drive : Text → Bool
is_bare_drive (letter ∷ colon ∷ []) = colon == 58
is_bare_drive _ = false

unfoldable pub join : Text → Text → Text
join path name =
    if ends_open (last? path) && not (is_bare_drive path) then path ++ (92 ∷ name) else path ++ name

-- The same loop as in process.rs.
unfoldable pub quote_windows_arg : Text → Text
quote_windows_arg arg = Arguments.quote_windows_arg arg

module _ (s : System) where
  -- `Display` of `SandboxError`
  unfoldable pub display : SandboxError → Text
  display (invalid_request message) = lit "invalid sandbox request: " ++ message
  display (denied message) = lit "sandbox denied execution: " ++ message
  display (unavailable message) = lit "sandbox is unavailable on this platform: " ++ message
  display (windows message) = lit "windows sandbox error: " ++ message
  display (io e) = lit "io error: " ++ s.display_io e

  -- `std::fs` functions.
  abbrev pub fs_result : Answer → Result IoError Done
  fs_result (fails code) = err (os code)
  fs_result (gives _ _) = ok tt

  -- `ERROR_CANCELLED`
  abbrev pub refused_elevation : ℕ → SandboxError
  refused_elevation code =
      if code == 1223
      then denied (lit "administrator elevation was cancelled by user")
      else windows_error s (lit "ShellExecuteExW(runas)") (as_i32 code)

  abbrev pub launched : Answer → Win (Result SandboxError ℕ)
  launched (fails _) = call s get_last_error >>= λ a. pure (err (refused_elevation (answer_code a)))
  launched (gives zero _) =
      pure (err (windows (lit "ShellExecuteExW(runas) returned null process handle")))
  launched (gives (suc process) _) = pure (ok (suc process))

  unfoldable pub shell_execute : Text → Text → Win (Result SandboxError ℕ)
  shell_execute file parameters = call s (shell_execute_runas file parameters) >>= launched

  abbrev pub exited : Answer → Win (Result SandboxError (Option ℕ))
  exited (fails _) = fail_last s (lit "GetExitCodeProcess")
  exited (gives code _) = pure (ok (some code))

  -- `WAIT_OBJECT_0` and `WAIT_TIMEOUT`
  abbrev pub waited : ℕ → Answer → Win (Result SandboxError (Option ℕ))
  waited process (fails _) = fail_last s (lit "WaitForSingleObject")
  waited process (gives r _) =
      if r == 0
      then call s (get_exit_code_process process) >>= exited
      else if r == 0x102
      then pure (ok none)
      else fail_last s (lit "WaitForSingleObject")

  unfoldable pub try_wait_exit_code : ℕ → ℕ → Win (Result SandboxError (Option ℕ))
  try_wait_exit_code process timeout_ms =
      call s (wait_for_single_object process timeout_ms) >>= waited process

  unfoldable pub terminate : ℕ → ℕ → Win Done
  terminate process exit_code = tell s (terminate_process process exit_code)

  -- `Drop`
  unfoldable pub drop_process : ℕ → Win Done
  drop_process zero = pure tt
  drop_process (suc process) = tell s (close_handle (suc process))

  abbrev pub elevation_known : Answer → Win (Result SandboxError Bool)
  elevation_known (fails _) = fail_last s (lit "GetTokenInformation(TokenElevation)")
  elevation_known (gives elevated _) = pure (ok (not (elevated == 0)))

  abbrev pub token_opened : Answer → Win (Result SandboxError Bool)
  token_opened (fails _) = fail_last s (lit "OpenProcessToken")
  token_opened (gives token _) = call s (get_token_elevation token) >>= λ info.
      tell s (close_handle token) >> elevation_known info

  unfoldable pub current_process_is_elevated : Win (Result SandboxError Bool)
  current_process_is_elevated = call s open_process_token >>= token_opened

  -- The `Drop`s of the two guards are the same: the stop file is written, the helper is waited for
  -- and, unless it has exited, terminated; the workspace is removed and the handle closed.
  abbrev pub after_stop : ℕ → Result SandboxError (Option ℕ) → Win Done
  after_stop process (ok (some _)) = pure tt
  after_stop process (ok none) =
      terminate process 1 >> (try_wait_exit_code process 5000 >>= λ _. pure tt)
  after_stop process (err _) = terminate process 1

  unfoldable pub stop_helper : ℕ → Text → Text → Win Done
  stop_helper process stop_file workspace_dir =
      tell s (write_file stop_file (lit "stop"))
      >> (try_wait_exit_code process 5000 >>= λ exit_code.
          after_stop process exit_code
          >> (tell s (remove_dir_all workspace_dir) >> drop_process process))
