-- ===== src/Windows/Kernel.antt =====
-- The Win32 functions that the backend calls (platform/windows/), as calls in order. The system is a
-- function that answers a call from the calls and answers before it, so a system may answer as it
-- likes; a run adds its calls to the log, the last one first. Handles and pointers are numbers, null
-- is 0, and a path is a text.
pub mod Holds
use procwarden.Common.{
  ℕ, zero, suc, ◌+◌, ◌-◌, ◌^◌, ℤ, pos, negsuc, Bool, List, [], ◌∷◌, ◌++◌, Text, lit, decimal, ltb,
  if◌then◌else◌, Result, ok, err, Option, IoError, ErrorKind,
}
use procwarden.Output.{SandboxError, windows}

-- `grfAccessMode`: 2, 3 and 4.
pub data AccessMode : Type 0 where
  set_access deny_access revoke_access : AccessMode

-- An `EXPLICIT_ACCESS_W` for the sandbox's SID; whether it is inherited says if its inheritance
-- flags are those for containers and objects, or none.
pub record Entry : Type 0 where
  pub sid : ℕ
  pub mode : AccessMode
  pub access_mask : ℕ
  pub is_inherited : Bool

pub data Attribute : Type 0 where
  -- The SID, and the SIDs of the capabilities.
  security_capabilities : ℕ → List ℕ → Attribute
  child_process_policy : ℕ → Attribute
  job_list : List ℕ → Attribute

-- A layer of the filter engine: the `FWPM_LAYER_ALE_` keys.
pub data Layer : Type 0 where
  auth_connect_v4 auth_connect_v6 auth_recv_accept_v4 auth_recv_accept_v6 : Layer
  resource_assignment_v4 resource_assignment_v6 : Layer

-- A filter that blocks what the executable does in the AppContainer.
pub record BlockFilter : Type 0 where
  pub layer : Layer
  pub app_id : ℕ
  pub sid : ℕ
  pub name : Text

-- What `CreateProcessW` is given, besides flags that are always the same.
pub record Spawn : Type 0 where
  pub application_name : Text
  pub command_line : Text
  pub environment_block : Option (List ℕ)
  pub cwd : Text
  pub std_input : ℕ
  pub std_output : ℕ
  pub std_error : ℕ
  pub attribute_list : ℕ

pub data Call : Type 0 where
  get_last_error open_process_token : Call
  close_handle local_free : ℕ → Call
  -- acl.rs
  get_named_security_info : Text → Call
  get_security_info : ℕ → Call
  set_entries_in_acl : Entry → ℕ → Call
  set_named_security_info : Text → ℕ → Call
  set_security_info : ℕ → ℕ → Call
  open_device : Text → ℕ → Call
  -- process.rs
  create_pipe create_job_object : Call
  set_inherit set_kill_on_job_close : ℕ → Call
  convert_string_sid : Text → Call
  attribute_list_size : ℕ → Call
  initialize_attribute_list : ℕ → ℕ → Call
  update_attribute : ℕ → Attribute → Call
  delete_attribute_list : ℕ → Call
  create_process : Spawn → Call
  -- milliseconds
  wait_for_single_object : ℕ → ℕ → Call
  terminate_process : ℕ → ℕ → Call
  get_exit_code_process read_file : ℕ → Call
  -- elevation.rs
  shell_execute_runas : Text → Text → Call
  get_token_elevation : ℕ → Call
  -- token.rs and util.rs
  create_profile : Text → List ℕ → Call
  derive_sid delete_profile : Text → Call
  convert_sid_to_string : ℕ → Call
  -- wfp.rs
  engine_open : Call
  engine_close transaction_begin transaction_commit transaction_abort : ℕ → Call
  filter_add : ℕ → BlockFilter → Call
  get_app_id : Text → Call
  free_memory : ℕ → Call
  -- std::fs, for the helper's workspace
  write_file : Text → Text → Call
  create_dir_all remove_dir_all remove_file read_to_string : Text → Call

-- Failure with a code, where a function returns one (a Boolean function has its own in the answer to
-- `get_last_error`), or success with at most two values.
pub data Answer : Type 0 where
  fails : ℕ → Answer
  gives : ℕ → ℕ → Answer

abbrev pub Log : Type 0
Log = List (Call × Answer)

pub record System : Type 0 where
  pub answer : Log → Call → Answer
  -- `std::io::Error::from_raw_os_error(code).to_string()`
  pub strerror : ℤ → Text
  -- `std::env::var`
  pub var : Text → Option Text
  -- `std::process::id()`, `random::<u32>()` and `std::env::temp_dir()`
  pub pid : ℕ
  pub random : Log → ℕ
  pub temp_dir : Text
  -- `std::fs::read_to_string`
  pub contents : Log → Text → Result IoError Text
  -- The string that is at a pointer, by `String::from_utf16_lossy`.
  pub wide_text : Log → ℕ → Text
  -- What a wait has taken beyond its sleeps, in milliseconds.
  pub delay : Log → ℕ
  -- Rust's table of the error kinds of Windows codes, and `Display` of an `io::Error`.
  pub kind_of : IoError → ErrorKind
  pub display_io : IoError → Text
  -- What a pipe delivers, read by read, before a read fails.
  pub chunks : Log → ℕ → List (List ℕ)

abbrev pub Win {ℓ} : Type ℓ → Type ℓ
Win A = Log → A × Log

unfoldable pub pure {ℓ} : {A : Type ℓ} → A → Win A
pure a log = (a, log)

-- What the system says by the log, with no call.
unfoldable pub asks {ℓ} : {A : Type ℓ} → (Log → A) → Win A
asks f log = (f log, log)

infixl 5 ◌>>=◌ ◌>>◌ ◌>>?◌
unfoldable pub ◌>>=◌ {ℓ κ} : {A : Type ℓ} {B : Type κ} → Win A → (A → Win B) → Win B
◌>>=◌ m f log = let (a, log') = m log in f a log'

abbrev pub ◌>>◌ {ℓ κ} : {A : Type ℓ} {B : Type κ} → Win A → Win B → Win B
m >> k = m >>= λ _. k

-- `?`
abbrev pub continue {ℓ κ μ} :
    {E : Type ℓ} {A : Type κ} {B : Type μ} → (A → Win (Result E B)) → Result E A → Win (Result E B)
continue f (ok a) = f a
continue f (err e) = pure (err e)

abbrev pub ◌>>?◌ {ℓ κ μ} :
    {E : Type ℓ} {A : Type κ} {B : Type μ}
    → Win (Result E A)
    → (A → Win (Result E B))
    → Win (Result E B)
m >>? f = m >>= continue f

abbrev pub Done : Type 0
Done = Unit

-- `code as i32` of a 32-bit number, and its `Display`.
unfoldable pub as_i32 : ℕ → ℤ
as_i32 code = if ltb code (2 ^ 31) then pos code else negsuc (2 ^ 32 - 1 - code)

unfoldable pub signed : ℤ → Text
signed (pos n) = decimal n
signed (negsuc n) = lit "-" ++ decimal (n + 1)

abbrev pub answer_code : Answer → ℕ
answer_code (fails code) = code
answer_code (gives code _) = code

module _ (s : System) where
  unfoldable pub call : Call → Win Answer
  call c log = let a = s.answer log c in (a, (c, a) ∷ log)

  -- A call whose answer is not looked at.
  unfoldable pub tell : Call → Win Done
  tell c = call c >>= λ _. pure tt

  unfoldable pub get_last_error_code : Win ℤ
  unfolding as_i32
  get_last_error_code = call get_last_error >>= λ a. pure (as_i32 (answer_code a))

  unfoldable pub windows_error : Text → ℤ → SandboxError
  unfolding signed
  windows_error context code =
      windows (
        context ++ (lit " failed: " ++ (signed code ++ (lit " (" ++ (s.strerror code ++ lit ")")))))

  unfoldable pub last_error : Text → Win SandboxError
  unfolding get_last_error_code windows_error
  last_error context = get_last_error_code >>= λ code. pure (windows_error context code)

  -- `return Err(last_error(context))`
  unfoldable pub fail_last {ℓ} : {A : Type ℓ} → Text → Win (Result SandboxError A)
  unfolding last_error
  fail_last context = last_error context >>= λ e. pure (err e)

  -- `if !p.is_null() { LocalFree(p) }`
  unfoldable pub free_unless_null : ℕ → Win Done
  free_unless_null zero = pure tt
  free_unless_null (suc p) = tell (local_free (suc p))

  -- `Drop` of a list of SIDs.
  unfoldable pub free_all : List ℕ → Win Done
  free_all [] = pure tt
  free_all (p ∷ ps) = free_unless_null p >> free_all ps

  unfoldable pub close_many : List ℕ → Win Done
  close_many [] = pure tt
  close_many (zero ∷ handles) = close_many handles
  close_many (suc h ∷ handles) = tell (close_handle (suc h)) >> close_many handles
