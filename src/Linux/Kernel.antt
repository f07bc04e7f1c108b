-- ===== src/Linux/Kernel.antt =====
-- What the child process asks of the system before it executes the command (platform/linux.rs), as
-- calls in order. The system is a record of answers, each to the calls made so far and one more, so
-- a system may answer as it likes; a run adds its calls to the list.
pub mod Keeps
pub mod Makes
use procwarden.Common.{
  ℕ, ℤ, Bool, Option, none, some, List, [], ◌∷◌, ◌++◌, Text, Result, ok, err, IoError, os, ◌≡◌,
  refl, arith,
}
use procwarden.Paths.{PathBuf}

-- Landlock's rights: those of ABI 5, and the reading ones among them.
pub data AccessFs : Type 0 where
  from_all from_read : AccessFs

pub data Syscall : Type 0 where
  sys_connect sys_accept sys_accept4 sys_bind sys_listen sys_getpeername sys_getsockname : Syscall
  sys_shutdown sys_sendto sys_sendmsg sys_sendmmsg sys_recvfrom sys_recvmsg sys_recvmmsg : Syscall
  sys_getsockopt sys_setsockopt sys_ptrace sys_socket sys_socketpair : Syscall
  -- Any other, by its number.
  sys_other : ℕ → Syscall

-- A `SeccompCondition`: an argument's index, whether its low 32 bits are compared, and the value
-- that it must differ from (`SeccompCmpOp::Ne` is the only operator used).
pub record Condition : Type 0 where
  pub arg_index : ℕ
  pub dword : Bool
  pub differs_from : ℕ

abbrev pub SeccompRule : Type 0
SeccompRule = List Condition

pub data SeccompAction : Type 0 where
  allow : SeccompAction
  errno : ℕ → SeccompAction

pub data TargetArch : Type 0 where
  x86_64 aarch64 : TargetArch

pub record SeccompFilter : Type 0 where
  pub rules : List (Syscall × List SeccompRule)
  pub mismatch_action : SeccompAction
  pub match_action : SeccompAction
  pub target_arch : TargetArch

pub data Call : Type 0 where
  unshare : ℕ → Call
  setresgid setresuid : ℕ → ℕ → ℕ → Call
  -- source, target and flags
  mount : Option PathBuf → PathBuf → ℕ → Call
  close : ℤ → Call
  getrlimit_nofile read_fd_dir : Call
  write_file : PathBuf → Text → Call
  metadata create_dir_all create_file remove_dir remove_dir_all remove_file : PathBuf → Call
  set_permissions : PathBuf → ℕ → Call
  landlock_handle_access : AccessFs → Call
  landlock_create landlock_set_no_new_privs landlock_restrict_self : Call
  landlock_add_rules : List PathBuf → AccessFs → Call
  seccomp_apply : SeccompFilter → Call

abbrev pub Calls : Type 0
Calls = List Call

pub record System : Type 0 where
  -- The `errno` of a libc call that fails.
  pub errno_of : Calls → Call → Option ℕ
  -- The error of a `std::fs` function that fails.
  pub error_of : Calls → Call → Option IoError
  -- The message of a failure in one of the crates landlock and seccompiler.
  pub refusal_of : Calls → Call → Option Text
  -- Answers that carry a value.
  pub is_dir : Calls → PathBuf → Bool
  pub exists : Calls → PathBuf → Bool
  pub fd_entries : Calls → List (Result IoError Text)
  pub nofile_limit : Calls → ℕ
  pub fully_unenforced : Calls → Bool
  pub pid : ℕ
  pub temp_dir : PathBuf
  -- `Display` of a system error code.
  pub strerror : ℕ → Text

abbrev pub Os {ℓ} : Type ℓ → Type ℓ
Os A = Calls → Result IoError A × Calls

abbrev pub pure {ℓ} : {A : Type ℓ} → A → Os A
pure a calls = (ok a, calls)

abbrev pub fail {ℓ} : {A : Type ℓ} → IoError → Os A
fail e calls = (err e, calls)

abbrev pub continue {ℓ κ} :
    {A : Type ℓ} {B : Type κ} → Result IoError A → (A → Os B) → Calls → Result IoError B × Calls
continue (ok a) f calls = f a calls
continue (err e) f calls = (err e, calls)

infixl 5 ◌>>=◌ ◌>>◌
abbrev pub ◌>>=◌ {ℓ κ} : {A : Type ℓ} {B : Type κ} → Os A → (A → Os B) → Os B
◌>>=◌ m f calls = let (r, calls') = m calls in continue r f calls'

abbrev pub ◌>>◌ {ℓ} : {B : Type ℓ} → Os (Unit {0}) → Os B → Os B
m >> k = m >>= λ _. k

-- The answer `none` is success.
abbrev pub answered : Option IoError → Result IoError (Unit {0})
answered none = ok tt
answered (some e) = err e

abbrev os_answered : Option ℕ → Result IoError (Unit {0})
os_answered none = ok tt
os_answered (some code) = err (os code)

module _ (s : System) where
  -- A libc call, whose failure is `io::Error::last_os_error()`.
  unfoldable pub libc : Call → Os (Unit {0})
  libc c calls = (os_answered (s.errno_of calls c), calls ++ (c ∷ []))

  -- A function of `std::fs`.
  unfoldable pub std_fs : Call → Os (Unit {0})
  std_fs c calls = (answered (s.error_of calls c), calls ++ (c ∷ []))

-- `let _ = …`: a result that is dropped.
abbrev pub ignore {ℓ} : {A : Type ℓ} → Os A → Os (Unit {0})
ignore m calls = (ok tt, (m calls).1)

-- A bind that ends well has gone through its first part.
module _ {ℓ κ} {A : Type ℓ} {B : Type κ} where
  continue_ok :
      (r : Result IoError A) (f : A → Os B) (calls : Calls) {b : B}
      → (continue r f calls).0 ≡ ok b
      → (a : A) × (r ≡ ok a) × (continue r f calls ≡ f a calls)
  continue_ok (ok a) f calls h = (a, refl, refl)
  continue_ok (err e) f calls h = absurd (ground arith)

  pub >>=_ok :
      (m : Os A) (f : A → Os B) (calls : Calls) {b : B}
      → ((m >>= f) calls).0 ≡ ok b
      → (a : A) × ((m calls).0 ≡ ok a) × ((m >>= f) calls ≡ f a (m calls).1)
  >>=_ok m f calls h = continue_ok (m calls).0 f (m calls).1 h

-- `map_err`
abbrev pub map_error {ℓ} : {A : Type ℓ} → (IoError → IoError) → Os A → Os A
map_error f m calls =
    let (r, calls') = m calls in elim r [ ok a ↦ (ok a, calls') | err e ↦ (err (f e), calls') ]
