-- ===== src/Linux/Seccomp.antt =====
-- platform/linux.rs: `install_network_seccomp_filter_on_current_thread`.
pub mod Table
use mathlib.Core.List.{foldl}
use procwarden.Common.{
  ℕ, ◌+◌, Bool, true, Option, none, some, List, [], ◌∷◌, ◌++◌, Text, lit, if◌then◌else◌, ◌==◌,
  Result, ok, err, IoError, custom, ErrorKind, eperm,
}
use procwarden.Linux.Kernel.{
  System, Calls, Call, Syscall, sys_connect, sys_accept, sys_accept4, sys_bind, sys_listen,
  sys_getpeername, sys_getsockname, sys_shutdown, sys_sendto, sys_sendmsg, sys_sendmmsg,
  sys_recvfrom, sys_recvmsg, sys_recvmmsg, sys_getsockopt, sys_setsockopt, sys_ptrace, sys_socket,
  sys_socketpair, sys_other, Condition, SeccompRule, SeccompAction, TargetArch, SeccompFilter,
  seccomp_apply, Os, pure, fail, ◌>>=◌, ◌>>◌,
}
use procwarden.Linux.Landlock.{crate_call}

-- A number for each system call, by which they are told apart.
unfoldable pub syscall_code : Syscall → ℕ
syscall_code sys_connect = 0
syscall_code sys_accept = 1
syscall_code sys_accept4 = 2
syscall_code sys_bind = 3
syscall_code sys_listen = 4
syscall_code sys_getpeername = 5
syscall_code sys_getsockname = 6
syscall_code sys_shutdown = 7
syscall_code sys_sendto = 8
syscall_code sys_sendmsg = 9
syscall_code sys_sendmmsg = 10
syscall_code sys_recvmsg = 11
syscall_code sys_recvmmsg = 12
syscall_code sys_getsockopt = 13
syscall_code sys_setsockopt = 14
syscall_code sys_ptrace = 15
syscall_code sys_socket = 16
syscall_code sys_socketpair = 17
syscall_code sys_recvfrom = 18
syscall_code (sys_other number) = 19 + number

abbrev pub SeccompTable : Type 0
SeccompTable = List (Syscall × List SeccompRule)

-- `BTreeMap::insert`: an equal key takes the new value.
unfoldable pub insert_rules : Syscall → List SeccompRule → SeccompTable → SeccompTable
insert_rules number rules [] = (number, rules) ∷ []
insert_rules number rules ((n, r) ∷ table) =
    let later = insert_rules number rules table in
    if syscall_code n == syscall_code number then (n, rules) ∷ table else (n, r) ∷ later

unfoldable pub deny_syscalls : List Syscall → SeccompTable → SeccompTable
unfolding insert_rules syscall_code
deny_syscalls numbers table = foldl (λ table number. insert_rules number [] table) table numbers

abbrev pub denied_syscalls : List Syscall
denied_syscalls =
    sys_connect ∷ sys_accept ∷ sys_accept4 ∷ sys_bind ∷ sys_listen ∷ sys_getpeername
    ∷ sys_getsockname ∷ sys_shutdown ∷ sys_sendto ∷ sys_sendmsg ∷ sys_sendmmsg ∷ sys_recvmsg
    ∷ sys_recvmmsg ∷ sys_getsockopt ∷ sys_setsockopt ∷ sys_ptrace ∷ []

abbrev pub af_unix : ℕ
af_unix = 1

-- The first argument, compared by its low 32 bits, is not `AF_UNIX`.
abbrev pub not_unix : Condition
not_unix = record { arg_index = 0; dword = true; differs_from = af_unix }

unfoldable pub network_table : SeccompTable
unfolding deny_syscalls
network_table =
    insert_rules sys_socketpair ((not_unix ∷ []) ∷ [])
      (insert_rules sys_socket ((not_unix ∷ []) ∷ []) (deny_syscalls denied_syscalls []))

-- The architecture that the program is built for.
pub data BuildArch : Type 0 where
  x86_64 aarch64 other_arch : BuildArch

-- The checks of the crate seccompiler: the message of a refusal.
pub record Seccompiler : Type 0 where
  pub condition_refusal : Condition → Option Text
  pub rule_refusal : SeccompRule → Option Text
  pub filter_refusal : SeccompFilter → Option Text
  pub compile_refusal : SeccompFilter → Option Text

-- `to_io_error`
abbrev checked {ℓ} : {A : Type ℓ} → Option Text → A → Result IoError A
checked none a = ok a
checked (some message) a = err (custom ErrorKind.permission_denied message)

abbrev lift {ℓ} : {A : Type ℓ} → Result IoError A → Os A
lift r calls = (r, calls)

unfoldable pub target_arch : BuildArch → Result IoError TargetArch
target_arch x86_64 = ok TargetArch.x86_64
target_arch aarch64 = ok TargetArch.aarch64
target_arch other_arch =
    err (custom ErrorKind.unsupported (lit "unsupported architecture for seccomp sandbox"))

abbrev pub network_filter : TargetArch → SeccompFilter
network_filter arch = record {
  rules = network_table;
  mismatch_action = SeccompAction.allow;
  match_action = SeccompAction.errno eperm;
  target_arch = arch;
}

unfoldable pub install_network_seccomp_filter_on_current_thread :
    System → Seccompiler → BuildArch → Os (Unit {0})
install_network_seccomp_filter_on_current_thread s compiler build = do
  condition ← lift (checked (compiler.condition_refusal not_unix) not_unix)
  unix_only ← lift (checked (compiler.rule_refusal (condition ∷ [])) (condition ∷ []))
  arch ← lift (target_arch build)
  filter ← lift (checked (compiler.filter_refusal (network_filter arch)) (network_filter arch))
  program ← lift (checked (compiler.compile_refusal filter) filter)
  crate_call s (seccomp_apply program)
