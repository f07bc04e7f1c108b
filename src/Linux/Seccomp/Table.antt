-- ===== src/Linux/Seccomp/Table.antt =====
-- What the installed filter does with each system call.
use procwarden.Common.{
  ℕ, ◌%◌, ◌^◌, Bool, true, false, not, ◌&&◌, ◌≡◌, refl, Option, none, some, List, [], ◌∷◌, ◌++◌,
  if◌then◌else◌, ◌==◌, some_of, each_of, ok, arith, eperm,
}
use procwarden.Linux.Kernel.{
  System, Calls, Call, Syscall, sys_socket, sys_socketpair, sys_recvfrom, sys_other, Condition,
  SeccompRule, SeccompAction, TargetArch, SeccompFilter, seccomp_apply,
}
use procwarden.Linux.Kernel.Makes.{AllAccepted}
use procwarden.Linux.Landlock.{crate_call}
use procwarden.Linux.Seccomp.{
  syscall_code, SeccompTable, network_table, network_filter, af_unix, Seccompiler, BuildArch,
  x86_64, aarch64, other_arch, target_arch, install_network_seccomp_filter_on_current_thread,
}

-- A filter's reading, as seccompiler documents it: a call with an entry is matched if the entry has
-- no rules, or if all conditions of one rule hold.
condition_holds : (ℕ → ℕ) → Condition → Bool
condition_holds argument c =
    not
      ((if c.dword then argument c.arg_index % 2 ^ 32 else argument c.arg_index) == c.differs_from)

entry_matches : (ℕ → ℕ) → List SeccompRule → Bool
unfolding condition_holds
entry_matches argument [] = true
entry_matches argument (rule ∷ rules) =
    some_of (λ r. each_of (condition_holds argument) r) (rule ∷ rules)

find_rules : ℕ → SeccompTable → Option (List SeccompRule)
find_rules code [] = none
find_rules code ((n, rules) ∷ table) =
    let later = find_rules code table in if syscall_code n == code then some rules else later

pub filter_action : SeccompFilter → Syscall → (ℕ → ℕ) → SeccompAction
unfolding find_rules entry_matches
filter_action filter number argument = elim (find_rules (syscall_code number) filter.rules) [
  | none ↦ filter.mismatch_action
  | some rules ↦
      if entry_matches argument rules then filter.match_action else filter.mismatch_action
]

-- What the README promises of a policy without network: sockets of the Unix domain may be made, and
-- no socket may be connected, bound, listened on, sent to, received from or configured; debugging is
-- forbidden with them, and other calls are free.
abbrev pub is_forbidden : Syscall → (ℕ → ℕ) → Bool
is_forbidden sys_socket argument = not (argument 0 % 2 ^ 32 == af_unix)
is_forbidden sys_socketpair argument = not (argument 0 % 2 ^ 32 == af_unix)
is_forbidden (sys_other number) argument = false
is_forbidden _ argument = true

abbrev pub verdict : Bool → SeccompAction
verdict forbidden = if forbidden then SeccompAction.errno eperm else SeccompAction.allow

-- The call that the filter leaves out.
abbrev pub is_left_out : Syscall → Bool
is_left_out sys_recvfrom = true
is_left_out _ = false

-- The filter answers EPERM to the calls that the README says are denied and allows all others, with
-- one exception: recvfrom, which the README's recv* denies, is allowed.
pub network_filter_action :
    (arch : TargetArch) (number : Syscall) (argument : ℕ → ℕ)
    → filter_action (network_filter arch) number argument
      ≡ verdict (is_forbidden number argument && not (is_left_out number))
unfolding filter_action network_table syscall_code
network_filter_action arch sys_socket argument = ground arith
network_filter_action arch sys_socketpair argument = ground arith
network_filter_action arch (sys_other number) argument = ground arith
network_filter_action arch _ argument = refl

-- The filter of a build.
abbrev pub filters_for : BuildArch → List Call
filters_for x86_64 = seccomp_apply (network_filter TargetArch.x86_64) ∷ []
filters_for aarch64 = seccomp_apply (network_filter TargetArch.aarch64) ∷ []
filters_for other_arch = []

-- A successful installation has applied the network filter of the architecture built for, which the
-- system has accepted, and has made no other call.
pub seccomp_ok :
    (s : System) (compiler : Seccompiler) (build : BuildArch)
    → (calls : Calls)
    → (install_network_seccomp_filter_on_current_thread s compiler build calls).0 ≡ ok tt
    → ((install_network_seccomp_filter_on_current_thread s compiler build calls).1
        ≡ calls ++ filters_for build)
      × AllAccepted s calls (filters_for build)
unfolding install_network_seccomp_filter_on_current_thread target_arch crate_call
seccomp_ok s compiler x86_64 calls h = (ground arith, (ground arith, tt))
seccomp_ok s compiler aarch64 calls h = (ground arith, (ground arith, tt))
seccomp_ok s compiler other_arch calls h = absurd (ground arith)
