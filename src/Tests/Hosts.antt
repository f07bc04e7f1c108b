-- ===== src/Tests/Hosts.antt =====
-- The systems, requests and policies that the runs use.
use procwarden.Common.{Bool, ℕ, ◌+◌, true, false, none, some, [], ◌∷◌, lit, ok}
use procwarden.Common.Int.{pos}
use procwarden.Policy.{SandboxPolicy, no_access, read_only, deny, allow_read_only, allow_read_write}
use procwarden.Manager.{SandboxCommandRequest, EnvMap}
use procwarden.CapFs.{FileSystem}
use procwarden.CommandRunner.{ProcessGroup}
use procwarden.Linux.Kernel.{System}
use procwarden.Linux.Scope.{HostPaths}
use procwarden.Linux.Seccomp.{Seccompiler, x86_64}
use procwarden.Linux.Execution.{Launch}

abbrev pub env : EnvMap
env = (lit "PATH", lit "/bin") ∷ (lit "LD_PRELOAD", lit "evil.so") ∷ []

abbrev pub request : SandboxCommandRequest
request = record {
  command = lit "/bin/true" ∷ [];
  cwd = lit "/work";
  env = env;
  timeout_ms = some 20;
}

abbrev pub empty_request : SandboxCommandRequest
empty_request = record request { command = [] }

-- Everything is readable but a secret, and the work directory is writable.
abbrev pub policy : SandboxPolicy
policy = record {
  default_access = read_only;
  path_permissions = deny (lit "/secret") ∷ allow_read_write (lit "/work") ∷ [];
  network_access = false;
}

-- Nothing but the work directory, with the network.
abbrev pub closed_policy : SandboxPolicy
closed_policy = record {
  default_access = no_access;
  path_permissions = allow_read_only (lit "/work") ∷ [];
  network_access = true;
}

-- Every path exists and is a directory.
abbrev pub files : FileSystem
files = record {
  current_dir = ok (lit "/");
  open_ambient_dir = λ path. ok 3;
  try_exists = λ handle leaf. ok true;
  metadata_is_dir = λ handle leaf. ok true;
}

abbrev pub host : HostPaths
host = record { current_dir = ok (lit "/"); canonicalize = λ path. ok path; exists = λ path. true }

-- Every call succeeds, every path is a directory, and two descriptors above 2 are open.
abbrev pub system : System
system = record {
  errno_of = λ calls c. none;
  error_of = λ calls c. none;
  refusal_of = λ calls c. none;
  is_dir = λ calls path. true;
  exists = λ calls path. false;
  fd_entries = λ calls. ok (lit "1") ∷ ok (lit "5") ∷ [];
  nofile_limit = λ calls. 16;
  fully_unenforced = λ calls. false;
  pid = 7;
  temp_dir = lit "/tmp";
  strerror = λ code. [];
}

-- Landlock is refused.
abbrev pub old_system : System
old_system = record system { refusal_of = λ calls c. some (lit "landlock is not supported") }

abbrev pub compiler : Seccompiler
compiler = record {
  condition_refusal = λ c. none;
  rule_refusal = λ r. none;
  filter_refusal = λ f. none;
  compile_refusal = λ f. none;
}

abbrev pub launch : Launch
launch = record {
  system = system;
  compiler = compiler;
  build = x86_64;
  host_uid = 1000;
  host_gid = 1000;
  error_pipe = pos 5;
}

abbrev pub old_launch : Launch
old_launch = record launch { system = old_system }

-- A child that exits at once, writing nothing.
abbrev pub quick : {W : Type 0} → ProcessGroup W
quick = record {
  group_spawn = λ command w. (ok tt, w);
  has_stdout = λ w. true;
  has_stderr = λ w. true;
  try_wait = λ w. (ok true, w);
  kill = λ w. (ok tt, w);
  wait_ends = λ w. true;
  wait = λ w. (ok (some (pos 0)), w);
  elapsed = λ w. 0;
  sleep = λ ms w. w;
  pipes_end = λ w. true;
  stdout_reads = λ w. some [];
  stderr_reads = λ w. some [];
}

-- A child that never exits by itself, beside a clock and whether it has been killed.
abbrev pub endless : ProcessGroup (ℕ × Bool)
endless = record {
  group_spawn = λ command w. (ok tt, w);
  has_stdout = λ w. true;
  has_stderr = λ w. true;
  try_wait = λ w. (ok false, w);
  kill = λ w. (ok tt, (w.0, true));
  wait_ends = λ w. w.1;
  wait = λ w. (ok none, w);
  elapsed = λ w. w.0;
  sleep = λ ms w. (w.0 + ms, w.1);
  pipes_end = λ w. true;
  stdout_reads = λ w. some [];
  stderr_reads = λ w. some [];
}
