-- ===== src/Lib.antt =====
-- procwarden: a library that runs a command in a sandbox of the operating system it is on.
--
-- A caller gives SandboxManager::execute a request (command, working directory, environment,
-- timeout) and a policy: a default access, permissions for single paths and whether the network may
-- be used. The manager checks both, cleans the environment and calls the backend of the platform.
--
-- Policy        src/policy.rs: permissions and the lists of paths they select.
-- Output        src/error.rs, src/result.rs: errors, outputs and their exit code.
-- CapFs         src/cap_fs.rs: path_exists and is_dir, over the record FileSystem, which stands for
--               the directory handles of the crate cap_std.
-- Manager       src/manager.rs, src/platform/mod.rs: validate, validate_policy_allow_paths,
--               sanitize_env_vars, execute. A backend is a function from a request, a policy and a
--               world of its own to an outcome and the world it leaves.
-- CommandRunner src/platform/command_runner.rs: run_command_with_timeout, over the record
--               ProcessGroup, which stands for the crate command_group, the clock and the threads
--               that read the pipes. The polling loop has fuel: none is a loop that has not ended.
-- Macos         src/platform/macos.rs: the profile for sandbox-exec as text (Profile), the same as a
--               list of rules (Rules), what the rules say of a path (Verdict), and the run
--               (Execution).
-- Linux         src/platform/linux.rs: execute. What the child does between fork and exec is an
--               action on the list of calls made so far (Kernel), and the record System answers each
--               call, so that every failure is covered. Scope and Overlay compute the overlays,
--               Namespace and Mounts install them, Landlock and Seccomp restrict the child, Fds
--               closes its descriptors, Execution puts these together, with the pipe by which the
--               child reports a failure and which the closing may take away. The crates landlock and
--               seccompiler are calls with answers; Seccomp.Table reads a filter as seccompiler
--               documents it.
-- Windows       src/platform/windows/process.rs, src/platform/windows/util.rs: quoting of arguments,
--               the command line, the environment block and the variables set before a run
--               (Arguments, Environment); the run of a process in the AppContainer, with its pipes,
--               job, attributes, waiting time and readers (Process).
--               src/platform/windows/acl.rs: the entries of access lists and the guard that takes
--               them back (Acl). src/platform/windows/token.rs: the profile and its SID (Profile).
--               src/platform/windows/wfp.rs: the network filters and the firewall helper (Filters).
--               src/platform/windows/elevation.rs: processes with administrator's rights, and the
--               end of both helpers (Elevation). src/platform/windows/elevated_ops.rs: the file for
--               the elevated helper, its start and the wait for it (Elevated), and its PowerShell
--               script as commands that a machine answers (Elevated.Shell, Elevated.Script).
--               src/platform/windows/appcontainer.rs: the check of the policy and the scan of
--               arguments for paths (Scan), the plan of access lists and, from src/cap_fs.rs,
--               the paths without repetitions (Plan). The Win32 functions are calls that a System
--               answers from the calls and answers before (Kernel), so that every failure is
--               covered; Kernel.Holds counts what the calls open and close.
-- Paths         std::path on Unix, as far as the program uses it: components, parents, prefixes and
--               their order. A path is a list of bytes, a string is a list of code points.
-- Common        helpers that the parts share. Tests holds concrete runs.
--
-- Fuel: the polling loop sleeps ten milliseconds in each round, so that a round for each ten
-- milliseconds of the timeout and one more are enough; the wait for the elevated helper sleeps a
-- tenth of a second in each round, for twenty seconds, and has 201 rounds. The wait for the firewall
-- helper counts the same rounds down, and its last one finds the time over. The script of the
-- elevated helper waits for its stop signal for ever: its fuel is the tests made, and without a
-- signal in them it still waits. No other loop needs fuel: a pipe of Windows delivers a list of reads.
--
-- Not modelled: in the Windows backend, execute, the search for the executable and the collection
-- of a plan's paths, which stand on std::path for Windows; the interleaving of its two pipe readers
-- with the waiting thread; what Windows makes of an access list or a filter beyond the order of the
-- entries and the transaction. Changes of the file system between two reads, since FileSystem and
-- HostPaths answer for one state of it; the unit and integration tests.
pub mod Common
pub mod Paths
pub mod Policy
pub mod CapFs
pub mod Output
pub mod Manager
pub mod CommandRunner
pub mod Macos
pub mod Linux
pub mod Windows
mod Tests
