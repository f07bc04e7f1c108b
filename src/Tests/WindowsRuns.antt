-- ===== src/Tests/WindowsRuns.antt =====
-- A command line and an environment.
use procwarden.Common.{eq_ignore_ascii_case}
use procwarden.Common.{trim}
use procwarden.Windows.Elevated.{read_ready_signal}
use procwarden.Common.{true, ◌≡◌, refl, Option, some, [], ◌∷◌, lit, Text, arith, text_eq}
use procwarden.Manager.{EnvMap}
use procwarden.Manager.Environment.{get}
use procwarden.Windows.Arguments.{command_line_string}
use procwarden.Windows.Arguments.Program.{IsProgram, read_command, read_command-command_line_string}
use procwarden.Windows.Environment.{normalize_null_device_env, required_keys, merge_required}
use procwarden.Windows.Environment.Required.{
  NamesNull, get-normalize_null_device_env, get-merge_required,
}
use procwarden.Windows.Elevated.{
  ElevatedOpsSpec, serialize_acl_spec, Helper, wait_until_initialized,
}
use procwarden.Windows.Elevated.Lines.{read_lines, paths_tagged, read_lines-serialize_acl_spec}
use procwarden.Windows.Elevated.Ready.{SaidOk, IsTimed, wait_until_initialized-SaidOk}
use procwarden.Common.{ok, ErrorKind, ◌+◌, ℕ, none, ◌⊎◌}
use procwarden.Windows.Plan.{AclPlan}
use procwarden.Tests.Hosts.{env}

abbrev spaced : Text
spaced = lit "a b\\\"c\\"

abbrev program : Text
program = lit "C:\\Program Files\\a.exe"

program-IsProgram : IsProgram program
unfolding lit
program-IsProgram = record { unquoted = refl; is_no_directory = refl }

read_command-command_line_string_example :
    read_command 2 (command_line_string (program ∷ spaced ∷ [] ∷ [])) ≡ program ∷ spaced ∷ [] ∷ []
read_command-command_line_string_example =
    read_command-command_line_string program (spaced ∷ [] ∷ []) program-IsProgram

abbrev host_var : Text → Option Text
host_var key = some (lit "C:\\Windows")

get-merge_required_example :
    get (lit "PATH") (merge_required host_var required_keys env) ≡ some (lit "/bin")
unfolding text_eq lit
get-merge_required_example =
    get-merge_required host_var required_keys env (lit "PATH") (lit "/bin") refl

abbrev null_env : EnvMap
null_env = (lit "HISTFILE", lit "/dev/null") ∷ []

get-normalize_null_device_env_example :
    (NamesNull (lit "/dev/null")
      × (get (lit "HISTFILE") (normalize_null_device_env null_env) ≡ some (lit "NUL")))
    ⊎ ((¬ NamesNull (lit "/dev/null"))
        × (get (lit "HISTFILE") (normalize_null_device_env null_env) ≡ some (lit "/dev/null")))
unfolding text_eq lit
get-normalize_null_device_env_example =
    get-normalize_null_device_env (lit "HISTFILE") (lit "/dev/null") null_env refl

abbrev spec : ElevatedOpsSpec
spec = record {
  sid_string = lit "S-1-15-2";
  executable = lit "C:\\a.exe";
  block_network = true;
  allow_readonly_paths = lit "C:\\r" ∷ [];
  allow_readwrite_paths = [];
  deny_write_paths = [];
  deny_readwrite_paths = lit "C:\\s" ∷ [];
}

read_lines-serialize_acl_spec_example :
    let lines = read_lines [] (serialize_acl_spec spec) in
    (paths_tagged b'd' b'n' lines ≡ lit "C:\\s" ∷ [])
    × (paths_tagged b'd' b'w' lines ≡ [])
    × (paths_tagged b'r' b'o' lines ≡ lit "C:\\r" ∷ [])
    × (paths_tagged b'r' b'w' lines ≡ [])
unfolding lit
read_lines-serialize_acl_spec_example =
    read_lines-serialize_acl_spec spec (refl, tt) tt (refl, tt) tt

-- A helper beside a clock that is ready at once, and one that is never ready.
abbrev helper : Text → Helper ℕ
helper contents = record {
  read_ready = λ w. (ok contents, w);
  read_progress = λ w. ok [];
  try_wait_exit_code = λ w. (ok none, w);
  elapsed = λ w. w;
  sleep = λ ms w. w + ms;
  workspace_dir = [];
  kind_of = λ e. ErrorKind.other;
  display_error = λ e. [];
}

wait_until_initialized-SaidOk_example : SaidOk (helper (lit " OK"))
unfolding wait_until_initialized read_ready_signal lit trim eq_ignore_ascii_case
wait_until_initialized-SaidOk_example = wait_until_initialized-SaidOk (helper (lit " OK")) 1 0 refl

silent-IsTimed : IsTimed (helper [])
silent-IsTimed = record {
  read_forward = λ w. omega arith;
  exit_forward = λ w. omega arith;
  sleep_forward = λ ms w. omega arith;
}

abbrev plan : AclPlan
plan = record {
  allow_readonly_paths = lit "C:\\a" ∷ lit "C:\\b" ∷ [];
  allow_readwrite_paths = lit "c:\\A" ∷ lit "C:\\c" ∷ [];
  deny_write_paths = lit "C:\\b" ∷ [];
  deny_readwrite_paths = lit "C:\\C" ∷ [];
}
