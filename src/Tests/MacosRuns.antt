-- ===== src/Tests/MacosRuns.antt =====
-- The profile at one policy.
use procwarden.Common.{◌≡◌, some, ◌∷◌, ◌++◌, map, lit, join_with, if◌then◌else◌}
use procwarden.Paths.{to_string_lossy}
use procwarden.Policy.{denied_paths}
use procwarden.Macos.Profile.{build_sbpl_profile, quote_sbpl_string}
use procwarden.Macos.Quoting.{read_quoted, read_quoted-quote_sbpl_string}
use procwarden.Macos.Rules.{allow, deny, file_read, file_write, render, rules_of}
use procwarden.Macos.Verdict.{last_action, under, write_action, read_action}
use procwarden.Macos.Sandbox.{build_sbpl_profile_verdict}
use procwarden.Tests.Hosts.{policy}

build_sbpl_profile_verdict_example :
    (build_sbpl_profile policy
      ≡ join_with
          (lit "\n")
          (lit "(version 1)" ∷ lit "(allow default)" ∷ map render (rules_of policy)))
    × (last_action file_write (lit "/work/a") allow (rules_of policy) ≡ (
        if under (lit "/work/a") (denied_paths policy)
        then deny
        else write_action policy (lit "/work/a") policy.default_access))
    × (last_action file_read (lit "/work/a") allow (rules_of policy) ≡ (
        if under (lit "/work/a") (denied_paths policy)
        then deny
        else read_action policy (lit "/work/a") policy.default_access))
build_sbpl_profile_verdict_example = build_sbpl_profile_verdict policy (lit "/work/a")

read_quoted-quote_sbpl_string_example :
    read_quoted (quote_sbpl_string (lit "/a\"b") ++ lit ")")
    ≡ some (to_string_lossy (lit "/a\"b"), lit ")")
read_quoted-quote_sbpl_string_example = read_quoted-quote_sbpl_string (lit "/a\"b") (lit ")")
