-- ===== src/Macos/Sandbox.antt =====
-- What the profile that `sandbox-exec` is given says of each path.
use procwarden.Common.{◌≡◌, ◌∷◌, map, lit, join_with, if◌then◌else◌}
use procwarden.Paths.{PathBuf}
use procwarden.Policy.{SandboxPolicy, denied_paths}
use procwarden.Macos.Profile.{build_sbpl_profile}
use procwarden.Macos.Rules.{
  allow, deny, file_read, file_write, render, rules_of, build_sbpl_profile-render,
}
use procwarden.Macos.Verdict.{
  last_action, under, write_action, read_action, write_verdict, read_verdict,
}

-- For every policy and path: the profile is its two header lines and the rendered rules of the
-- policy, one to a line; the last rule that applies to a write refuses it beneath a denied path and
-- otherwise gives the verdict of the default access and the carve-outs; and so for a read.
pub build_sbpl_profile_verdict :
    (policy : SandboxPolicy) (path : PathBuf)
    → (build_sbpl_profile policy
        ≡ join_with
            (lit "\n")
            (lit "(version 1)" ∷ lit "(allow default)" ∷ map render (rules_of policy)))
      × (last_action file_write path allow (rules_of policy) ≡ (
          if under path (denied_paths policy)
          then deny
          else write_action policy path policy.default_access))
      × (last_action file_read path allow (rules_of policy) ≡ (
          if under path (denied_paths policy)
          then deny
          else read_action policy path policy.default_access))
build_sbpl_profile_verdict policy path =
    (build_sbpl_profile-render policy, write_verdict policy path, read_verdict policy path)
