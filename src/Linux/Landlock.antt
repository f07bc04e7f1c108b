-- ===== src/Linux/Landlock.antt =====
-- platform/linux.rs: `install_filesystem_landlock_rules_on_current_thread`. The builder of the crate
-- landlock is a sequence of calls that the system may refuse.
pub mod Granted
use procwarden.Common.{
  Bool, true, false, not, ◌&&◌, Option, none, some, List, [], ◌∷◌, ◌++◌, Text, lit, is_empty,
  if◌then◌else◌, Result, ok, err, IoError, custom, ErrorKind,
}
use procwarden.Paths.{PathBuf, slash}
use procwarden.Linux.Kernel.{
  System, Calls, Call, AccessFs, from_all, from_read, landlock_handle_access, landlock_create,
  landlock_set_no_new_privs, landlock_restrict_self, landlock_add_rules, Os, pure, fail, ◌>>=◌,
  ◌>>◌, answered,
}

abbrev refused : Option Text → Option IoError
refused none = none
refused (some message) = some (custom ErrorKind.permission_denied message)

module _ (s : System) where
  -- A call of one of the two sandboxing crates; `to_io_error` makes its error.
  unfoldable pub crate_call : Call → Os (Unit {0})
  crate_call c calls = (answered (refused (s.refusal_of calls c)), calls ++ (c ∷ []))

  -- `set_no_new_privs(true)` only sets a flag, and cannot fail.
  unfoldable pub set_no_new_privs : Os (Unit {0})
  set_no_new_privs calls = (ok tt, calls ++ (landlock_set_no_new_privs ∷ []))

  abbrev pub when : Bool → Os (Unit {0}) → Os (Unit {0})
  when b m = if b then m else pure tt

  unfoldable pub add_read_rules : Bool → List PathBuf → Os (Unit {0})
  add_read_rules default_read_access readable_roots =
      if default_read_access
      then crate_call (landlock_add_rules ((slash ∷ []) ∷ []) from_read)
      else when (not (is_empty readable_roots))
          (crate_call (landlock_add_rules readable_roots from_read))

  -- `status.ruleset == RulesetStatus::NotEnforced`
  unfoldable pub check_enforced : Os (Unit {0})
  check_enforced calls =
      if s.fully_unenforced calls
      then (
        err (
            custom ErrorKind.permission_denied
              (lit "landlock could not enforce all filesystem rules")),
        calls,
      )
      else (ok tt, calls)

  unfoldable pub install_filesystem_landlock_rules_on_current_thread :
      Bool → List PathBuf → List PathBuf → Os (Unit {0})
  install_filesystem_landlock_rules_on_current_thread default_read_access readable_roots
        writable_roots =
      do
        crate_call (landlock_handle_access from_all)
        crate_call landlock_create
        add_read_rules default_read_access readable_roots
        crate_call (landlock_add_rules (lit "/dev/null" ∷ []) from_all)
        set_no_new_privs
        when (not (is_empty writable_roots))
            (crate_call (landlock_add_rules writable_roots from_all))
        crate_call landlock_restrict_self
        check_enforced
