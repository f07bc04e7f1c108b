-- ===== src/Linux/Landlock/Granted.antt =====
-- What a restricted child has been granted: the calls of a successful installation, in order.
use mathlib.Core.List.{append-nil}
use procwarden.Common.{
  Bool, true, false, not, ◌≡◌, refl, none, List, [], ◌∷◌, ◌++◌, lit, is_empty, ok, arith,
}
use procwarden.Paths.{PathBuf, slash}
use procwarden.Linux.Kernel.{
  System, Calls, Call, AccessFs, from_all, from_read, landlock_handle_access, landlock_create,
  landlock_set_no_new_privs, landlock_restrict_self, landlock_add_rules,
}
use procwarden.Linux.Kernel.Makes.{Makes, pure-Makes, >>-Makes, Ends, >>-Ends}
use procwarden.Linux.Landlock.{
  check_enforced, crate_call, when, add_read_rules, set_no_new_privs,
  install_filesystem_landlock_rules_on_current_thread,
}

-- The rights granted, as the rules that were added.
abbrev pub read_grants : Bool → List PathBuf → List Call
read_grants true readable_roots = landlock_add_rules ((slash ∷ []) ∷ []) from_read ∷ []
read_grants false [] = []
read_grants false (root ∷ roots) = landlock_add_rules (root ∷ roots) from_read ∷ []

abbrev pub write_grants : List PathBuf → List Call
write_grants [] = []
write_grants (root ∷ roots) = landlock_add_rules (root ∷ roots) from_all ∷ []

abbrev pub landlock_calls : Bool → List PathBuf → List PathBuf → List Call
landlock_calls default_read readable writable =
    landlock_handle_access from_all
    ∷ landlock_create
    ∷ (read_grants default_read readable
        ++ (landlock_add_rules (lit "/dev/null" ∷ []) from_all
            ∷ landlock_set_no_new_privs
            ∷ (write_grants writable ++ (landlock_restrict_self ∷ []))))

module _ (s : System) where
  crate_call-Accepted :
      (c : Call) (calls : Calls) → (crate_call s c calls).0 ≡ ok tt → s.refusal_of calls c ≡ none
  unfolding crate_call
  crate_call-Accepted c calls h = ground arith

  add_rules-Makes :
      (paths : List PathBuf) (access : AccessFs)
      → Makes s
          (crate_call s (landlock_add_rules paths access))
          (landlock_add_rules paths access ∷ [])
  unfolding crate_call
  add_rules-Makes paths access calls h = (refl, (crate_call-Accepted _ calls h, tt))

  handle_access-Makes :
      (access : AccessFs)
      → Makes s (crate_call s (landlock_handle_access access)) (landlock_handle_access access ∷ [])
  unfolding crate_call
  handle_access-Makes access calls h = (refl, (crate_call-Accepted _ calls h, tt))

  create-Makes : Makes s (crate_call s landlock_create) (landlock_create ∷ [])
  unfolding crate_call
  create-Makes calls h = (refl, (crate_call-Accepted _ calls h, tt))

  restrict_self-Makes : Makes s (crate_call s landlock_restrict_self) (landlock_restrict_self ∷ [])
  unfolding crate_call
  restrict_self-Makes calls h = (refl, (crate_call-Accepted _ calls h, tt))

  set_no_new_privs-Makes : Makes s (set_no_new_privs s) (landlock_set_no_new_privs ∷ [])
  unfolding set_no_new_privs
  set_no_new_privs-Makes calls h = (refl, (tt, tt))

  add_read_rules-Makes :
      (default_read : Bool) (readable : List PathBuf)
      → Makes s (add_read_rules s default_read readable) (read_grants default_read readable)
  unfolding add_read_rules
  add_read_rules-Makes true readable = add_rules-Makes _ _
  add_read_rules-Makes false [] = pure-Makes s
  add_read_rules-Makes false (root ∷ roots) = add_rules-Makes _ _

  add_write_rules-Makes :
      (writable : List PathBuf)
      → Makes s
          (when s (not (is_empty writable)) (crate_call s (landlock_add_rules writable from_all)))
          (write_grants writable)
  add_write_rules-Makes [] = pure-Makes s
  add_write_rules-Makes (root ∷ roots) = add_rules-Makes _ _

  check_enforced-Makes : Makes s (check_enforced s) []
  unfolding check_enforced
  check_enforced-Makes calls h = (ground (arith, append-nil calls), tt)

  -- The ruleset that has been installed is enforced, in part at least.
  abbrev pub IsEnforced : Calls → Type 0
  IsEnforced calls = s.fully_unenforced calls ≡ false

  check_enforced-Ends : Ends IsEnforced (check_enforced s)
  unfolding check_enforced
  check_enforced-Ends calls h = ground arith

  pub landlock-Makes :
      (default_read : Bool) (readable writable : List PathBuf)
      → Makes s
          (install_filesystem_landlock_rules_on_current_thread s default_read readable writable)
          (landlock_calls default_read readable writable)
  unfolding install_filesystem_landlock_rules_on_current_thread
  landlock-Makes default_read readable writable = >>-Makes s _ _ _ _ (handle_access-Makes _) (
      >>-Makes s _ _ _ _ create-Makes (
        >>-Makes s _ _ _ _ (add_read_rules-Makes default_read readable) (
          >>-Makes s _ _ _ _ (add_rules-Makes _ _) (
            >>-Makes s _ _ _ _ set_no_new_privs-Makes (
              >>-Makes s _ _ _ _ (add_write_rules-Makes writable)
                (>>-Makes s _ _ _ _ restrict_self-Makes check_enforced-Makes))))))

  pub landlock-IsEnforced :
      (default_read : Bool) (readable writable : List PathBuf)
      → Ends IsEnforced
          (install_filesystem_landlock_rules_on_current_thread s default_read readable writable)
  unfolding install_filesystem_landlock_rules_on_current_thread
  landlock-IsEnforced default_read readable writable =
      >>-Ends IsEnforced (crate_call s (landlock_handle_access from_all)) _ (
        >>-Ends IsEnforced (crate_call s landlock_create) _ (
          >>-Ends IsEnforced (add_read_rules s default_read readable) _ (
            >>-Ends IsEnforced (crate_call s (landlock_add_rules (lit "/dev/null" ∷ []) from_all)) _
              (>>-Ends IsEnforced (set_no_new_privs s) _ (
                >>-Ends IsEnforced
                  (when s (not (is_empty writable))
                    (crate_call s (landlock_add_rules writable from_all)))
                  _
                  (>>-Ends IsEnforced (crate_call s landlock_restrict_self) _
                    check_enforced-Ends))))))

  -- A successful installation has handled all rights, has granted reading beneath the readable roots
  -- or beneath `/`, and writing beneath `/dev/null` and the writable roots alone, and has restricted
  -- the child, in this order.
  pub landlock_ok :
      (default_read : Bool) (readable writable : List PathBuf) (calls : Calls)
      → (install_filesystem_landlock_rules_on_current_thread s default_read readable writable
          calls).0
        ≡ ok tt
      → (install_filesystem_landlock_rules_on_current_thread s default_read readable writable
          calls).1
        ≡ calls ++ landlock_calls default_read readable writable
  landlock_ok default_read readable writable calls h =
      (landlock-Makes default_read readable writable calls h).0
