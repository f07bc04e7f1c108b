-- ===== src/Windows/Process/Attributes.antt =====
-- platform/windows/process.rs: the attributes of the child: the AppContainer with its capabilities,
-- no children of its own, and the job. Without the second where the system refuses it.
pub mod Owned
use procwarden.Common.{
  ℕ, zero, suc, ℤ, Bool, true, false, Option, none, some, List, [], ◌∷◌, ◌++◌, Text, lit,
  if◌then◌else◌, Result, ok, err,
}
use procwarden.Output.{SandboxError, windows}
use procwarden.Windows.Scan.{child_policy_degrade_allowed}
use procwarden.Windows.Kernel.{
  System, Answer, fails, gives, Win, pure, ◌>>=◌, ◌>>◌, ◌>>?◌, call, tell, Done, Attribute,
  security_capabilities, child_process_policy, job_list, signed, get_last_error_code, windows_error,
  last_error, fail_last, free_all, convert_string_sid, attribute_list_size,
  initialize_attribute_list, update_attribute, delete_attribute_list,
}

-- `attribute_list` is the list of `ProcThreadAttributes`, in a buffer of its own.
pub record PreparedAttributes : Type 0 where
  pub attribute_list : ℕ
  pub appcontainer_sid : ℕ
  pub capability_sids : List ℕ
  pub child_policy : Option ℕ
  pub job_handle : ℕ
  pub degraded_mode_reason : Option Text

abbrev pub network_capability_sids : List Text
network_capability_sids = lit "S-1-15-3-1" ∷ lit "S-1-15-3-2" ∷ lit "S-1-15-3-3" ∷ []

-- The value behind the `expect` of the primary path.
abbrev pub expect_policy : Option ℕ → ℕ
expect_policy (some policy) = policy
expect_policy none = 0

module _ (s : System) where
  unfoldable pub child_policy_degraded_reason : ℤ → Text
  child_policy_degraded_reason code =
      lit "windows sandbox degraded mode: child-process restriction policy unavailable ("
      ++ (signed code ++ (lit ": " ++ (s.strerror code ++ lit "); job containment remains active")))

  -- `Drop` of the attribute list, then of the SIDs.
  unfoldable pub drop_prepared : PreparedAttributes → Win Done
  drop_prepared prepared =
      tell s (delete_attribute_list prepared.attribute_list) >> free_all s prepared.capability_sids

  abbrev pub sid_error : Text → ℤ → SandboxError
  sid_error sid_string code = windows (
      lit "ConvertStringSidToSidW failed for network capability SID "
      ++ (sid_string ++ (lit ": " ++ (signed code ++ (lit " (" ++ (s.strerror code ++ lit ")"))))))

  -- The error is made first, and then the SIDs so far are dropped.
  abbrev pub refuse_sid : Text → List ℕ → Win (Result SandboxError (List ℕ))
  refuse_sid sid_string owned =
      get_last_error_code s >>= λ code. free_all s owned >> pure (err (sid_error sid_string code))

  abbrev pub converted :
      (List ℕ → Win (Result SandboxError (List ℕ)))
      → Text
      → List ℕ
      → Answer
      → Win (Result SandboxError (List ℕ))
  converted rest sid_string owned (fails _) = refuse_sid sid_string owned
  converted rest sid_string owned (gives zero _) = refuse_sid sid_string owned
  converted rest sid_string owned (gives (suc sid) _) = rest (owned ++ (suc sid ∷ []))

  unfoldable pub convert_sids : List Text → List ℕ → Win (Result SandboxError (List ℕ))
  convert_sids [] owned = pure (ok owned)
  convert_sids (sid_string ∷ sids) owned =
      call s (convert_string_sid sid_string)
      >>= converted (λ owned'. convert_sids sids owned') sid_string owned

  -- The SIDs; the entries are the same with the attribute `enabled`.
  unfoldable pub network_capability_entries : Bool → Win (Result SandboxError (List ℕ))
  network_capability_entries network_access =
      if network_access then convert_sids network_capability_sids [] else pure (ok [])

  abbrev pub initialized :
      (ℕ → PreparedAttributes) → List ℕ → ℕ → Answer → Win (Result SandboxError PreparedAttributes)
  initialized build sids list (fails _) =
      last_error s (lit "InitializeProcThreadAttributeList") >>= λ e.
      free_all s sids >> pure (err e)
  initialized build sids list (gives _ _) = pure (ok (build list))

  -- `ProcThreadAttributes::new`: a first call asks for the size; the buffer's address is in its
  -- answer here.
  abbrev pub buffer_of : Answer → ℕ
  buffer_of (fails _) = 0
  buffer_of (gives _ buffer) = buffer

  unfoldable pub new_attributes :
      ℕ → List ℕ → (ℕ → PreparedAttributes) → Win (Result SandboxError PreparedAttributes)
  new_attributes count sids build = call s (attribute_list_size count) >>= λ size.
      call s (initialize_attribute_list count (buffer_of size))
      >>= initialized build sids (buffer_of size)

  unfoldable pub new_prepared_attributes :
      ℕ → ℕ → ℕ → Option ℕ → Option Text → Bool → Win (Result SandboxError PreparedAttributes)
  new_prepared_attributes attr_count sid job child_policy degraded network_access =
      network_capability_entries network_access >>? λ sids. new_attributes attr_count sids λ list.
        record {
          attribute_list = list;
          appcontainer_sid = sid;
          capability_sids = sids;
          child_policy = child_policy;
          job_handle = job;
          degraded_mode_reason = degraded;
        }

  abbrev pub updated : Text → Answer → Win (Result SandboxError Done)
  updated context (fails _) = fail_last s context
  updated context (gives _ _) = pure (ok tt)

  unfoldable pub set_security_capabilities_attr :
      PreparedAttributes → Win (Result SandboxError Done)
  set_security_capabilities_attr prepared =
      call s (
        update_attribute prepared.attribute_list
          (security_capabilities prepared.appcontainer_sid prepared.capability_sids))
      >>= updated (lit "UpdateProcThreadAttribute(SECURITY_CAPABILITIES)")

  abbrev pub policy_updated : Answer → Win (Result ℤ Done)
  policy_updated (fails _) = get_last_error_code s >>= λ code. pure (err code)
  policy_updated (gives _ _) = pure (ok tt)

  unfoldable pub set_child_process_policy_attr : PreparedAttributes → Win (Result ℤ Done)
  set_child_process_policy_attr prepared =
      call s (
        update_attribute prepared.attribute_list
          (child_process_policy (expect_policy prepared.child_policy)))
      >>= policy_updated

  unfoldable pub set_job_list_attr : PreparedAttributes → Win (Result SandboxError Done)
  set_job_list_attr prepared =
      call s (update_attribute prepared.attribute_list (job_list (prepared.job_handle ∷ [])))
      >>= updated (lit "UpdateProcThreadAttribute(JOB_LIST)")

  -- `?` on a setter: the attributes are dropped on an error.
  abbrev pub or_drop :
      PreparedAttributes
      → Win (Result SandboxError PreparedAttributes)
      → Result SandboxError Done
      → Win (Result SandboxError PreparedAttributes)
  or_drop prepared rest (ok _) = rest
  or_drop prepared rest (err e) = drop_prepared prepared >> pure (err e)

  -- The last attribute, and then the result.
  unfoldable pub finish_attributes :
      PreparedAttributes → Win (Result SandboxError PreparedAttributes)
  finish_attributes prepared = set_job_list_attr prepared >>= or_drop prepared (pure (ok prepared))

  -- The primary attributes are dropped when the function returns, whatever the fallback's result is.
  unfoldable pub fallback_attributes :
      ℕ → ℕ → Bool → ℤ → PreparedAttributes → Win (Result SandboxError PreparedAttributes)
  fallback_attributes sid job network_access code prepared =
      (new_prepared_attributes 2 sid job none (some (child_policy_degraded_reason code))
          network_access
        >>? λ fallback.
            set_security_capabilities_attr fallback
            >>= or_drop fallback (finish_attributes fallback))
      >>= λ r. drop_prepared prepared >> pure r

  abbrev pub with_policy :
      ℕ
      → ℕ
      → Bool
      → PreparedAttributes
      → Result ℤ Done
      → Win (Result SandboxError PreparedAttributes)
  with_policy sid job network_access prepared (ok _) = finish_attributes prepared
  with_policy sid job network_access prepared (err code) =
      if child_policy_degrade_allowed code
      then fallback_attributes sid job network_access code prepared
      else drop_prepared prepared
        >> pure (err (windows_error s (lit "UpdateProcThreadAttribute(CHILD_PROCESS_POLICY)") code))

  unfoldable pub prepare_appcontainer_child_job_attributes :
      ℕ → ℕ → Bool → Win (Result SandboxError PreparedAttributes)
  prepare_appcontainer_child_job_attributes sid job network_access =
      new_prepared_attributes 3 sid job (some 1) none network_access >>? λ prepared.
      set_security_capabilities_attr prepared
      >>= or_drop prepared
          (set_child_process_policy_attr prepared >>= with_policy sid job network_access prepared)
