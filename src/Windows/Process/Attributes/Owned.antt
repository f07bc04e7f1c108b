-- ===== src/Windows/Process/Attributes/Owned.antt =====
-- platform/windows/process.rs: the attribute list and the SIDs that the attributes own.
use mathlib.Core.List.{append-nil, map-append}
use procwarden.Common.{
  ℕ, zero, suc, ℤ, Bool, true, false, ◌≡◌, refl, sym, ap, ◌∙◌, subst, Option, List, [], ◌∷◌, ◌++◌,
  Text, map, Result, ok, err,
}
use procwarden.Output.{SandboxError}
use procwarden.Windows.Scan.{child_policy_degrade_allowed}
use procwarden.Windows.Kernel.{
  System, gives, Win, pure, ◌>>=◌, ◌>>◌, call, Done, convert_string_sid, attribute_list_size,
  initialize_attribute_list,
}
use procwarden.Windows.Kernel.Holds.{
  Resource, memory, attributes, Holds, nothing, if_ok, Holds-bind, Holds-frame, Holds-reorder,
  Holds-try, Holds-if, Holds-null_memory, count, count_snoc, count_swap,
}
use procwarden.Windows.Kernel.Holds.Rules.{
  holds_rules, Holds-ask, Holds-assoc, Holds-delete_attribute_list, free_all-Holds,
  free_all-Holds_last, last_error-Holds, get_last_error_code-Holds, Holds-done,
}
use procwarden.Windows.Process.Attributes.{
  PreparedAttributes, drop_prepared, refuse_sid, network_capability_sids, converted, convert_sids,
  network_capability_entries, initialized, new_attributes, new_prepared_attributes,
  set_security_capabilities_attr, set_child_process_policy_attr, set_job_list_attr, or_drop,
  finish_attributes, fallback_attributes, with_policy, prepare_appcontainer_child_job_attributes,
}

abbrev pub owned : PreparedAttributes → List Resource
owned prepared = attributes prepared.attribute_list ∷ map memory prepared.capability_sids

module _ (s : System) where
  drop_prepared-Holds :
      {A : Type 0} {held : List Resource} {left : A → List Resource} (prepared : PreparedAttributes)
      (k : Win A)
      → Holds held left k
      → Holds (owned prepared ++ held) left (drop_prepared s prepared >> k)
  unfolding drop_prepared
  drop_prepared-Holds prepared k h = Holds-assoc _ _ _ (
      Holds-delete_attribute_list s prepared.attribute_list _
        (free_all-Holds s prepared.capability_sids k h))

  pub drop_prepared-Holds_last :
      {A : Type 0} {left : A → List Resource} (prepared : PreparedAttributes) (k : Win A)
      → Holds [] left k
      → Holds (owned prepared) left (drop_prepared s prepared >> k)
  drop_prepared-Holds_last {left} prepared k h =
      subst (λ held. Holds held left (drop_prepared s prepared >> k)) (append-nil (owned prepared))
        (drop_prepared-Holds prepared k h)

  refuse_sid-Holds :
      (sid : Text) (sofar : List ℕ)
      → Holds (map memory sofar) (if_ok (map memory)) (refuse_sid s sid sofar)
  refuse_sid-Holds sid sofar =
      get_last_error_code-Holds s _ λ code. free_all-Holds_last s sofar _ (search holds_rules)

  converted-Holds :
      (rest : List ℕ → Win (Result SandboxError (List ℕ))) (sid : Text) (sofar : List ℕ)
      → ((next : List ℕ) → Holds (map memory next) (if_ok (map memory)) (rest next))
      → (x y : ℕ)
      → Holds
          (memory x ∷ map memory sofar)
          (if_ok (map memory))
          (converted s rest sid sofar (gives x y))
  converted-Holds rest sid sofar h zero y = Holds-null_memory (refuse_sid-Holds sid sofar)
  converted-Holds rest sid sofar h (suc x) y =
      Holds-reorder
        (λ r.
          count_snoc r (memory (suc x)) (map memory sofar)
          ∙ ap (count r) (sym (map-append memory sofar (suc x ∷ []))))
        (h (sofar ++ (suc x ∷ [])))

  convert_sids-Holds :
      (sids : List Text) (sofar : List ℕ)
      → Holds (map memory sofar) (if_ok (map memory)) (convert_sids s sids sofar)
  unfolding convert_sids
  convert_sids-Holds [] sofar = search holds_rules
  convert_sids-Holds (sid ∷ sids) sofar =
      Holds-ask s (convert_string_sid sid) _ refl (λ code. refuse_sid-Holds sid sofar)
        (converted-Holds (λ next. convert_sids s sids next) sid sofar (convert_sids-Holds sids))

  new_attributes-Holds :
      (count : ℕ) (sids : List ℕ) (build : ℕ → PreparedAttributes)
      → ((list : ℕ) → owned (build list) ≡ attributes list ∷ map memory sids)
      → Holds (map memory sids) (if_ok owned) (new_attributes s count sids build)
  unfolding new_attributes
  new_attributes-Holds count sids build e =
      Holds-ask s (attribute_list_size count) _ refl (λ _. sized 0) λ _ list. sized list
    where
      sized :
          (list : ℕ)
          → Holds
              (map memory sids)
              (if_ok owned)
              (call s (initialize_attribute_list count list) >>= initialized s build sids list)
      sized list =
          Holds-ask s (initialize_attribute_list count list) _ refl
            (λ _. last_error-Holds s _ _ λ _. free_all-Holds_last s sids _ (search holds_rules))
            λ _ _. Holds-done _ (sym (e list))

  pub network_capability_entries-Holds :
      (network_access : Bool)
      → Holds [] (if_ok (map memory)) (network_capability_entries s network_access)
  unfolding network_capability_entries
  network_capability_entries-Holds true = convert_sids-Holds network_capability_sids []
  network_capability_entries-Holds false = search holds_rules

  new_prepared-Holds :
      (n sid job : ℕ) (policy : Option ℕ) (degraded : Option Text) (network_access : Bool)
      → Holds [] (if_ok owned) (new_prepared_attributes s n sid job policy degraded network_access)
  unfolding new_prepared_attributes
  new_prepared-Holds n sid job policy degraded network_access =
      Holds-try (network_capability_entries-Holds network_access)
        λ sids. new_attributes-Holds n sids _ λ list. refl

  set_security-Holds :
      (prepared : PreparedAttributes) → Holds [] nothing (set_security_capabilities_attr s prepared)
  unfolding set_security_capabilities_attr
  set_security-Holds prepared = search holds_rules

  set_policy-Holds :
      (prepared : PreparedAttributes) → Holds [] nothing (set_child_process_policy_attr s prepared)
  unfolding set_child_process_policy_attr
  set_policy-Holds prepared = search holds_rules

  set_job-Holds : (prepared : PreparedAttributes) → Holds [] nothing (set_job_list_attr s prepared)
  unfolding set_job_list_attr
  set_job-Holds prepared = search holds_rules

  or_drop-Holds :
      (prepared : PreparedAttributes) {rest : Win (Result SandboxError PreparedAttributes)}
      → Holds (owned prepared) (if_ok owned) rest
      → (r : Result SandboxError Done)
      → Holds (owned prepared) (if_ok owned) (or_drop s prepared rest r)
  or_drop-Holds prepared h (ok _) = h
  or_drop-Holds prepared h (err e) = drop_prepared-Holds_last prepared _ (search holds_rules)

  finish_attributes-Holds :
      (prepared : PreparedAttributes)
      → Holds (owned prepared) (if_ok owned) (finish_attributes s prepared)
  unfolding finish_attributes
  finish_attributes-Holds prepared =
      Holds-bind (Holds-frame (owned prepared) (set_job-Holds prepared))
        (or_drop-Holds prepared (search holds_rules))

  fallback_attributes-Holds :
      (sid job : ℕ) (network_access : Bool) (code : ℤ) (prepared : PreparedAttributes)
      → Holds
          (owned prepared)
          (if_ok owned)
          (fallback_attributes s sid job network_access code prepared)
  unfolding fallback_attributes
  fallback_attributes-Holds sid job network_access code prepared =
      Holds-bind
        (Holds-frame (owned prepared) (
          Holds-try (new_prepared-Holds 2 sid job _ _ network_access) λ fallback.
            Holds-bind (Holds-frame (owned fallback) (set_security-Holds fallback))
              (or_drop-Holds fallback (finish_attributes-Holds fallback))))
        λ r. before_return r
    where
      before_return :
          (r : Result SandboxError PreparedAttributes)
          → Holds
              (if_ok owned r ++ owned prepared)
              (if_ok owned)
              (drop_prepared s prepared >> pure r)
      before_return r =
          Holds-reorder (λ q. count_swap q (if_ok owned r) (owned prepared))
            (drop_prepared-Holds prepared _ (search holds_rules))

  with_policy-Holds :
      (sid job : ℕ) (network_access : Bool) (prepared : PreparedAttributes) (r : Result ℤ Done)
      → Holds (owned prepared) (if_ok owned) (with_policy s sid job network_access prepared r)
  with_policy-Holds sid job network_access prepared (ok _) = finish_attributes-Holds prepared
  with_policy-Holds sid job network_access prepared (err code) =
      Holds-if (child_policy_degrade_allowed code)
        (λ _. fallback_attributes-Holds sid job network_access code prepared)
        λ _. drop_prepared-Holds_last prepared _ (search holds_rules)

  pub prepare-Holds :
      (sid job : ℕ) (network_access : Bool)
      → Holds [] (if_ok owned) (prepare_appcontainer_child_job_attributes s sid job network_access)
  unfolding prepare_appcontainer_child_job_attributes
  prepare-Holds sid job network_access =
      Holds-try (new_prepared-Holds 3 sid job _ _ network_access) λ prepared.
        Holds-bind (Holds-frame (owned prepared) (set_security-Holds prepared)) (
          or_drop-Holds prepared (
            Holds-bind (Holds-frame (owned prepared) (set_policy-Holds prepared))
              (with_policy-Holds sid job network_access prepared)))
