-- ===== src/Windows/Profile/Owned.antt =====
-- platform/windows/token.rs: the SIDs that are owned, and the profile that is deleted if it was made.
use procwarden.Common.{ℕ, zero, suc, refl, Bool, true, false, List, [], ◌∷◌, Text, map}
use procwarden.Windows.Kernel.{System, Log, ◌>>=◌, call, create_profile}
use procwarden.Windows.Kernel.Holds.{
  Resource, memory, Holds, Moves, nothing, if_ok, Holds-bind, Holds-try, Holds-if, Holds-reorder,
  count_swap, Holds-null_memory,
}
use procwarden.Windows.Kernel.Holds.Rules.{
  holds_rules, Holds-ask, Holds-asks, Holds-last, free_all-Holds, free_unless_null-Holds_last,
}
use procwarden.Windows.Process.Attributes.Owned.{network_capability_entries-Holds}
use procwarden.Windows.Profile.{
  AppContainerContext, owned_sid, drop_sid, drop_context, returning, with_sid, profiled,
  network_capabilities, create_appcontainer_context_with_network,
}

abbrev pub sid_resource : AppContainerContext → List Resource
sid_resource context = memory context.sid ∷ []

module _ (s : System) where
  given-Holds :
      (name : Text) (created : Bool) (sids : List ℕ) (sid : ℕ)
      → Holds
          (memory sid ∷ map memory sids)
          (if_ok sid_resource)
          (returning s sids (with_sid s name created (owned_sid s sid)))
  unfolding owned_sid
  given-Holds name created sids zero = Holds-null_memory (search holds_rules)
  given-Holds name created sids (suc sid) =
      Holds-reorder (λ r. count_swap r (memory (suc sid) ∷ []) (map memory sids))
        (free_all-Holds s sids _ (search holds_rules))

  profiled-Holds :
      (name : Text) (sids : List ℕ)
      → Holds
          (map memory sids)
          (if_ok sid_resource)
          (call s (create_profile name sids) >>= profiled s name sids)
  profiled-Holds name sids =
      Holds-ask s _ _ refl
        (λ _.
          Holds-ask s _ _ refl (λ _. search holds_rules) λ sid _. given-Holds name false sids sid)
        λ sid _. given-Holds name true sids sid

  create-Holds :
      (network_access : Bool)
      → Holds [] (if_ok sid_resource) (create_appcontainer_context_with_network s network_access)
  unfolding create_appcontainer_context_with_network network_capabilities
  create-Holds network_access =
      Holds-asks _ _
        λ name. Holds-try (network_capability_entries-Holds s network_access) (profiled-Holds name)

  drop_context-Holds :
      (context : AppContainerContext)
      → Holds (sid_resource context) nothing (drop_context s context)
  unfolding drop_context drop_sid
  drop_context-Holds context =
      Holds-bind {mid = λ _. sid_resource context}
        (Holds-if context.profile_created (λ _. Holds-last _ (search holds_rules))
          (λ _. search holds_rules))
        λ _. free_unless_null-Holds_last s context.sid

  -- Creating the AppContainer's context leaves open its SID and nothing else, and nothing where it
  -- fails: the capabilities' SIDs are freed in every case. Dropping a context frees its SID.
  pub create_appcontainer_context-Moves :
      (network_access : Bool) (context : AppContainerContext) (log : Log)
      → let (r, log') = create_appcontainer_context_with_network s network_access log in
        (Moves [] (if_ok sid_resource r) log log')
        × (Moves (sid_resource context) [] log (drop_context s context log).1)
  create_appcontainer_context-Moves network_access context log =
      ((create-Holds network_access).at log, (drop_context-Holds context).at log)
