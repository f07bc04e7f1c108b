-- ===== src/Macos/Verdict.antt =====
-- The last rule that covers an access: what a profile says of each path and operation.
use procwarden.Common.{
  Bool, true, false, not, ◌&&◌, ◌||◌, ◌≡◌, refl, ◌∙◌, List, [], ◌∷◌, ◌++◌, some_of, arith,
  if◌then◌else◌,
}
use procwarden.Paths.{PathBuf, to_string_lossy, ancestors_above, starts_with}
use procwarden.Policy.{
  SandboxPolicy, SandboxAccess, no_access, read_only, read_write, read_only_paths, read_write_paths,
  readable_paths, denied_paths,
}
use procwarden.Macos.Profile.{dedupe_paths, readable_path_ancestors}
use procwarden.Macos.Dedupe.{some_of-dedupe_paths, some_of-readable_path_ancestors}
use procwarden.Macos.Rules.{
  Action, allow, deny, Operation, file_read, file_write, network, Filter, everything, literal,
  subpath, Rule, rule, path_rules, denial_rules, each, ancestor_rules, access_rules, network_rules,
  rules_of,
}

-- The same components.
abbrev pub same_path : PathBuf → PathBuf → Bool
same_path p q = starts_with p q && starts_with q p

abbrev pub covers : Filter → PathBuf → Bool
covers everything path = true
covers (literal key) path = same_path path key
covers (subpath key) path = starts_with path key

abbrev pub same_operation : Operation → Operation → Bool
same_operation file_read file_read = true
same_operation file_write file_write = true
same_operation network network = true
same_operation _ _ = false

abbrev pub applies : Operation → PathBuf → Rule → Bool
applies o path r = same_operation o r.operation && covers r.filter path

-- The action of the last rule that applies, or the one given.
pub last_action : Operation → PathBuf → Action → List Rule → Action
last_action o path a [] = a
last_action o path a (r ∷ rs) = last_action o path (if applies o path r then r.action else a) rs

-- The path lies at or under one of those listed, by the text that the profile holds for it.
abbrev pub under : PathBuf → List PathBuf → Bool
under path roots = some_of (λ root. starts_with path (to_string_lossy root)) roots

-- The path is a proper ancestor of one of those listed.
abbrev pub above : PathBuf → List PathBuf → Bool
above path roots =
    some_of (λ root. some_of (λ a. same_path path (to_string_lossy a)) (ancestors_above root)) roots

module _ (o : Operation) (path : PathBuf) where
  last_action-append :
      (a : Action) (rs qs : List Rule)
      → last_action o path a (rs ++ qs) ≡ last_action o path (last_action o path a rs) qs
  unfolding last_action
  last_action-append a [] qs = refl
  last_action-append a (r ∷ rs) qs =
      last_action-append (if applies o path r then r.action else a) rs qs

  -- A loop whose rules for one path act exactly if it hits.
  last_action-each :
      (hit : PathBuf → Bool) (b : Action) (f : PathBuf → List Rule)
      → ((a : Action) (p : PathBuf) → last_action o path a (f p) ≡ (if hit p then b else a))
      → (a : Action) (ps : List PathBuf)
      → last_action o path a (each f ps) ≡ (if some_of hit ps then b else a)
  unfolding last_action
  last_action-each hit b f h a [] = refl
  last_action-each hit b f h a (p ∷ ps) =
      last_action-append a (f p) (each f ps)
      ∙ (last_action-each hit b f h (last_action o path a (f p)) ps ∙ rw h (ground arith))

  abbrev hits : Operation → PathBuf → Bool
  hits o' p = same_operation o o' && starts_with path (to_string_lossy p)

  last_action-path_rules :
      (b : Action) (o' : Operation) (a : Action) (ps : List PathBuf)
      → last_action o path a (each (path_rules b o') ps) ≡ (if some_of (hits o') ps then b else a)
  unfolding last_action
  last_action-path_rules b o' = last_action-each (hits o') b (path_rules b o') λ a p. ground arith

  last_action-denial_rules :
      (a : Action) (ps : List PathBuf)
      → last_action o path a (each denial_rules ps)
        ≡ (if some_of (λ p. hits file_read p || hits file_write p) ps then deny else a)
  unfolding last_action
  last_action-denial_rules =
      last_action-each (λ p. hits file_read p || hits file_write p) deny denial_rules
        λ a p. ground arith

  last_action-ancestor_rules :
      (a : Action) (ps : List PathBuf)
      → last_action o path a (each ancestor_rules ps) ≡ (
          if some_of (λ p. same_operation o file_read && same_path path (to_string_lossy p)) ps
          then allow
          else a)
  unfolding last_action
  last_action-ancestor_rules = last_action-each _ allow ancestor_rules λ a p. ground arith

some_of-false : (ps : List PathBuf) → some_of (λ p. false) ps ≡ false
some_of-false [] = refl
some_of-false (p ∷ ps) = some_of-false ps

module _ (path : PathBuf) where
  under-dedupe_paths : (ps : List PathBuf) → under path (dedupe_paths ps) ≡ under path ps
  under-dedupe_paths = some_of-dedupe_paths (λ key. starts_with path key)

  above-readable_path_ancestors :
      (ps : List PathBuf)
      → some_of
          (λ p. same_path path (to_string_lossy p))
          (readable_path_ancestors (dedupe_paths ps))
        ≡ above path (dedupe_paths ps)
  above-readable_path_ancestors ps =
      some_of-readable_path_ancestors (λ key. same_path path key) (dedupe_paths ps)

  write-write_rules :
      (b a : Action) (ps : List PathBuf)
      → last_action file_write path a (each (path_rules b file_write) ps)
        ≡ (if under path ps then b else a)
  write-write_rules b = last_action-path_rules file_write path b file_write

  write-read_rules :
      (b a : Action) (ps : List PathBuf)
      → last_action file_write path a (each (path_rules b file_read) ps) ≡ a
  write-read_rules b a ps =
      last_action-path_rules file_write path b file_read a ps ∙ rw (some_of-false ps)

  write-denial_rules :
      (a : Action) (ps : List PathBuf)
      → last_action file_write path a (each denial_rules ps) ≡ (if under path ps then deny else a)
  write-denial_rules = last_action-denial_rules file_write path

  write-ancestor_rules :
      (a : Action) (ps : List PathBuf) → last_action file_write path a (each ancestor_rules ps) ≡ a
  write-ancestor_rules a ps =
      last_action-ancestor_rules file_write path a ps ∙ rw (some_of-false ps)

  read-write_rules :
      (b a : Action) (ps : List PathBuf)
      → last_action file_read path a (each (path_rules b file_write) ps) ≡ a
  read-write_rules b a ps =
      last_action-path_rules file_read path b file_write a ps ∙ rw (some_of-false ps)

  read-read_rules :
      (b a : Action) (ps : List PathBuf)
      → last_action file_read path a (each (path_rules b file_read) ps)
        ≡ (if under path ps then b else a)
  read-read_rules b = last_action-path_rules file_read path b file_read

  read-denial_rules :
      (a : Action) (ps : List PathBuf)
      → last_action file_read path a (each denial_rules ps) ≡ (if under path ps then deny else a)
  unfolding last_action
  read-denial_rules =
      last_action-each file_read path (λ p. starts_with path (to_string_lossy p)) deny denial_rules
        λ a p. ground arith

  read-ancestor_rules :
      (a : Action) (ps : List PathBuf)
      → last_action file_read path a (each ancestor_rules ps)
        ≡ (if some_of (λ p. same_path path (to_string_lossy p)) ps then allow else a)
  read-ancestor_rules = last_action-ancestor_rules file_read path

ruleset action_laws = (
  last_action-append, write-write_rules, write-read_rules, write-denial_rules, write-ancestor_rules,
  read-write_rules, read-read_rules, read-denial_rules, read-ancestor_rules, under-dedupe_paths,
  above-readable_path_ancestors,
)

last_action-network_rules :
    (o : Operation) (path : PathBuf) (b : Bool) (a : Action)
    → last_action o path a (network_rules b)
      ≡ (if same_operation o network && not b then deny else a)
unfolding last_action network_rules
last_action-network_rules o path true a = ground arith
last_action-network_rules o path false a = ground arith

-- What the policy says of a write: denied paths win, then the default with its exceptions.
abbrev pub write_action : SandboxPolicy → PathBuf → SandboxAccess → Action
write_action policy path read_write = if under path (read_only_paths policy) then deny else allow
write_action policy path _ = if under path (read_write_paths policy) then allow else deny

-- What it says of a read: where nothing is readable by default, the readable roots and the
-- directories on the way to them are.
abbrev pub read_action : SandboxPolicy → PathBuf → SandboxAccess → Action
read_action policy path no_access =
    if under path (readable_paths policy) || above path (dedupe_paths (readable_paths policy))
    then allow
    else deny
read_action policy path _ = allow

last_action-global :
    (o o' : Operation) (path : PathBuf) (a : Action) (rs : List Rule)
    → last_action o path a (rule deny o' everything ∷ rs)
      ≡ last_action o path (if same_operation o o' then deny else a) rs
unfolding last_action
last_action-global o o' path a rs = ground arith

write-access_rules :
    (policy : SandboxPolicy) (path : PathBuf) (d : SandboxAccess)
    → last_action file_write path allow (
        access_rules d
          (dedupe_paths (read_only_paths policy))
          (dedupe_paths (read_write_paths policy))
          (dedupe_paths (readable_paths policy))
          (dedupe_paths (denied_paths policy)))
      ≡ (if under path (denied_paths policy) then deny else write_action policy path d)
unfolding access_rules
write-access_rules policy path no_access = simp (last_action-global, action_laws)
write-access_rules policy path read_only = simp (last_action-global, action_laws)
write-access_rules policy path read_write = simp action_laws

read-access_rules :
    (policy : SandboxPolicy) (path : PathBuf) (d : SandboxAccess)
    → last_action file_read path allow (
        access_rules d
          (dedupe_paths (read_only_paths policy))
          (dedupe_paths (read_write_paths policy))
          (dedupe_paths (readable_paths policy))
          (dedupe_paths (denied_paths policy)))
      ≡ (if under path (denied_paths policy) then deny else read_action policy path d)
unfolding access_rules
read-access_rules policy path no_access = simp (last_action-global, action_laws) (ground arith)
read-access_rules policy path read_only = simp (last_action-global, action_laws)
read-access_rules policy path read_write = simp action_laws

-- The profile's verdict on a write, for every policy and path.
pub write_verdict :
    (policy : SandboxPolicy) (path : PathBuf)
    → last_action file_write path allow (rules_of policy) ≡ (
        if under path (denied_paths policy)
        then deny
        else write_action policy path policy.default_access)
unfolding rules_of
write_verdict policy path =
    simp (last_action-append, last_action-network_rules)
      (write-access_rules policy path policy.default_access)

-- The profile's verdict on a read, for every policy and path.
pub read_verdict :
    (policy : SandboxPolicy) (path : PathBuf)
    → last_action file_read path allow (rules_of policy) ≡ (
        if under path (denied_paths policy)
        then deny
        else read_action policy path policy.default_access)
unfolding rules_of
read_verdict policy path =
    simp (last_action-append, last_action-network_rules)
      (read-access_rules policy path policy.default_access)
