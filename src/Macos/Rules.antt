-- ===== src/Macos/Rules.antt =====
-- The profile as rules: what the lines that the loops push say, in order.
use mathlib.Core.List.{foldl, append_assoc, append-nil, map-append}
use procwarden.Common.{
  Bool, true, false, ◌≡◌, refl, sym, ap, ◌∙◌, List, [], ◌∷◌, ◌++◌, map, Text, lit, join_with, not,
  if◌then◌else◌,
}
use procwarden.Paths.{PathBuf, to_string_lossy}
use procwarden.Policy.{
  SandboxPolicy, SandboxAccess, no_access, read_only, read_write, read_only_paths, read_write_paths,
  readable_paths, denied_paths,
}
use procwarden.Macos.Profile.{
  quote_text, quote_sbpl_string, rule_line, push_path_rule, push_literal_rule, dedupe_paths,
  readable_path_ancestors, push_denials, push_each, push_literals, access_lines, profile_lines,
  build_sbpl_profile,
}

pub data Action : Type 0 where
  allow deny : Action

pub data Operation : Type 0 where
  file_read file_write network : Operation

-- What a rule covers; a path stands in it as text.
pub data Filter : Type 0 where
  everything : Filter
  literal subpath : Text → Filter

pub record Rule : Type 0 where
  pub action : Action
  pub operation : Operation
  pub filter : Filter

abbrev pub rule : Action → Operation → Filter → Rule
rule a o f = record { action = a; operation = o; filter = f }

action_text : Action → Text
action_text allow = lit "allow"
action_text deny = lit "deny"

operation_text : Operation → Text
operation_text file_read = lit "file-read*"
operation_text file_write = lit "file-write*"
operation_text network = lit "network*"

render_filter : Action → Operation → Filter → Text
unfolding action_text operation_text
render_filter a o everything =
    lit "(" ++ (action_text a ++ (lit " " ++ (operation_text o ++ lit ")")))
render_filter a o (literal key) =
    rule_line (action_text a) (operation_text o) (lit "literal") (quote_text key)
render_filter a o (subpath key) =
    rule_line (action_text a) (operation_text o) (lit "subpath") (quote_text key)

pub render : Rule → Text
unfolding render_filter
render r = render_filter r.action r.operation r.filter

abbrev pub path_rules : Action → Operation → PathBuf → List Rule
path_rules a o path =
    rule a o (literal (to_string_lossy path)) ∷ rule a o (subpath (to_string_lossy path)) ∷ []

abbrev pub denial_rules : PathBuf → List Rule
denial_rules path = path_rules deny file_read path ++ path_rules deny file_write path

abbrev pub each {ℓ} : {B : Type ℓ} → (PathBuf → List B) → List PathBuf → List B
each f [] = []
each f (p ∷ ps) = f p ++ each f ps

unfoldable pub access_rules :
    SandboxAccess → List PathBuf → List PathBuf → List PathBuf → List PathBuf → List Rule
access_rules read_write ro rw_ readable denied =
    each (path_rules deny file_write) ro ++ each denial_rules denied
access_rules read_only ro rw_ readable denied =
    rule deny file_write everything
    ∷ (each (path_rules allow file_write) rw_ ++ each denial_rules denied)
access_rules no_access ro rw_ readable denied =
    rule deny file_read everything
    ∷ rule deny file_write everything
    ∷ (each (λ p. rule allow file_read (literal (to_string_lossy p)) ∷ [])
          (readable_path_ancestors readable)
        ++ (each (path_rules allow file_read) readable
            ++ (each (path_rules allow file_write) rw_ ++ each denial_rules denied)))

unfoldable pub network_rules : Bool → List Rule
network_rules true = []
network_rules false = rule deny network everything ∷ []

-- The rules of a policy, after `(version 1)` and `(allow default)`.
unfoldable pub rules_of : SandboxPolicy → List Rule
unfolding access_rules network_rules
rules_of policy =
    network_rules policy.network_access
    ++ access_rules policy.default_access (dedupe_paths (read_only_paths policy))
        (dedupe_paths (read_write_paths policy)) (dedupe_paths (readable_paths policy))
        (dedupe_paths (denied_paths policy))

-- A loop that pushes the rendered rules of each path appends them all.
foldl-each :
    (push : List Text → PathBuf → List Text) (f : PathBuf → List Rule)
    → ((lines : List Text) (p : PathBuf) → push lines p ≡ lines ++ map render (f p))
    → (lines : List Text) (ps : List PathBuf)
    → foldl push lines ps ≡ lines ++ map render (each f ps)
foldl-each push f h lines [] = sym (append-nil lines)
foldl-each push f h lines (p ∷ ps) =
    foldl-each push f h (push lines p) ps ∙ simp (h, append_assoc, map-append)

push_path_rule-render :
    (a : Action) (o : Operation) (lines : List Text) (p : PathBuf)
    → push_path_rule lines (action_text a) (operation_text o) p
      ≡ lines ++ map render (path_rules a o p)
unfolding push_path_rule render quote_sbpl_string
push_path_rule-render a o lines p = append_assoc lines _ _

push_each-render :
    (a : Action) (o : Operation) (lines : List Text) (ps : List PathBuf)
    → push_each (action_text a) (operation_text o) lines ps
      ≡ lines ++ map render (each (path_rules a o) ps)
unfolding push_each
push_each-render a o = foldl-each _ (path_rules a o) (push_path_rule-render a o)

push_denials-render :
    (lines : List Text) (ps : List PathBuf)
    → push_denials lines ps ≡ lines ++ map render (each denial_rules ps)
unfolding push_denials action_text operation_text
push_denials-render = foldl-each _ denial_rules λ lines p.
    push_path_rule-render deny file_write _ p
    ∙ (ap (λ l. l ++ map render (path_rules deny file_write p))
          (push_path_rule-render deny file_read lines p)
        ∙ append_assoc lines _ _)

abbrev pub ancestor_rules : PathBuf → List Rule
ancestor_rules p = rule allow file_read (literal (to_string_lossy p)) ∷ []

push_literals-render :
    (lines : List Text) (ps : List PathBuf)
    → push_literals lines ps ≡ lines ++ map render (each ancestor_rules ps)
unfolding push_literals push_literal_rule render quote_sbpl_string
push_literals-render = foldl-each _ ancestor_rules λ lines p. refl

deny_writes-render :
    (lines : List Text) (ps : List PathBuf)
    → push_each (lit "deny") (lit "file-write*") lines ps
      ≡ lines ++ map render (each (path_rules deny file_write) ps)
unfolding action_text operation_text
deny_writes-render = push_each-render deny file_write

allow_writes-render :
    (lines : List Text) (ps : List PathBuf)
    → push_each (lit "allow") (lit "file-write*") lines ps
      ≡ lines ++ map render (each (path_rules allow file_write) ps)
unfolding action_text operation_text
allow_writes-render = push_each-render allow file_write

allow_reads-render :
    (lines : List Text) (ps : List PathBuf)
    → push_each (lit "allow") (lit "file-read*") lines ps
      ≡ lines ++ map render (each (path_rules allow file_read) ps)
unfolding action_text operation_text
allow_reads-render = push_each-render allow file_read

global_reads-render : lit "(deny file-read*)" ≡ render (rule deny file_read everything)
unfolding render lit
global_reads-render = refl

global_writes-render : lit "(deny file-write*)" ≡ render (rule deny file_write everything)
unfolding render lit
global_writes-render = refl

network-render : lit "(deny network*)" ≡ render (rule deny network everything)
unfolding render lit
network-render = refl

ruleset render_laws = (
  push_denials-render, deny_writes-render, allow_writes-render, allow_reads-render,
  push_literals-render, global_reads-render, global_writes-render, network-render, append_assoc,
  map-append,
)

access_lines-render :
    (a : SandboxAccess) (lines : List Text) (ro rw_ readable denied : List PathBuf)
    → access_lines a lines ro rw_ readable denied
      ≡ lines ++ map render (access_rules a ro rw_ readable denied)
unfolding access_lines access_rules
access_lines-render read_write lines ro rw_ readable denied = simp render_laws
access_lines-render read_only lines ro rw_ readable denied = simp render_laws
access_lines-render no_access lines ro rw_ readable denied = simp render_laws

network_lines-render :
    (network_access : Bool) (lines : List Text)
    → (if not network_access then lines ++ (lit "(deny network*)" ∷ []) else lines)
      ≡ lines ++ map render (network_rules network_access)
unfolding network_rules
network_lines-render true lines = sym (append-nil lines)
network_lines-render false lines = simp render_laws

-- The profile is its two header lines and the rendered rules of the policy, one to a line.
pub build_sbpl_profile-render :
    (policy : SandboxPolicy)
    → build_sbpl_profile policy
      ≡ join_with
          (lit "\n")
          (lit "(version 1)" ∷ lit "(allow default)" ∷ map render (rules_of policy))
unfolding build_sbpl_profile profile_lines rules_of
build_sbpl_profile-render policy =
    simp (access_lines-render, network_lines-render, append_assoc, map-append)
