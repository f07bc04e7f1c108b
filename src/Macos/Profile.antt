-- ===== src/Macos/Profile.antt =====
-- platform/macos.rs: `build_sbpl_profile` and its helpers. A loop that pushes lines is a fold over
-- the lines so far.
use mathlib.Core.List.{foldl}
use procwarden.Common.{
  not, List, [], ◌∷◌, ◌++◌, Text, lit, text_eq, join_with, some_of, if◌then◌else◌, ◌==◌,
}
use procwarden.Paths.{PathBuf, to_string_lossy, ancestors_above}
use procwarden.Policy.{
  SandboxPolicy, SandboxAccess, no_access, read_only, read_write, read_only_paths, read_write_paths,
  readable_paths, denied_paths,
}

unfoldable pub escape : Text → Text
escape [] = []
escape (ch ∷ s) =
    let rest = escape s in
    if ch == b'\\'
    then b'\\' ∷ b'\\' ∷ rest
    else if ch == b'"'
    then b'\\' ∷ b'"' ∷ rest
    else ch ∷ rest

-- The text of the path between quotes, with `\` and `"` escaped.
unfoldable pub quote_text : Text → Text
unfolding escape
quote_text s = b'"' ∷ (escape s ++ (b'"' ∷ []))

unfoldable pub quote_sbpl_string : PathBuf → Text
unfolding quote_text
quote_sbpl_string path = quote_text (to_string_lossy path)

-- `format!("({action} {operation} ({filter} {path}))")`
unfoldable pub rule_line : Text → Text → Text → Text → Text
rule_line action operation filter path =
    lit "("
    ++ (action
        ++ (lit " " ++ (operation ++ (lit " (" ++ (filter ++ (lit " " ++ (path ++ lit "))")))))))

unfoldable pub push_path_rule : List Text → Text → Text → PathBuf → List Text
push_path_rule lines action operation path =
    let quoted = quote_sbpl_string path in
    (lines ++ (rule_line action operation (lit "literal") quoted ∷ []))
    ++ (rule_line action operation (lit "subpath") quoted ∷ [])

unfoldable pub push_literal_rule : List Text → Text → Text → PathBuf → List Text
push_literal_rule lines action operation path =
    lines ++ (rule_line action operation (lit "literal") (quote_sbpl_string path) ∷ [])

-- The keys seen, and the paths kept so far.
abbrev pub Seen : Type 0
Seen = List Text × List PathBuf

-- `if seen.insert(key) { kept.push(path) }`
unfoldable pub push_new : Seen → PathBuf → Seen
push_new (seen, kept) path =
    let key = to_string_lossy path in
    if some_of (text_eq key) seen then (seen, kept) else (key ∷ seen, kept ++ (path ∷ []))

unfoldable pub dedupe_paths : List PathBuf → List PathBuf
dedupe_paths paths = (foldl push_new ([], []) paths).1

unfoldable pub readable_path_ancestors : List PathBuf → List PathBuf
readable_path_ancestors paths =
    (foldl (λ seen path. foldl push_new seen (ancestors_above path)) ([], []) paths).1

-- `push_path_rule` for each path, once for reads and once for writes.
unfoldable pub push_denials : List Text → List PathBuf → List Text
push_denials lines denied =
    foldl
      (λ lines path.
        push_path_rule (push_path_rule lines (lit "deny") (lit "file-read*") path) (lit "deny")
          (lit "file-write*") path)
      lines denied

unfoldable pub push_each : Text → Text → List Text → List PathBuf → List Text
push_each action operation lines paths =
    foldl (λ lines path. push_path_rule lines action operation path) lines paths

unfoldable pub push_literals : List Text → List PathBuf → List Text
push_literals lines paths =
    foldl (λ lines path. push_literal_rule lines (lit "allow") (lit "file-read*") path) lines paths

-- The `match` on the default access.
unfoldable pub access_lines :
    SandboxAccess
    → List Text
    → List PathBuf
    → List PathBuf
    → List PathBuf
    → List PathBuf
    → List Text
access_lines read_write lines read_only_paths read_write_paths readable_paths denied_paths =
    push_denials (push_each (lit "deny") (lit "file-write*") lines read_only_paths) denied_paths
access_lines read_only lines read_only_paths read_write_paths readable_paths denied_paths =
    push_denials
      (push_each (lit "allow") (lit "file-write*") (lines ++ (lit "(deny file-write*)" ∷ []))
        read_write_paths)
      denied_paths
access_lines no_access lines read_only_paths read_write_paths readable_paths denied_paths =
    let globally = (lines ++ (lit "(deny file-read*)" ∷ [])) ++ (lit "(deny file-write*)" ∷ []) in
    let ancestors = push_literals globally (readable_path_ancestors readable_paths) in
    let readable = push_each (lit "allow") (lit "file-read*") ancestors readable_paths in
    let writable = push_each (lit "allow") (lit "file-write*") readable read_write_paths in
    push_denials writable denied_paths

unfoldable pub profile_lines : SandboxPolicy → List Text
profile_lines policy =
    let lines = lit "(version 1)" ∷ lit "(allow default)" ∷ [] in
    access_lines policy.default_access
      (if not policy.network_access then lines ++ (lit "(deny network*)" ∷ []) else lines)
      (dedupe_paths (read_only_paths policy)) (dedupe_paths (read_write_paths policy))
      (dedupe_paths (readable_paths policy)) (dedupe_paths (denied_paths policy))

unfoldable pub build_sbpl_profile : SandboxPolicy → Text
build_sbpl_profile policy = join_with (lit "\n") (profile_lines policy)
