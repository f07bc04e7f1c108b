-- ===== src/Linux/Overlay.antt =====
-- platform/linux.rs: the overlay entries of a policy, in the order in which they are mounted.
pub mod Order
pub mod Merge
use Prim.Native.Nat.{compare, Ordering}
use mathlib.Core.List.{foldl}
use procwarden.Common.{
  ℕ, Bool, true, false, not, Option, none, some, List, [], ◌∷◌, ◌++◌, map, Text, lit, length,
  sort_by, Result, ok, err, ◌>>=◌, if◌then◌else◌, traverse,
}
use procwarden.Paths.{PathBuf, components, compare_paths, display}
use procwarden.Policy.{SandboxAccess, no_access, read_only, read_write}
use procwarden.Output.{SandboxError, invalid_request}
use procwarden.Linux.Scope.{HostPaths, normalize_scope_path}

pub data ReadWriteOverlayKind : Type 0 where
  read_only_kind deny_kind : ReadWriteOverlayKind

pub record ReadWriteOverlayEntry : Type 0 where
  pub path : PathBuf
  pub kind : ReadWriteOverlayKind

abbrev pub entry : PathBuf → ReadWriteOverlayKind → ReadWriteOverlayEntry
entry path kind = record { path = path; kind = kind }

unfoldable pub resolve_overlay : HostPaths → Text → Text → PathBuf → Result SandboxError PathBuf
resolve_overlay host label context path = normalize_scope_path host path >>= λ resolved.
    if not (host.exists resolved)
    then err (
        invalid_request (
          lit "linux backend requires existing "
          ++ (label ++ (lit " overlay targets for " ++ (context ++ (lit ": " ++ display path))))))
    else ok resolved

unfoldable pub normalize_existing_overlay_paths :
    HostPaths → List PathBuf → Text → Text → Result SandboxError (List PathBuf)
normalize_existing_overlay_paths host paths label context =
    traverse (resolve_overlay host label context) paths

-- `none` is the `unreachable!` panic.
unfoldable pub overlay_context_label : SandboxAccess → Option Text
overlay_context_label read_write = some (lit "default_access=ReadWrite")
overlay_context_label read_only = some (lit "default_access=ReadOnly with deny overlays")
overlay_context_label no_access = none

-- `BTreeMap<PathBuf, _>`: its entries by key. An equal key keeps its place and takes the new value.
abbrev pub Overlays : Type 0
Overlays = List (PathBuf × ReadWriteOverlayKind)

unfoldable pub insert_overlay : PathBuf → ReadWriteOverlayKind → Overlays → Overlays
insert_overlay path kind [] = (path, kind) ∷ []
insert_overlay path kind ((p, k) ∷ merged) =
    let later = insert_overlay path kind merged in
    elim (compare_paths path p) [
      | Ordering.lt ↦ (path, kind) ∷ (p, k) ∷ merged
      | Ordering.eq ↦ (p, kind) ∷ merged
      | Ordering.gt ↦ (p, k) ∷ later
    ]

unfoldable pub insert_all : ReadWriteOverlayKind → Overlays → List PathBuf → Overlays
unfolding insert_overlay
insert_all kind merged paths = foldl (λ merged path. insert_overlay path kind merged) merged paths

unfoldable pub merge_overlays : List PathBuf → List PathBuf → Overlays
unfolding insert_all
merge_overlays read_only_paths denied_paths =
    insert_all deny_kind (insert_all read_only_kind [] read_only_paths) denied_paths

unfoldable pub path_depth : PathBuf → ℕ
path_depth path = length (components path)

-- The sort's comparison: deeper paths first, then by path.
unfoldable pub mounts_before : ReadWriteOverlayEntry → ReadWriteOverlayEntry → Bool
mounts_before left right = elim (compare (path_depth right.path) (path_depth left.path)) [
  | Ordering.lt ↦ true
  | Ordering.gt ↦ false
  | Ordering.eq ↦ elim (compare_paths left.path right.path) [ Ordering.gt ↦ false | _ ↦ true ]
]

unfoldable pub collect_readwrite_overlay_entries :
    List PathBuf → List PathBuf → List ReadWriteOverlayEntry
collect_readwrite_overlay_entries read_only_paths denied_paths =
    sort_by mounts_before
      (map (λ (path, kind). entry path kind) (merge_overlays read_only_paths denied_paths))

unfoldable pub collect_deny_overlay_entries : List PathBuf → List ReadWriteOverlayEntry
collect_deny_overlay_entries denied_paths =
    sort_by mounts_before (map (λ path. entry path deny_kind) denied_paths)
