-- ===== src/Linux/Overlay/Order.antt =====
-- The order in which overlays are mounted.
use mathlib.Core.List.{Perm}
use procwarden.Common.{
  ℕ, ◌≤◌, ◌≡◌, true, false, List, [], ◌∷◌, map, sort_by-perm, sort_by-IsOrdered, IsOrdered, arith,
}
use procwarden.Paths.{PathBuf}
use procwarden.Paths.Order.{compare_paths_gt}
use procwarden.Linux.Overlay.{
  deny_kind, ReadWriteOverlayEntry, entry, merge_overlays, path_depth, mounts_before,
  collect_readwrite_overlay_entries, collect_deny_overlay_entries,
}

mounts_before-total :
    (a b : ReadWriteOverlayEntry) → mounts_before a b ≡ false → mounts_before b a ≡ true
unfolding mounts_before
mounts_before-total a b h = ground (arith, compare_paths_gt a.path b.path)

-- No entry is deeper than the given depth.
abbrev pub NoDeeper : ℕ → List ReadWriteOverlayEntry → Type 0
NoDeeper depth [] = Unit
NoDeeper depth (e ∷ es) = (path_depth e.path ≤ depth) × NoDeeper depth es

-- No entry is deeper than one before it.
abbrev pub DeepestFirst : List ReadWriteOverlayEntry → Type 0
DeepestFirst [] = Unit
DeepestFirst (e ∷ es) = NoDeeper (path_depth e.path) es × DeepestFirst es

mounts_before-depth :
    (a b : ReadWriteOverlayEntry) → mounts_before a b ≡ true → path_depth b.path ≤ path_depth a.path
unfolding mounts_before
mounts_before-depth a b h = ground arith

NoDeeper-trans : (n m : ℕ) (es : List ReadWriteOverlayEntry) → n ≤ m → NoDeeper n es → NoDeeper m es
NoDeeper-trans n m [] h k = tt
NoDeeper-trans n m (e ∷ es) h k = (omega arith, NoDeeper-trans n m es h k.1)

IsOrdered-DeepestFirst :
    (es : List ReadWriteOverlayEntry) → IsOrdered mounts_before es → DeepestFirst es
IsOrdered-DeepestFirst [] h = tt
IsOrdered-DeepestFirst (e ∷ []) h = (tt, tt)
IsOrdered-DeepestFirst (e ∷ f ∷ es) (before, ordered) =
    let rest = IsOrdered-DeepestFirst (f ∷ es) ordered in
    let depth = mounts_before-depth e f before in
    ((depth, NoDeeper-trans (path_depth f.path) (path_depth e.path) es depth rest.0), rest)

-- The entries of a policy with everything writable are the merged overlays, each once, deepest first.
pub collect_readwrite_overlay_entries_order :
    (read_only_paths denied_paths : List PathBuf)
    → Perm
        (collect_readwrite_overlay_entries read_only_paths denied_paths)
        (map (λ (path, kind). entry path kind) (merge_overlays read_only_paths denied_paths))
      × DeepestFirst (collect_readwrite_overlay_entries read_only_paths denied_paths)
unfolding collect_readwrite_overlay_entries
collect_readwrite_overlay_entries_order read_only_paths denied_paths = (
  sort_by-perm mounts_before _,
  IsOrdered-DeepestFirst _ (sort_by-IsOrdered mounts_before mounts_before-total _),
)

-- The entries of any other policy deny each path given, as often as it is given, deepest first.
collect_deny_overlay_entries_order :
    (denied_paths : List PathBuf)
    → Perm
        (collect_deny_overlay_entries denied_paths)
        (map (λ path. entry path deny_kind) denied_paths)
      × DeepestFirst (collect_deny_overlay_entries denied_paths)
unfolding collect_deny_overlay_entries
collect_deny_overlay_entries_order denied_paths = (
  sort_by-perm mounts_before _,
  IsOrdered-DeepestFirst _ (sort_by-IsOrdered mounts_before mounts_before-total _),
)
