-- ===== src/Linux/Overlay/Merge.antt =====
-- Which kind of overlay a path gets: a denial beats a read-only entry.
use Prim.Native.Nat.{Ordering}
use procwarden.Common.{
  ◌≡◌, refl, ◌∙◌, Bool, true, false, Option, none, some, List, [], ◌∷◌, if◌then◌else◌, some_of,
  arith,
}
use procwarden.Paths.{PathBuf, compare_paths}
use procwarden.Paths.Order.{compare_paths_eq_iff}
use procwarden.Linux.Overlay.{
  ReadWriteOverlayKind, read_only_kind, deny_kind, Overlays, insert_overlay, insert_all,
  merge_overlays,
}

-- The two paths have the same components.
abbrev pub same : PathBuf → PathBuf → Bool
same p q = elim (compare_paths p q) [ Ordering.eq ↦ true | _ ↦ false ]

-- `BTreeMap::get`
pub kind_at : PathBuf → Overlays → Option ReadWriteOverlayKind
kind_at path [] = none
kind_at path ((p, kind) ∷ merged) =
    let later = kind_at path merged in if same path p then some kind else later

abbrev pub listed : PathBuf → List PathBuf → Bool
listed path paths = some_of (same path) paths

same_congr : (path p q : PathBuf) → compare_paths p q ≡ Ordering.eq → same path p ≡ same path q
same_congr path p q h =
    ground
      (arith, compare_paths_eq_iff p q, compare_paths_eq_iff path p, compare_paths_eq_iff path q)

kind_at-insert_overlay :
    (path p : PathBuf) (kind : ReadWriteOverlayKind) (merged : Overlays)
    → kind_at path (insert_overlay p kind merged)
      ≡ (if same path p then some kind else kind_at path merged)
unfolding kind_at insert_overlay
kind_at-insert_overlay path p kind [] = refl
kind_at-insert_overlay path p kind ((q, k) ∷ merged) = ground (
  arith,
  same_congr path p q,
  compare_paths_eq_iff p q,
  compare_paths_eq_iff path p,
  compare_paths_eq_iff path q,
  kind_at-insert_overlay path p kind merged,
)

kind_at-insert_all :
    (path : PathBuf) (kind : ReadWriteOverlayKind) (merged : Overlays) (paths : List PathBuf)
    → kind_at path (insert_all kind merged paths)
      ≡ (if listed path paths then some kind else kind_at path merged)
unfolding insert_all
kind_at-insert_all path kind merged [] = refl
kind_at-insert_all path kind merged (p ∷ paths) =
    kind_at-insert_all path kind (insert_overlay p kind merged) paths
    ∙ ground (arith, kind_at-insert_overlay path p kind merged)

-- A path is denied if it is listed as denied, else read-only if it is listed as read-only, and has
-- no overlay otherwise.
pub kind_at-merge_overlays :
    (path : PathBuf) (read_only_paths denied_paths : List PathBuf)
    → kind_at path (merge_overlays read_only_paths denied_paths) ≡ (
        if listed path denied_paths
        then some deny_kind
        else if listed path read_only_paths
        then some read_only_kind
        else none)
unfolding merge_overlays kind_at
kind_at-merge_overlays path read_only_paths denied_paths =
    kind_at-insert_all path deny_kind (insert_all read_only_kind [] read_only_paths) denied_paths
    ∙ ground (arith, kind_at-insert_all path read_only_kind [] read_only_paths)
