-- ===== src/Linux/Mounts/Installed.antt =====
-- What a child that has installed its overlays has mounted.
use procwarden.Common.{ℕ, suc, Bool, ◌≡◌, refl, sym, none, some, List, [], ◌∷◌, All, ok, subst}
use procwarden.Paths.{PathBuf}
use procwarden.Linux.Kernel.{System, Calls, Call, mount, >>=_ok}
use procwarden.Linux.Kernel.Keeps.{Succeeded, libc_ok, Grows, MadeWhen-append, Keeps-ignore}
use procwarden.Linux.Namespace.Entry.{with_c_path_ok}
use procwarden.Linux.Overlay.{
  ReadWriteOverlayKind, read_only_kind, deny_kind, ReadWriteOverlayEntry,
}
use procwarden.Linux.Mounts.{
  bind_flags, remount_flags, bind_mount, remount_bind_readonly, metadata_is_dir, create_placeholder,
  placeholder_path, apply_readonly_bind_mount, apply_deny_bind_mount, apply_kind, apply_overlay,
  apply_overlays,
}
use procwarden.Linux.Monotone.{std_fs-Keeps, apply_overlays-Keeps, remount_bind_readonly-Keeps}

-- What is bound over a path: the path itself, or a placeholder that nobody may open.
abbrev pub IsSource : System → ReadWriteOverlayKind → PathBuf → Bool → PathBuf → Type 0
IsSource s read_only_kind path recursive source = source ≡ path
IsSource s deny_kind path recursive source =
    (root : PathBuf) × (index : ℕ) × (source ≡ placeholder_path s root index recursive)

-- The path has been bound over and made read-only, both with success.
pub record IsMounted (s : System) (e : ReadWriteOverlayEntry) (calls : Calls) : Type 0 where
  pub recursive : Bool
  pub source : PathBuf
  pub is_source : IsSource s e.kind e.path recursive source
  pub bound : Succeeded s (mount (some source) e.path (bind_flags recursive)) calls
  pub frozen : Succeeded s (mount none e.path (remount_flags recursive)) calls

module _ (s : System) where
  pub IsMounted-append : (e : ReadWriteOverlayEntry) (c : Call) → Grows (IsMounted s e) c
  IsMounted-append e c calls m = record {
    recursive = m.recursive;
    source = m.source;
    is_source = m.is_source;
    bound = MadeWhen-append _ _ c calls m.bound;
    frozen = MadeWhen-append _ _ c calls m.frozen;
  }

  bind_mount_ok :
      (source target : PathBuf) (r : Bool) (calls : Calls)
      → (bind_mount s source target r calls).0 ≡ ok tt
      → Succeeded s
          (mount (some source) target (bind_flags r))
          (bind_mount s source target r calls).1
  unfolding bind_mount
  bind_mount_ok source target r calls h =
      let e = with_c_path_ok source _ calls h in
      let e' = with_c_path_ok target _ calls (rw e at h) in
      rw (e, e') (libc_ok s _ calls (rw (e, e') at h))

  remount_ok :
      (target : PathBuf) (r : Bool) (calls : Calls)
      → (remount_bind_readonly s target r calls).0 ≡ ok tt
      → Succeeded s (mount none target (remount_flags r)) (remount_bind_readonly s target r calls).1
  unfolding remount_bind_readonly
  remount_ok target r calls h =
      let e = with_c_path_ok target _ calls h in rw e (libc_ok s _ calls (rw e at h))

  -- The two mounts of an overlay, one after the other.
  mounts_ok :
      (k : ReadWriteOverlayKind) (source target : PathBuf) (r : Bool) (calls : Calls)
      → IsSource s k target r source
      → (bind_mount s source target r calls).0 ≡ ok tt
      → (remount_bind_readonly s target r (bind_mount s source target r calls).1).0 ≡ ok tt
      → IsMounted s
          (record { path = target; kind = k })
          (remount_bind_readonly s target r (bind_mount s source target r calls).1).1
  mounts_ok k source target r calls src h h' = record {
    recursive = r;
    source = source;
    is_source = src;
    bound =
        (remount_bind_readonly-Keeps s _ (λ d. MadeWhen-append _ _ d) target r).at _
          (bind_mount_ok source target r calls h);
    frozen = remount_ok target r _ h';
  }

  apply_kind_ok :
      (k : ReadWriteOverlayKind) (path root : PathBuf) (i : ℕ) (calls : Calls)
      → (apply_kind s k path root i calls).0 ≡ ok tt
      → IsMounted s (record { path = path; kind = k }) (apply_kind s k path root i calls).1
  unfolding apply_readonly_bind_mount apply_deny_bind_mount
  apply_kind_ok read_only_kind path root i calls h =
      let (r, _, e) = >>=_ok (metadata_is_dir s path) _ calls h in
      let mid = (metadata_is_dir s path calls).1 in
      let (_, b, f) = >>=_ok (bind_mount s path path r) _ mid (rw e at h) in
      rw (e, f) (mounts_ok read_only_kind path path r mid refl b (rw (e, f) at h))
  apply_kind_ok deny_kind path root i calls h =
      let (r, _, e) = >>=_ok (metadata_is_dir s path) _ calls h in
      let mid = (metadata_is_dir s path calls).1 in
      let placeholder = placeholder_path s root i r in
      let (_, _, f) = >>=_ok (create_placeholder s r placeholder) _ mid (rw e at h) in
      let made = (create_placeholder s r placeholder mid).1 in
      let (_, b, g) = >>=_ok (bind_mount s placeholder path r) _ made (rw (e, f) at h) in
      let bound = (bind_mount s placeholder path r made).1 in
      let (_, c, k) = >>=_ok (remount_bind_readonly s path r) _ bound (rw (e, f, g) at h) in
      rw (e, f, g, k)
        ((Keeps-ignore _ (std_fs-Keeps s _ (IsMounted-append _) _)).at _
          (mounts_ok deny_kind placeholder path r made (root, i, refl) b c))

  -- When the loop over the overlays ends without an error, the path of each overlay has been bound
  -- over, read-only entries by themselves and denied ones by a placeholder of the scratch
  -- directory, and has then been remounted read-only, both calls with success.
  pub apply_overlays_ok :
      (root : PathBuf) (i : ℕ) (es : List ReadWriteOverlayEntry) (calls : Calls)
      → (apply_overlays s root i es calls).0 ≡ ok tt
      → All (λ e. IsMounted s e (apply_overlays s root i es calls).1) es
  unfolding apply_overlays apply_overlay
  apply_overlays_ok root i [] calls h = tt
  apply_overlays_ok root i (e ∷ es) calls h =
      let (_, b, f) = >>=_ok (apply_kind s e.kind e.path root i) _ calls h in
      let mid = (apply_kind s e.kind e.path root i calls).1 in
      subst (λ r. All (λ o. IsMounted s o r.1) (e ∷ es)) (sym f)
        (
          (apply_overlays-Keeps s _ (IsMounted-append e) root (suc i) es).at mid
              (apply_kind_ok e.kind e.path root i calls b),
          apply_overlays_ok root (suc i) es mid (rw f at h),
        )
