-- ===== src/Linux/Mounts.antt =====
-- platform/linux.rs: the bind mounts that hide or freeze the overlaid paths.
pub mod Installed
use Prim.Native.Nat.{bit_or}
use procwarden.Common.{
  ℕ, suc, ◌+◌, Bool, true, false, Option, none, some, List, [], ◌∷◌, ◌++◌, Text, lit, decimal,
  is_empty, if◌then◌else◌, Result, ok,
}
use procwarden.Paths.{PathBuf, join_path}
use procwarden.Linux.Kernel.{
  System, Calls, Call, mount, metadata, create_dir_all, create_file, remove_dir, remove_dir_all,
  remove_file, set_permissions, Os, pure, ◌>>=◌, ◌>>◌, libc, std_fs, ignore,
}
use procwarden.Linux.Namespace.{
  ms_rdonly, ms_remount, ms_bind, ms_rec, with_c_path, enter_overlay_mount_namespace,
}
use procwarden.Linux.Overlay.{
  ReadWriteOverlayKind, read_only_kind, deny_kind, ReadWriteOverlayEntry,
}

-- `flags |= MS_REC` for a directory.
abbrev pub with_rec : Bool → ℕ → ℕ
with_rec recursive flags = if recursive then bit_or flags ms_rec else flags

abbrev pub bind_flags : Bool → ℕ
bind_flags recursive = with_rec recursive ms_bind

abbrev pub remount_flags : Bool → ℕ
remount_flags recursive = with_rec recursive (bit_or (bit_or ms_bind ms_remount) ms_rdonly)

module _ (s : System) where
  unfoldable pub bind_mount : PathBuf → PathBuf → Bool → Os (Unit {0})
  bind_mount source target recursive = with_c_path source λ source_c.
      with_c_path target λ target_c. libc s (mount (some source_c) target_c (bind_flags recursive))

  unfoldable pub remount_bind_readonly : PathBuf → Bool → Os (Unit {0})
  remount_bind_readonly target recursive =
      with_c_path target λ target_c. libc s (mount none target_c (remount_flags recursive))

  -- `fs::metadata(target)?.is_dir()`
  unfoldable pub metadata_is_dir : PathBuf → Os Bool
  metadata_is_dir target =
      std_fs s (metadata target) >> λ calls. (ok (s.is_dir calls target), calls)

  unfoldable pub apply_readonly_bind_mount : PathBuf → Os (Unit {0})
  apply_readonly_bind_mount target = do
    recursive ← metadata_is_dir target
    bind_mount target target recursive
    remount_bind_readonly target recursive

  -- An empty directory or file that nobody may open.
  unfoldable pub create_placeholder : Bool → PathBuf → Os (Unit {0})
  create_placeholder recursive placeholder = do
    std_fs s (if recursive then create_dir_all placeholder else create_file placeholder)
    std_fs s (set_permissions placeholder 0)

  unfoldable pub placeholder_path : PathBuf → ℕ → Bool → PathBuf
  placeholder_path scratch_root index recursive =
      join_path scratch_root
        ((if recursive then lit "deny-dir-" else lit "deny-file-") ++ decimal index)

  unfoldable pub apply_deny_bind_mount : PathBuf → PathBuf → ℕ → Os (Unit {0})
  apply_deny_bind_mount target scratch_root index = do
    recursive ← metadata_is_dir target
    let placeholder = placeholder_path scratch_root index recursive
    create_placeholder recursive placeholder
    bind_mount placeholder target recursive
    remount_bind_readonly target recursive
    ignore (std_fs s (if recursive then remove_dir placeholder else remove_file placeholder))

  unfoldable pub create_overlay_scratch_root : Os PathBuf
  create_overlay_scratch_root = do
    let scratch = join_path s.temp_dir (lit "procwarden-linux-overlay-" ++ decimal s.pid)
    λ calls.
        if s.exists calls scratch
        then ignore (std_fs s (remove_dir_all scratch)) calls
        else pure tt calls
    std_fs s (create_dir_all scratch)
    pure scratch

  abbrev pub apply_kind : ReadWriteOverlayKind → PathBuf → PathBuf → ℕ → Os (Unit {0})
  apply_kind read_only_kind path scratch_root index = apply_readonly_bind_mount path
  apply_kind deny_kind path scratch_root index = apply_deny_bind_mount path scratch_root index

  unfoldable pub apply_overlay : PathBuf → ℕ → ReadWriteOverlayEntry → Os (Unit {0})
  apply_overlay scratch_root index overlay = apply_kind overlay.kind overlay.path scratch_root index

  -- The loop over `overlays.iter().enumerate()`, from an index on.
  unfoldable pub apply_overlays : PathBuf → ℕ → List ReadWriteOverlayEntry → Os (Unit {0})
  apply_overlays scratch_root index [] = pure tt
  apply_overlays scratch_root index (overlay ∷ overlays) =
      apply_overlay scratch_root index overlay >> apply_overlays scratch_root (suc index) overlays

  unfoldable pub install_readwrite_mount_overlays_on_current_process :
      List ReadWriteOverlayEntry → ℕ → ℕ → Os (Unit {0})
  install_readwrite_mount_overlays_on_current_process overlays host_uid host_gid =
      if is_empty overlays then pure tt else (do
        enter_overlay_mount_namespace s host_uid host_gid
        scratch_root ← create_overlay_scratch_root
        apply_overlays scratch_root 0 overlays
        ignore (std_fs s (remove_dir scratch_root)))
