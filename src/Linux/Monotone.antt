-- ===== src/Linux/Monotone.antt =====
-- What more calls cannot undo, no action of the child undoes.
use procwarden.Common.{suc, Text, ℕ, Bool, List, [], ◌∷◌, Result, ok, err, IoError, ErrorKind, kind}
use procwarden.Paths.{PathBuf}
use procwarden.Linux.Kernel.{System, Calls, Call, metadata, Os, fail, libc, std_fs, map_error}
use procwarden.Linux.Kernel.Keeps.{
  Keeps, Grows, Keeps-pure, Keeps-fail, Keeps-if, Keeps-ignore, Keeps-bind, Keeps-libc,
  Keeps-std_fs,
}
use procwarden.Linux.Namespace.{
  either, c_path, with_c_path, mark_mount_tree_private, deny_setgroups, setgroups_failed, write_map,
  configure_current_process_user_namespace_mapping,
}
use procwarden.Linux.Mounts.{
  bind_mount, remount_bind_readonly, metadata_is_dir, apply_readonly_bind_mount, create_placeholder,
  apply_deny_bind_mount, apply_kind, apply_overlay, apply_overlays,
}
use procwarden.Linux.Overlay.{
  ReadWriteOverlayKind, read_only_kind, deny_kind, ReadWriteOverlayEntry,
}

module _ (s : System) (P : Calls → Type 0) (grows : (d : Call) → Grows P d) where
  libc-Keeps : (c : Call) → Keeps P (libc s c)
  libc-Keeps c = Keeps-libc s P c (grows c)

  pub std_fs-Keeps : (c : Call) → Keeps P (std_fs s c)
  std_fs-Keeps c = Keeps-std_fs s P c (grows c)

  map_error-Keeps :
      (f : IoError → IoError) (m : Os (Unit {0})) → Keeps P m → Keeps P (map_error f m)
  map_error-Keeps f m h = record { at = λ calls p. go (m calls).0 (m calls).1 (h.at calls p) }
    where
      go :
          (r : Result IoError (Unit {0})) (calls : Calls)
          → P calls
          → P (map_error f (λ _. (r, calls)) calls).1
      go (ok a) calls p = p
      go (err e) calls p = p

  either-Keeps :
      (m : Os (Unit {0})) (f : Unit {0} → Os (Unit {0})) (g : IoError → Os (Unit {0}))
      → Keeps P m
      → ((a : Unit {0}) → Keeps P (f a))
      → ((e : IoError) → Keeps P (g e))
      → Keeps P (either m f g)
  either-Keeps m f g hm hf hg = record {
    at = λ calls p. go (m calls).0 (m calls).1 (hm.at calls p);
  }
    where
      go :
          (r : Result IoError (Unit {0})) (calls : Calls)
          → P calls
          → P (either (λ _. (r, calls)) f g calls).1
      go (ok a) calls p = (hf a).at calls p
      go (err e) calls p = (hg e).at calls p

  with_c_path-Keeps :
      (path : PathBuf) (f : PathBuf → Os (Unit {0}))
      → ((p : PathBuf) → Keeps P (f p))
      → Keeps P (with_c_path path f)
  with_c_path-Keeps path f h = go (c_path path)
    where
      go :
          (r : Result IoError PathBuf)
          → Keeps P (elim r as (λ _. Os (Unit {0})) [ err e ↦ fail e | ok p ↦ f p ])
      go (ok p) = h p
      go (err e) = Keeps-fail e

  ruleset grow_rules = (
    Keeps-pure, Keeps-fail, Keeps-if, Keeps-ignore, Keeps-bind, libc-Keeps, std_fs-Keeps,
    map_error-Keeps, either-Keeps, with_c_path-Keeps,
  )

  mark_mount_tree_private-Keeps : Keeps P (mark_mount_tree_private s)
  unfolding mark_mount_tree_private
  mark_mount_tree_private-Keeps = search grow_rules

  setgroups_failed-Keeps : (k : ErrorKind) (e : IoError) → Keeps P (setgroups_failed s k e)
  setgroups_failed-Keeps ErrorKind.not_found e = Keeps-pure tt
  setgroups_failed-Keeps _ e = Keeps-fail _

  deny_setgroups-Keeps : Keeps P (deny_setgroups s)
  unfolding deny_setgroups
  deny_setgroups-Keeps =
      either-Keeps _ _ _ (std_fs-Keeps _) (λ a. Keeps-pure a) λ e. setgroups_failed-Keeps (kind e) e

  write_map-Keeps : (file : Text) (id : ℕ) → Keeps P (write_map s file id)
  unfolding write_map
  write_map-Keeps file id = search grow_rules

  configure-Keeps :
      (uid gid : ℕ) → Keeps P (configure_current_process_user_namespace_mapping s uid gid)
  unfolding configure_current_process_user_namespace_mapping
  configure-Keeps uid gid = search (grow_rules, deny_setgroups-Keeps, write_map-Keeps) depth 9

  metadata_is_dir-Keeps : (target : PathBuf) → Keeps P (metadata_is_dir s target)
  unfolding metadata_is_dir
  metadata_is_dir-Keeps target =
      Keeps-bind (std_fs s (metadata target)) _ (std_fs-Keeps _) λ _. record { at = λ calls h. h }

  bind_mount-Keeps : (source target : PathBuf) (r : Bool) → Keeps P (bind_mount s source target r)
  unfolding bind_mount
  bind_mount-Keeps source target r = search grow_rules

  pub remount_bind_readonly-Keeps :
      (target : PathBuf) (r : Bool) → Keeps P (remount_bind_readonly s target r)
  unfolding remount_bind_readonly
  remount_bind_readonly-Keeps target r = search grow_rules

  create_placeholder-Keeps : (r : Bool) (path : PathBuf) → Keeps P (create_placeholder s r path)
  unfolding create_placeholder
  create_placeholder-Keeps r path = search grow_rules

  ruleset mount_rules = (
    grow_rules, metadata_is_dir-Keeps, bind_mount-Keeps, remount_bind_readonly-Keeps,
    create_placeholder-Keeps,
  )

  apply_readonly-Keeps : (target : PathBuf) → Keeps P (apply_readonly_bind_mount s target)
  unfolding apply_readonly_bind_mount
  apply_readonly-Keeps target = search mount_rules depth 8

  apply_deny-Keeps :
      (target root : PathBuf) (i : ℕ) → Keeps P (apply_deny_bind_mount s target root i)
  unfolding apply_deny_bind_mount
  apply_deny-Keeps target root i = search mount_rules depth 10

  apply_kind-Keeps :
      (k : ReadWriteOverlayKind) (path root : PathBuf) (i : ℕ)
      → Keeps P (apply_kind s k path root i)
  apply_kind-Keeps read_only_kind path root i = apply_readonly-Keeps path
  apply_kind-Keeps deny_kind path root i = apply_deny-Keeps path root i

  pub apply_overlays-Keeps :
      (root : PathBuf) (i : ℕ) (es : List ReadWriteOverlayEntry)
      → Keeps P (apply_overlays s root i es)
  unfolding apply_overlays apply_overlay
  apply_overlays-Keeps root i [] = Keeps-pure tt
  apply_overlays-Keeps root i (e ∷ es) =
      Keeps-bind _ _ (apply_kind-Keeps e.kind e.path root i)
        λ _. apply_overlays-Keeps root (suc i) es
