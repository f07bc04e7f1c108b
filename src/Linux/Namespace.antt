-- ===== src/Linux/Namespace.antt =====
-- platform/linux.rs: the child's own user and mount namespace.
pub mod Entry
use Prim.Native.Nat.{bit_or}
use procwarden.Common.{
  ℕ, Bool, true, false, ◌&&◌, ◌||◌, not, Option, none, some, List, [], ◌∷◌, ◌++◌, Text, lit,
  decimal, some_of, if◌then◌else◌, ◌==◌, Result, ok, err, IoError, os, custom, ErrorKind, kind,
  raw_os_error, eperm, einval,
}
use procwarden.Paths.{PathBuf, display, slash}
use procwarden.Linux.Kernel.{
  System, Calls, Call, unshare, setresgid, setresuid, mount, write_file, Os, pure, fail, ◌>>=◌,
  ◌>>◌, libc, std_fs, map_error,
}

abbrev pub clone_newns : ℕ
clone_newns = 0x20000

abbrev pub clone_newuser : ℕ
clone_newuser = 0x10000000

abbrev pub ms_rdonly : ℕ
ms_rdonly = 1

abbrev pub ms_remount : ℕ
ms_remount = 32

abbrev pub ms_bind : ℕ
ms_bind = 4096

abbrev pub ms_rec : ℕ
ms_rec = 16384

abbrev pub ms_private : ℕ
ms_private = 262144

-- A match on a result: both branches go on.
abbrev pub either {ℓ κ} : {A : Type ℓ} {B : Type κ} → Os A → (A → Os B) → (IoError → Os B) → Os B
either m f g calls = let (r, calls') = m calls in elim r [ ok a ↦ f a calls' | err e ↦ g e calls' ]

-- `c_path`: a path with a zero byte has no C string.
unfoldable pub c_path : PathBuf → Result IoError PathBuf
c_path path =
    if some_of (λ b. b == 0) path
    then err
        (custom ErrorKind.invalid_input (lit "path contains interior NUL bytes: " ++ display path))
    else ok path

abbrev pub with_c_path {ℓ} : {A : Type ℓ} → PathBuf → (PathBuf → Os A) → Os A
with_c_path path f = elim (c_path path) [ err e ↦ fail e | ok p ↦ f p ]

module _ (s : System) where
  -- `Display` of an `io::Error`.
  unfoldable pub display_error : IoError → Text
  display_error (os code) = s.strerror code ++ (lit " (os error " ++ (decimal code ++ lit ")"))
  display_error (custom k message) = message

  -- `io::Error::new(error.kind(), format!("{what} failed: {error}"))`, which has no system code.
  unfoldable pub wrap_error : Text → IoError → IoError
  wrap_error what e = custom (kind e) (what ++ (lit " failed: " ++ display_error e))

  unfoldable pub mark_mount_tree_private : Os (Unit {0})
  mark_mount_tree_private = with_c_path (slash ∷ []) λ root.
      map_error (wrap_error (lit "mount(MS_PRIVATE)"))
        (libc s (mount none root (bit_or ms_rec ms_private)))

  -- The `match` on a failed write to setgroups, by the error's kind.
  abbrev pub setgroups_failed : ErrorKind → IoError → Os (Unit {0})
  setgroups_failed ErrorKind.not_found e = pure tt
  setgroups_failed k e =
      fail (custom k (lit "writing /proc/self/setgroups failed: " ++ display_error e))

  -- `deny` is written to setgroups, if the kernel has that file.
  unfoldable pub deny_setgroups : Os (Unit {0})
  deny_setgroups =
      either (std_fs s (write_file (lit "/proc/self/setgroups") (lit "deny\n"))) pure
        λ e. setgroups_failed (kind e) e

  -- `"0 {id} 1\n"`
  unfoldable pub id_map : ℕ → Text
  id_map id = lit "0 " ++ (decimal id ++ lit " 1\n")

  unfoldable pub write_map : Text → ℕ → Os (Unit {0})
  write_map file id =
      map_error
        (λ e. custom (kind e) (lit "writing " ++ (file ++ (lit " failed: " ++ display_error e))))
        (std_fs s (write_file file (id_map id)))

  unfoldable pub configure_current_process_user_namespace_mapping : ℕ → ℕ → Os (Unit {0})
  configure_current_process_user_namespace_mapping host_uid host_gid = do
    deny_setgroups
    write_map (lit "/proc/self/uid_map") host_uid
    write_map (lit "/proc/self/gid_map") host_gid
    map_error (wrap_error (lit "setresgid(0,0,0)")) (libc s (setresgid 0 0 0))
    map_error (wrap_error (lit "setresuid(0,0,0)")) (libc s (setresuid 0 0 0))

  -- The codes after which the next way in is tried.
  unfoldable pub is_retryable : IoError → Bool
  is_retryable e = elim (raw_os_error e) [
    | none ↦ false
    | some code ↦ code == eperm || code == einval
  ]

  unfoldable pub enter_separately : ℕ → ℕ → Os (Unit {0})
  enter_separately host_uid host_gid = do
    either (libc s (unshare clone_newuser))
        (λ _. configure_current_process_user_namespace_mapping host_uid host_gid)
        (λ e.
          if is_retryable e then pure tt else fail (wrap_error (lit "unshare(CLONE_NEWUSER)") e))
    map_error (wrap_error (lit "unshare(CLONE_NEWNS)")) (libc s (unshare clone_newns))
    mark_mount_tree_private

  unfoldable pub enter_overlay_mount_namespace : ℕ → ℕ → Os (Unit {0})
  enter_overlay_mount_namespace host_uid host_gid =
      either (libc s (unshare (bit_or clone_newuser clone_newns)))
        (λ _.
          configure_current_process_user_namespace_mapping host_uid host_gid
          >> mark_mount_tree_private)
        (λ e.
          if is_retryable e
          then enter_separately host_uid host_gid
          else fail (wrap_error (lit "unshare(CLONE_NEWUSER|CLONE_NEWNS)") e))
