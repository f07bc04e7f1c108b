-- ===== src/CapFs.antt =====
-- cap_fs.rs: whether a path exists or is a directory, asked through a directory handle. The `Dir` of
-- the crate cap_std and the process's working directory are the record `FileSystem`, which answers
-- for one state of the file system.
pub mod Lookup
use procwarden.Common.{
  ℕ, Bool, true, false, Option, none, some, Text, Result, ok, err, IoError, ◌>>=◌, is_ok, unwrap_or,
  if◌then◌else◌,
}
use procwarden.Paths.{PathBuf, is_absolute, join_path, parent, file_name}

pub record FileSystem : Type 0 where
  pub current_dir : Result IoError PathBuf
  -- `Dir::open_ambient_dir`, `Dir::try_exists`, and `is_dir` of `Dir::metadata`.
  pub open_ambient_dir : PathBuf → Result IoError ℕ
  pub try_exists : ℕ → Text → Result IoError Bool
  pub metadata_is_dir : ℕ → Text → Result IoError Bool

module _ (fs : FileSystem) where
  unfoldable pub absolute_path : PathBuf → Result IoError PathBuf
  absolute_path path =
      if is_absolute path then ok path else (fs.current_dir >>= λ dir. ok (join_path dir path))

  unfoldable pub parent_and_leaf : PathBuf → Option (PathBuf × Text)
  parent_and_leaf path = elim (parent path) [
    | none ↦ none
    | some dir ↦ elim (file_name path) [ none ↦ none | some leaf ↦ some (dir, leaf) ]
  ]

  -- Both tests ask the directory that holds the path, or open the path itself when it has no name.
  abbrev ask : (ℕ → Text → Result IoError Bool) → PathBuf → Bool
  ask query absolute = elim (parent_and_leaf absolute) [
    | none ↦ is_ok (fs.open_ambient_dir absolute)
    | some (dir, leaf) ↦ elim (fs.open_ambient_dir dir) [
      | err e ↦ false
      | ok handle ↦ unwrap_or (query handle leaf) false
    ]
  ]

  unfoldable pub path_exists : PathBuf → Bool
  unfolding absolute_path parent_and_leaf
  path_exists path = elim (absolute_path path) [
    | err e ↦ false
    | ok absolute ↦ ask fs.try_exists absolute
  ]

  unfoldable pub is_dir : PathBuf → Bool
  unfolding absolute_path parent_and_leaf
  is_dir path = elim (absolute_path path) [
    | err e ↦ false
    | ok absolute ↦ ask fs.metadata_is_dir absolute
  ]
