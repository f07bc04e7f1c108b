-- ===== src/CapFs/Lookup.antt =====
-- What the two lookups promise of one another.
use procwarden.Common.{ℕ, true, ◌≡◌, Text, ok, arith}
use procwarden.Paths.{PathBuf}
use procwarden.CapFs.{FileSystem, path_exists, is_dir}

-- What is a directory exists, if a file whose metadata can be read exists.
is_dir-path_exists :
    (fs : FileSystem) (path : PathBuf)
    → ((handle : ℕ) (leaf : Text)
        → fs.metadata_is_dir handle leaf ≡ ok true
        → fs.try_exists handle leaf ≡ ok true)
    → is_dir fs path ≡ true
    → path_exists fs path ≡ true
unfolding is_dir path_exists
is_dir-path_exists fs path agree h = grind (arith, agree)
