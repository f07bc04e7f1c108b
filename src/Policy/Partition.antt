-- ===== src/Policy/Partition.antt =====
-- The three path lists split the permissions; the readable ones are two of the three.
use mathlib.Core.List.{Perm, perm_middle}
use mathlib.Core.List.Perm
use procwarden.Common.{Bool, ◌≡◌, refl, ◌||◌, List, [], ◌∷◌, ◌++◌, map, keep, some_of, arith}
use procwarden.Paths.{PathBuf}
use procwarden.Policy.{
  SandboxAccess, no_access, read_only, read_write, SandboxPathPermission, SandboxPolicy,
  is_read_only, is_read_write, is_no_access, is_readable, collect_paths, read_only_paths,
  read_write_paths, readable_paths, denied_paths, writable_paths,
}

abbrev select : (SandboxAccess → Bool) → List SandboxPathPermission → List PathBuf
select f ps = map (λ p. p.path) (keep (λ p. f p.access) ps)

abbrev paths_of : List SandboxPathPermission → List PathBuf
paths_of ps = map (λ p. p.path) ps

abbrev lists_of : List SandboxPathPermission → List PathBuf
lists_of ps = select is_read_only ps ++ (select is_read_write ps ++ select is_no_access ps)

select-perm-step :
    (a : SandboxAccess) (x : PathBuf) (ps : List SandboxPathPermission)
    → Perm (lists_of ps) (paths_of ps)
    → Perm (lists_of (record { path = x; access = a } ∷ ps)) (x ∷ paths_of ps)
select-perm-step read_only x ps h = Perm.cons x h
select-perm-step read_write x ps h =
    Perm.trans (perm_middle (select is_read_only ps) _) (Perm.cons x h)
select-perm-step no_access x ps h =
    let ro = select is_read_only ps in
    let rw_ = select is_read_write ps in
    Perm.trans (Perm.append (Perm.refl ro) (perm_middle rw_ (select is_no_access ps)))
      (Perm.trans (perm_middle ro _) (Perm.cons x h))

select-perm : (ps : List SandboxPathPermission) → Perm (lists_of ps) (paths_of ps)
select-perm [] = Perm.refl []
select-perm (p ∷ ps) = select-perm-step p.access p.path ps (select-perm ps)

readable-split :
    (ps : List SandboxPathPermission) (f : PathBuf → Bool)
    → some_of f (select is_readable ps)
      ≡ (some_of f (select is_read_only ps) || some_of f (select is_read_write ps))
readable-split [] f = refl
readable-split (p ∷ ps) f = ground (arith, readable-split ps f)

-- Each permission's path stands in exactly one of the three lists, as often as in the policy.
pub paths-perm :
    (policy : SandboxPolicy)
    → Perm
        (read_only_paths policy ++ (read_write_paths policy ++ denied_paths policy))
        (map (λ p. p.path) policy.path_permissions)
unfolding collect_paths read_only_paths read_write_paths denied_paths
paths-perm policy = select-perm policy.path_permissions

-- A path is readable exactly if it is listed as read-only or as read-write.
readable_paths-split :
    (policy : SandboxPolicy) (f : PathBuf → Bool)
    → some_of f (readable_paths policy)
      ≡ (some_of f (read_only_paths policy) || some_of f (writable_paths policy))
unfolding collect_paths readable_paths read_only_paths read_write_paths writable_paths
readable_paths-split policy f = readable-split policy.path_permissions f
