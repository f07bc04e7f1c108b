-- ===== src/Linux/Namespace/Entry.antt =====
-- What a child that has entered its namespaces has done.
use procwarden.Common.{◌≡◌, refl, inl, inr, Result, ok, err, IoError, Bool-cases, some_of, ◌==◌}
use procwarden.Paths.{PathBuf}
use procwarden.Linux.Kernel.{Calls, Os, map_error}
use procwarden.Linux.Namespace.{c_path, with_c_path}

-- A path that was accepted is passed on as it is.
pub with_c_path_ok :
    (path : PathBuf) (f : PathBuf → Os (Unit {0})) (calls : Calls)
    → (with_c_path path f calls).0 ≡ ok tt
    → with_c_path path f calls ≡ f path calls
unfolding c_path
with_c_path_ok path f calls h = elim (Bool-cases (some_of (λ b. b == 0) path)) [
  | inl bad ↦ absurd (cc (rw (bad, with_c_path) at h))
  | inr good ↦ rw (good, with_c_path)
]

-- An action whose error is only reworded ends well exactly as before.
pub map_error_ok :
    (f : IoError → IoError) (m : Os (Unit {0})) (calls : Calls)
    → (map_error f m calls).0 ≡ ok tt
    → ((m calls).0 ≡ ok tt) × ((map_error f m calls).1 ≡ (m calls).1)
map_error_ok f m calls h = go (m calls).0 (m calls).1 h
  where
    go :
        (r : Result IoError (Unit {0})) (calls' : Calls)
        → (map_error f (λ _. (r, calls')) calls).0 ≡ ok tt
        → (r ≡ ok tt) × ((map_error f (λ _. (r, calls')) calls).1 ≡ calls')
    go (ok a) calls' h = (refl, refl)
    go (err e) calls' h = absurd (cc)
