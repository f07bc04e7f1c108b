-- ===== src/Macos/Dedupe.antt =====
-- Dropping repeated paths drops no text: what some path's text satisfies, some kept path's does.
use mathlib.Core.List.{foldl}
use procwarden.Common.{
  Bool, true, ◌||◌, ◌≡◌, refl, ◌∙◌, List, [], ◌∷◌, Text, text_eq, text_eq_iff, some_of,
  some_of-append, arith,
}
use procwarden.Paths.{PathBuf, to_string_lossy, ancestors_above}
use procwarden.Macos.Profile.{Seen, push_new, dedupe_paths, readable_path_ancestors}

module _ (g : Text → Bool) where
  abbrev on_path : PathBuf → Bool
  on_path p = g (to_string_lossy p)

  some_of-seen :
      (key : Text) (seen : List Text)
      → some_of (text_eq key) seen ≡ true
      → (g key || some_of g seen) ≡ some_of g seen
  some_of-seen key [] h = ground arith
  some_of-seen key (k ∷ seen) h = ground (arith, text_eq_iff key k, some_of-seen key seen)

  -- The keys seen are those of the paths kept.
  record IsSynced (st : Seen) : Type 0 where
    synced : some_of g st.0 ≡ some_of on_path st.1

  push_new-IsSynced : (st : Seen) (p : PathBuf) → IsSynced st → IsSynced (push_new st p)
  unfolding push_new
  push_new-IsSynced (seen, kept) p s = record {
    synced = ground (arith, some_of-append on_path kept (p ∷ []), s.synced);
  }

  some_of-push_new :
      (st : Seen) (p : PathBuf)
      → IsSynced st
      → some_of on_path (push_new st p).1 ≡ (some_of on_path st.1 || on_path p)
  unfolding push_new
  some_of-push_new (seen, kept) p s =
      ground (
        arith,
        some_of-append on_path kept (p ∷ []),
        s.synced,
        some_of-seen (to_string_lossy p) seen,
      )

  foldl-push_new-IsSynced :
      (st : Seen) (ps : List PathBuf) → IsSynced st → IsSynced (foldl push_new st ps)
  foldl-push_new-IsSynced st [] s = s
  foldl-push_new-IsSynced st (p ∷ ps) s =
      foldl-push_new-IsSynced (push_new st p) ps (push_new-IsSynced st p s)

  some_of-foldl-push_new :
      (st : Seen) (ps : List PathBuf)
      → IsSynced st
      → some_of on_path (foldl push_new st ps).1 ≡ (some_of on_path st.1 || some_of on_path ps)
  some_of-foldl-push_new st [] s = ground arith
  some_of-foldl-push_new st (p ∷ ps) s =
      some_of-foldl-push_new (push_new st p) ps (push_new-IsSynced st p s)
      ∙ ground (arith, some_of-push_new st p s)

  pub some_of-dedupe_paths :
      (ps : List PathBuf) → some_of on_path (dedupe_paths ps) ≡ some_of on_path ps
  unfolding dedupe_paths
  some_of-dedupe_paths ps = some_of-foldl-push_new ([], []) ps (record { synced = refl })

  some_of-ancestors_fold :
      (st : Seen) (ps : List PathBuf)
      → IsSynced st
      → some_of on_path (foldl (λ seen path. foldl push_new seen (ancestors_above path)) st ps).1
        ≡ (some_of on_path st.1 || some_of (λ p. some_of on_path (ancestors_above p)) ps)
  some_of-ancestors_fold st [] s = ground arith
  some_of-ancestors_fold st (p ∷ ps) s =
      some_of-ancestors_fold (foldl push_new st (ancestors_above p)) ps
        (foldl-push_new-IsSynced st (ancestors_above p) s)
      ∙ ground (arith, some_of-foldl-push_new st (ancestors_above p) s)

  pub some_of-readable_path_ancestors :
      (ps : List PathBuf)
      → some_of on_path (readable_path_ancestors ps)
        ≡ some_of (λ p. some_of on_path (ancestors_above p)) ps
  unfolding readable_path_ancestors
  some_of-readable_path_ancestors ps = some_of-ancestors_fold ([], []) ps (record { synced = refl })
