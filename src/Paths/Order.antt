-- ===== src/Paths/Order.antt =====
-- The order of paths is total, and two paths compare equal exactly if their components are.
use Prim.Native.Nat.{Ordering}
use procwarden.Common.{◌≡◌, ◌↔◌, refl, List, [], ◌∷◌, Text, arith}
use procwarden.Paths.{
  Component, root_dir, cur_dir, parent_dir, normal, compare_texts, compare_component,
  compare_components, PathBuf, compare_paths, components,
}

compare_texts_eq : (s t : Text) → compare_texts s t ≡ Ordering.eq → s ≡ t
unfolding compare_texts
compare_texts_eq [] [] h = refl
compare_texts_eq [] (d ∷ t) h = ground arith
compare_texts_eq (c ∷ s) [] h = ground arith
compare_texts_eq (c ∷ s) (d ∷ t) h = ground (arith, compare_texts_eq s t)

compare_texts_refl : (s : Text) → compare_texts s s ≡ Ordering.eq
unfolding compare_texts
compare_texts_refl [] = refl
compare_texts_refl (c ∷ s) = ground (arith, compare_texts_refl s)

compare_texts_gt : (s t : Text) → compare_texts s t ≡ Ordering.gt → compare_texts t s ≡ Ordering.lt
unfolding compare_texts
compare_texts_gt [] [] h = ground arith
compare_texts_gt [] (d ∷ t) h = ground arith
compare_texts_gt (c ∷ s) [] h = refl
compare_texts_gt (c ∷ s) (d ∷ t) h = ground (arith, compare_texts_gt s t)

compare_component_eq : (c d : Component) → compare_component c d ≡ Ordering.eq → c ≡ d
unfolding compare_component
compare_component_eq (normal s) (normal t) h = ground (arith, compare_texts_eq s t)
compare_component_eq root_dir d h = ground arith
compare_component_eq cur_dir d h = ground arith
compare_component_eq parent_dir d h = ground arith
compare_component_eq (normal s) d h = ground arith

compare_component_refl : (c : Component) → compare_component c c ≡ Ordering.eq
unfolding compare_component
compare_component_refl (normal s) = compare_texts_refl s
compare_component_refl c = refl

compare_component_gt :
    (c d : Component) → compare_component c d ≡ Ordering.gt → compare_component d c ≡ Ordering.lt
unfolding compare_component
compare_component_gt (normal s) (normal t) h = compare_texts_gt s t h
compare_component_gt root_dir d h = ground arith
compare_component_gt cur_dir d h = ground arith
compare_component_gt parent_dir d h = ground arith
compare_component_gt (normal s) d h = ground arith

pub compare_components_eq :
    (cs ds : List Component) → compare_components cs ds ≡ Ordering.eq → cs ≡ ds
unfolding compare_components
compare_components_eq [] [] h = refl
compare_components_eq [] (d ∷ ds) h = ground arith
compare_components_eq (c ∷ cs) [] h = ground arith
compare_components_eq (c ∷ cs) (d ∷ ds) h =
    ground (arith, compare_component_eq c d, compare_components_eq cs ds)

pub compare_components_refl : (cs : List Component) → compare_components cs cs ≡ Ordering.eq
unfolding compare_components
compare_components_refl [] = refl
compare_components_refl (c ∷ cs) =
    ground (arith, compare_component_refl c, compare_components_refl cs)

compare_components_gt :
    (cs ds : List Component)
    → compare_components cs ds ≡ Ordering.gt
    → compare_components ds cs ≡ Ordering.lt
unfolding compare_components
compare_components_gt [] [] h = ground arith
compare_components_gt [] (d ∷ ds) h = ground arith
compare_components_gt (c ∷ cs) [] h = refl
compare_components_gt (c ∷ cs) (d ∷ ds) h = ground (
  arith,
  compare_component_gt c d,
  compare_component_eq c d,
  compare_component_refl d,
  compare_components_gt cs ds,
)

-- Two paths compare equal exactly if they have the same components.
pub compare_paths_eq_iff :
    (p q : PathBuf) → (compare_paths p q ≡ Ordering.eq) ↔ (components p ≡ components q)
unfolding compare_paths
compare_paths_eq_iff p q = (
  compare_components_eq (components p) (components q),
  λ e. rw e (compare_components_refl (components q)),
)

pub compare_paths_gt :
    (p q : PathBuf) → compare_paths p q ≡ Ordering.gt → compare_paths q p ≡ Ordering.lt
unfolding compare_paths
compare_paths_gt p q = compare_components_gt (components p) (components q)
