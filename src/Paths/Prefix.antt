-- ===== src/Paths/Prefix.antt =====
-- `starts_with` is the prefix order of components.
use procwarden.Common.{◌≡◌, true, List, [], ◌∷◌, ◌++◌, ◌↔◌, refl, ap₂, arith, text_eq_iff}
use procwarden.Paths.{
  Component, root_dir, cur_dir, parent_dir, normal, components_start_with, component_eq,
}

pub component_eq_iff : (c d : Component) → (component_eq c d ≡ true) ↔ (c ≡ d)
unfolding component_eq
component_eq_iff (normal s) (normal t) = ground (arith, text_eq_iff s t)
component_eq_iff root_dir d = ground arith
component_eq_iff cur_dir d = ground arith
component_eq_iff parent_dir d = ground arith
component_eq_iff (normal s) d = ground arith

pub components_start_with_refl : (cs : List Component) → components_start_with cs cs ≡ true
unfolding components_start_with
components_start_with_refl [] = refl
components_start_with_refl (c ∷ cs) =
    ground (arith, component_eq_iff c c, components_start_with_refl cs)

pub components_start_with_trans :
    (as' bs cs : List Component)
    → components_start_with as' bs ≡ true
    → components_start_with bs cs ≡ true
    → components_start_with as' cs ≡ true
unfolding components_start_with
components_start_with_trans as' bs [] h k = refl
components_start_with_trans as' [] (c ∷ cs) h k = ground arith
components_start_with_trans [] (b ∷ bs) (c ∷ cs) h k = ground arith
components_start_with_trans (a ∷ as') (b ∷ bs) (c ∷ cs) h k = ground (
  arith,
  component_eq_iff a b,
  component_eq_iff b c,
  component_eq_iff a c,
  components_start_with_trans as' bs cs,
)

-- What stands after the prefix.
pub components_start_with-split :
    (cs ds : List Component)
    → components_start_with cs ds ≡ true
    → (rest : List Component) × (cs ≡ ds ++ rest)
unfolding components_start_with
components_start_with-split cs [] h = (cs, refl)
components_start_with-split [] (d ∷ ds) h = absurd (ground arith)
components_start_with-split (c ∷ cs) (d ∷ ds) h =
    let (rest, e) = components_start_with-split cs ds (ground arith) in
    (rest, ap₂ ◌∷◌ ((component_eq_iff c d).0 (ground arith)) e)

pub components_start_with-append :
    (ds rest : List Component) → components_start_with (ds ++ rest) ds ≡ true
unfolding components_start_with
components_start_with-append [] rest = refl
components_start_with-append (d ∷ ds) rest =
    ground (arith, component_eq_iff d d, components_start_with-append ds rest)
