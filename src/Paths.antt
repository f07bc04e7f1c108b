-- ===== src/Paths.antt =====
-- `std::path` on Unix, for every source file that handles paths: a path is its bytes, and its
-- components, parent, ancestors and order are read off the segments between the slashes.
pub mod Prefix
pub mod Order
use procwarden.Common.{
  ℕ, ◌+◌, Bool, true, false, ◌&&◌, ◌||◌, not, Option, none, some, List, [], ◌∷◌, ◌++◌, map, reverse,
  Text, lit, text_eq, join_with, from_utf8_lossy, is_empty, if◌then◌else◌, ◌==◌,
}
use Prim.Native.Nat.{compare, Ordering}

abbrev pub PathBuf : Type 0
PathBuf = Text

pub data Component : Type 0 where
  root_dir cur_dir parent_dir : Component
  normal : Text → Component

abbrev pub slash : ℕ
slash = b'/'

abbrev pub dot : ℕ
dot = b'.'

-- The segments between the slashes; a text with no slash is one segment.
split_onto : Text → Text → List Text
split_onto acc [] = reverse acc ∷ []
split_onto acc (c ∷ s) =
    let next = split_onto (if c == slash then [] else c ∷ acc) s in
    if c == slash then reverse acc ∷ next else next

unfoldable pub segments : Text → List Text
unfolding split_onto
segments = split_onto []

-- `parse_single_component`: an empty segment and `.` are no component.
unfoldable pub parse_segment : Text → Option Component
unfolding text_eq
parse_segment s =
    if text_eq s [] || text_eq s (dot ∷ [])
    then none
    else if text_eq s (dot ∷ dot ∷ [])
    then some parent_dir
    else some (normal s)

unfoldable pub body_components : List Text → List Component
unfolding parse_segment
body_components [] = []
body_components (s ∷ ss) =
    let rest = body_components ss in elim (parse_segment s) [ none ↦ rest | some c ↦ c ∷ rest ]

-- What stands before the body: the root, a leading `.`, or nothing; and the body's segments.
unfoldable pub split_path : PathBuf → Text × List Text
unfolding segments
split_path [] = ([], [])
split_path (c ∷ p) = if c == slash then (slash ∷ [], segments p) else elim (segments (c ∷ p)) [
  | [] ↦ ([], [])
  | s ∷ ss ↦ if text_eq s (dot ∷ []) then (dot ∷ [], [] ∷ ss) else ([], s ∷ ss)
]

front_components : Text → List Component
front_components [] = []
front_components (c ∷ before) = (if c == slash then root_dir else cur_dir) ∷ []

-- `Path::components`.
unfoldable pub components : PathBuf → List Component
unfolding split_path front_components body_components
components p = let (before, body) = split_path p in front_components before ++ body_components body

-- `Path::is_absolute`.
abbrev pub is_absolute : PathBuf → Bool
is_absolute [] = false
is_absolute (c ∷ p) = c == slash

ends_with_slash : PathBuf → Bool
ends_with_slash [] = false
ends_with_slash (c ∷ []) = c == slash
ends_with_slash (c ∷ d ∷ p) = ends_with_slash (d ∷ p)

-- `PathBuf::push` and `Path::join`: an absolute argument replaces the path.
unfoldable pub join_path : PathBuf → PathBuf → PathBuf
unfolding ends_with_slash
join_path p q =
    if is_absolute q
    then q
    else if is_empty p || ends_with_slash p
    then p ++ q
    else p ++ (slash ∷ q)

is_void : Text → Bool
unfolding parse_segment
is_void s = elim (parse_segment s) [ none ↦ true | some c ↦ false ]

-- The segments backwards, without those at the end that are no component.
drop_voids : List Text → List Text
unfolding is_void
drop_voids [] = []
drop_voids (s ∷ ss) = let rest = drop_voids ss in if is_void s then rest else s ∷ ss

-- The proper ancestors, nearest first: each real segment is dropped in turn.
proper_ancestors : Text → List Text → List PathBuf
unfolding drop_voids join_with
proper_ancestors before [] = if text_eq before (dot ∷ []) then [] ∷ [] else []
proper_ancestors before (s ∷ ss) =
    let rest = proper_ancestors before ss in
    if is_void s then rest else (before ++ join_with (slash ∷ []) (reverse (drop_voids ss))) ∷ rest

-- `path.ancestors().skip(1)`.
unfoldable pub ancestors_above : PathBuf → List PathBuf
unfolding split_path proper_ancestors
ancestors_above p = let (before, body) = split_path p in proper_ancestors before (reverse body)

-- `Path::parent`.
unfoldable pub parent : PathBuf → Option PathBuf
unfolding ancestors_above
parent p = elim (ancestors_above p) [ [] ↦ none | a ∷ rest ↦ some a ]

last_component : List Component → Option Component
last_component [] = none
last_component (c ∷ []) = some c
last_component (c ∷ d ∷ cs) = last_component (d ∷ cs)

-- `Path::file_name`: the last component, if it is a name.
unfoldable pub file_name : PathBuf → Option Text
unfolding components last_component
file_name p = elim (last_component (components p)) [ some (normal s) ↦ some s | _ ↦ none ]

pub component_eq : Component → Component → Bool
unfolding text_eq
component_eq root_dir root_dir = true
component_eq cur_dir cur_dir = true
component_eq parent_dir parent_dir = true
component_eq (normal s) (normal t) = text_eq s t
component_eq _ _ = false

unfoldable pub components_start_with : List Component → List Component → Bool
unfolding component_eq
components_start_with cs [] = true
components_start_with [] (d ∷ ds) = false
components_start_with (c ∷ cs) (d ∷ ds) = component_eq c d && components_start_with cs ds

-- `Path::starts_with`: by whole components.
unfoldable pub starts_with : PathBuf → PathBuf → Bool
unfolding components components_start_with
starts_with p q = components_start_with (components p) (components q)

-- The derived order of components, and that of paths: component by component.
pub compare_texts : Text → Text → Ordering
compare_texts [] [] = Ordering.eq
compare_texts [] (d ∷ t) = Ordering.lt
compare_texts (c ∷ s) [] = Ordering.gt
compare_texts (c ∷ s) (d ∷ t) =
    let rest = compare_texts s t in
    elim (compare c d) [
      | Ordering.lt ↦ Ordering.lt
      | Ordering.gt ↦ Ordering.gt
      | Ordering.eq ↦ rest
    ]

rank : Component → ℕ
rank root_dir = 1
rank cur_dir = 2
rank parent_dir = 3
rank (normal s) = 4

name_of : Component → Text
name_of (normal s) = s
name_of _ = []

pub compare_component : Component → Component → Ordering
unfolding rank name_of compare_texts
compare_component c d = elim (compare (rank c) (rank d)) [
  | Ordering.lt ↦ Ordering.lt
  | Ordering.gt ↦ Ordering.gt
  | Ordering.eq ↦ compare_texts (name_of c) (name_of d)
]

unfoldable pub compare_components : List Component → List Component → Ordering
unfolding compare_component
compare_components [] [] = Ordering.eq
compare_components [] (d ∷ ds) = Ordering.lt
compare_components (c ∷ cs) [] = Ordering.gt
compare_components (c ∷ cs) (d ∷ ds) =
    let rest = compare_components cs ds in
    elim (compare_component c d) [
      | Ordering.lt ↦ Ordering.lt
      | Ordering.gt ↦ Ordering.gt
      | Ordering.eq ↦ rest
    ]

-- `Ord` of paths.
unfoldable pub compare_paths : PathBuf → PathBuf → Ordering
unfolding components compare_components
compare_paths p q = compare_components (components p) (components q)

-- `to_string_lossy` and `display`.
unfoldable pub to_string_lossy : PathBuf → Text
to_string_lossy = from_utf8_lossy

abbrev pub display : PathBuf → Text
display = to_string_lossy
