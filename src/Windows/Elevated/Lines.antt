-- ===== src/Windows/Elevated/Lines.antt =====
-- The specification file, read back as the helper's script splits it.
use mathlib.Core.List.{append_assoc, append-nil}
use procwarden.Common.{
  ℕ, false, ◌&&◌, map, subst, Option, none, some, ◌≡◌, refl, sym, ◌∙◌, ap, List, [], ◌∷◌, ◌++◌,
  Text, some_of, join_with, lit, All, if◌then◌else◌, ◌==◌, arith,
}
use procwarden.Windows.Elevated.{
  ElevatedOpsSpec, spec_lines, line_feed, lines_text, serialize_acl_spec,
}

-- The lines of a text in which every line is ended.
pub read_lines : Text → Text → List Text
read_lines begun [] = []
read_lines begun (c ∷ s) =
    let next = read_lines [] s in
    let longer = read_lines (begun ++ (c ∷ [])) s in if c == line_feed then begun ∷ next else longer

abbrev pub IsLine : Text → Type 0
IsLine line = some_of (λ c. c == line_feed) line ≡ false

read_lines-line :
    (begun line rest : Text)
    → IsLine line
    → read_lines begun (line ++ (line_feed ∷ rest)) ≡ (begun ++ line) ∷ read_lines [] rest
unfolding read_lines
read_lines-line begun [] rest h = ap (λ l. l ∷ read_lines [] rest) (sym (append-nil begun))
read_lines-line begun (c ∷ line) rest h =
    ground (arith, read_lines-line (begun ++ (c ∷ [])) line rest, append_assoc begun (c ∷ []) line)

read_lines-lines_text :
    (lines : List Text) → All IsLine lines → read_lines [] (lines_text lines) ≡ lines
unfolding read_lines join_with
read_lines-lines_text [] h = refl
read_lines-lines_text (line ∷ []) h = read_lines-line [] line [] h.0
read_lines-lines_text (line ∷ next ∷ lines) h =
    rw (append_assoc line (line_feed ∷ join_with (line_feed ∷ []) (next ∷ lines)) (line_feed ∷ []))
      (read_lines-line [] line (lines_text (next ∷ lines)) h.0
        ∙ ap (λ l. line ∷ l) (read_lines-lines_text (next ∷ lines) h.1))

-- The path of a line with the tag.
after_tag : ℕ → ℕ → Text → Option Text
after_tag a b (c ∷ d ∷ t ∷ path) = if c == a && (d == b && t == 9) then some path else none
after_tag a b _ = none

abbrev with_path : Option Text → List Text → List Text
with_path none paths = paths
with_path (some path) paths = path ∷ paths

-- The paths of the lines with the tag, in order.
pub paths_tagged : ℕ → ℕ → List Text → List Text
unfolding after_tag
paths_tagged a b [] = []
paths_tagged a b (line ∷ lines) = with_path (after_tag a b line) (paths_tagged a b lines)

abbrev line_of : ℕ → ℕ → Text → Text
line_of c d path = c ∷ d ∷ 9 ∷ path

with_path-append :
    (o : Option Text) (xs ys : List Text) → with_path o xs ++ ys ≡ with_path o (xs ++ ys)
with_path-append none xs ys = refl
with_path-append (some path) xs ys = refl

paths_tagged-append :
    (a b : ℕ) (xs ys : List Text)
    → paths_tagged a b (xs ++ ys) ≡ paths_tagged a b xs ++ paths_tagged a b ys
unfolding paths_tagged
paths_tagged-append a b [] ys = refl
paths_tagged-append a b (x ∷ xs) ys =
    ap (with_path (after_tag a b x)) (paths_tagged-append a b xs ys)
    ∙ sym (with_path-append (after_tag a b x) (paths_tagged a b xs) (paths_tagged a b ys))

paths_tagged-own :
    (a b : ℕ) (paths : List Text) → paths_tagged a b (map (line_of a b) paths) ≡ paths
unfolding paths_tagged after_tag
paths_tagged-own a b [] = refl
paths_tagged-own a b (path ∷ paths) = ground (arith, paths_tagged-own a b paths)

paths_tagged-other :
    (a b c d : ℕ) (paths : List Text)
    → (c == a && d == b) ≡ false
    → paths_tagged a b (map (line_of c d) paths) ≡ []
unfolding paths_tagged after_tag
paths_tagged-other a b c d [] h = refl
paths_tagged-other a b c d (path ∷ paths) h = ground (arith, paths_tagged-other a b c d paths h)

map-IsLine :
    (c d : ℕ) (paths : List Text)
    → (c == line_feed) ≡ false
    → (d == line_feed) ≡ false
    → All IsLine paths
    → All IsLine (map (line_of c d) paths)
map-IsLine c d [] hc hd h = tt
map-IsLine c d (path ∷ paths) hc hd (first, rest) =
    (rw (hc, hd) first, map-IsLine c d paths hc hd rest)

append-IsLine : (xs ys : List Text) → All IsLine xs → All IsLine ys → All IsLine (xs ++ ys)
append-IsLine [] ys hx hy = hy
append-IsLine (x ∷ xs) ys (h, hx) hy = (h, append-IsLine xs ys hx hy)

module _ (spec : ElevatedOpsSpec) where
  abbrev dn : List Text
  dn = map (line_of b'd' b'n') spec.deny_readwrite_paths

  abbrev dw : List Text
  dw = map (line_of b'd' b'w') spec.deny_write_paths

  abbrev ro : List Text
  ro = map (line_of b'r' b'o') spec.allow_readonly_paths

  abbrev rw_lines : List Text
  rw_lines = map (line_of b'r' b'w') spec.allow_readwrite_paths

  spec_lines_lem : spec_lines spec ≡ dn ++ (dw ++ (ro ++ rw_lines))
  unfolding spec_lines lit
  spec_lines_lem = refl

  paths_tagged-lines :
      (a b : ℕ)
      → paths_tagged a b (spec_lines spec)
        ≡ paths_tagged a b dn
          ++ (paths_tagged a b dw ++ (paths_tagged a b ro ++ paths_tagged a b rw_lines))
  paths_tagged-lines a b =
      ap (paths_tagged a b) spec_lines_lem
      ∙ (paths_tagged-append a b dn _
          ∙ ap (λ l. paths_tagged a b dn ++ l)
              (paths_tagged-append a b dw _
                ∙ ap (λ l. paths_tagged a b dw ++ l) (paths_tagged-append a b ro _)))

-- The lines of the file that begin with dn and a tab name the paths denied to readers and writers,
-- those with dw the paths denied to writers, those with ro the paths allowed to readers and those
-- with rw the paths allowed to readers and writers, each list whole and in its order, if no path
-- has a line feed.
pub read_lines-serialize_acl_spec :
    (spec : ElevatedOpsSpec)
    → All IsLine spec.deny_readwrite_paths
    → All IsLine spec.deny_write_paths
    → All IsLine spec.allow_readonly_paths
    → All IsLine spec.allow_readwrite_paths
    → let lines = read_lines [] (serialize_acl_spec spec) in
      (paths_tagged b'd' b'n' lines ≡ spec.deny_readwrite_paths)
      × (paths_tagged b'd' b'w' lines ≡ spec.deny_write_paths)
      × (paths_tagged b'r' b'o' lines ≡ spec.allow_readonly_paths)
      × (paths_tagged b'r' b'w' lines ≡ spec.allow_readwrite_paths)
unfolding serialize_acl_spec
read_lines-serialize_acl_spec spec hdn hdw hro hrw =
    rw (read_lines-lines_text (spec_lines spec) lines-IsLine) (
      paths_tagged-lines spec _ _
          ∙ rw
              (
                paths_tagged-own,
                paths_tagged-other b'd' b'n' b'd' b'w' _ refl,
                paths_tagged-other b'd' b'n' b'r' b'o' _ refl,
                paths_tagged-other b'd' b'n' b'r' b'w' _ refl,
              )
              (append-nil _),
      paths_tagged-lines spec _ _
          ∙ rw
              (
                paths_tagged-own,
                paths_tagged-other b'd' b'w' b'd' b'n' _ refl,
                paths_tagged-other b'd' b'w' b'r' b'o' _ refl,
                paths_tagged-other b'd' b'w' b'r' b'w' _ refl,
              )
              (append-nil _),
      paths_tagged-lines spec _ _
          ∙ rw
              (
                paths_tagged-own,
                paths_tagged-other b'r' b'o' b'd' b'n' _ refl,
                paths_tagged-other b'r' b'o' b'd' b'w' _ refl,
                paths_tagged-other b'r' b'o' b'r' b'w' _ refl,
              )
              (append-nil _),
      paths_tagged-lines spec _ _
          ∙ rw
              (
                paths_tagged-own,
                paths_tagged-other b'r' b'w' b'd' b'n' _ refl,
                paths_tagged-other b'r' b'w' b'd' b'w' _ refl,
                paths_tagged-other b'r' b'w' b'r' b'o' _ refl,
              )
              refl,
    )
  where
    lines-IsLine : All IsLine (spec_lines spec)
    lines-IsLine = subst (All IsLine) (sym (spec_lines_lem spec)) (
        append-IsLine _ _ (map-IsLine _ _ _ refl refl hdn) (
          append-IsLine _ _ (map-IsLine _ _ _ refl refl hdw)
            (append-IsLine _ _ (map-IsLine _ _ _ refl refl hro) (map-IsLine _ _ _ refl refl hrw))))
