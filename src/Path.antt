-- ===== src/Path.antt =====
-- The functions of Go's `path/filepath` that the source calls, for Unix paths.
pub mod Elements
use disk_manager.Base.{
  Bool, not, Option, none, some, List, [], ◌∷◌, ◌==◌, ◌≡◌, refl, if◌then◌else◌, is_empty, keep_if,
}
use disk_manager.Text.{Text, codes, equals, has_prefix, split, join_with}

-- One path element on a stack of the elements kept, the last one first.
unfoldable pub step_clean : Bool → List Text → Text → List Text
step_clean rooted stack part =
    if is_empty part
    then stack
    else if equals part (codes ".")
    then stack
    else if not (equals part (codes ".."))
    then part ∷ stack
    else elim stack [
      | [] ↦ if rooted then [] else part ∷ []
      | top ∷ rest ↦ if equals top (codes "..") then part ∷ top ∷ rest else rest
    ]

unfoldable pub clean_parts : Bool → List Text → List Text → List Text
clean_parts rooted stack [] = stack
clean_parts rooted stack (part ∷ parts) = clean_parts rooted (step_clean rooted stack part) parts

abbrev reverse_onto : List Text → List Text → List Text
reverse_onto out [] = out
reverse_onto out (p ∷ ps) = reverse_onto (p ∷ out) ps

-- `filepath.Clean`
unfoldable pub clean : Text → Text
clean path =
    let rooted = has_prefix path (codes "/") in
    let kept =
      join_with (codes "/") (reverse_onto [] (clean_parts rooted [] (split path (codes "/")))) in
    if rooted then b'/' ∷ kept else if is_empty kept then codes "." else kept

-- `filepath.Join`
unfoldable pub join : List Text → Text
join parts =
    let named = keep_if (λ p. not (is_empty p)) parts in
    elim named [ [] ↦ [] | p ∷ ps ↦ clean (join_with (codes "/") (p ∷ ps)) ]

-- What follows the last slash.
unfoldable pub after_slash : Text → Option Text
after_slash [] = none
after_slash (c ∷ s) =
    let rest = after_slash s in
    elim rest [ some r ↦ some r | none ↦ if c == b'/' then some s else none ]

unfoldable pub strip_slashes : Text → Text
strip_slashes [] = []
strip_slashes (c ∷ s) =
    let rest = strip_slashes s in
    elim rest [ [] ↦ if c == b'/' then [] else c ∷ [] | d ∷ r ↦ c ∷ d ∷ r ]

-- What follows the last slash, or the whole text.
unfoldable pub last_element : Text → Text
last_element s = elim (after_slash s) [ none ↦ s | some r ↦ r ]

-- `filepath.Base`
unfoldable pub base : Text → Text
base [] = codes "."
base (c ∷ s) =
    let last = last_element (strip_slashes (c ∷ s)) in if is_empty last then codes "/" else last
