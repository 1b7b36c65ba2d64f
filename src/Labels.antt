-- ===== src/Labels.antt =====
-- Go's `map[string]string` as an association list, read through `lookup`.
pub mod Laws
use disk_manager.Base.{Bool, true, false, ◌&&◌, Option, none, some, List, [], ◌∷◌, if◌then◌else◌}
use disk_manager.Text.{Text, equals}

abbrev pub Labels : Type 0
Labels = List (Text × Text)

-- `v, ok := m[k]`
unfoldable pub lookup : Text → Labels → Option Text
lookup k [] = none
lookup k ((j, v) ∷ m) = let rest = lookup k m in if equals j k then some v else rest

-- `m[k]`, the empty text where the key is missing
abbrev pub get : Text → Labels → Text
get k m = elim (lookup k m) [ none ↦ [] | some v ↦ v ]

-- `m[k] = v`
unfoldable pub insert : Text → Text → Labels → Labels
insert k v [] = (k, v) ∷ []
insert k v ((j, w) ∷ m) =
    let rest = insert k v m in if equals j k then (k, v) ∷ m else (j, w) ∷ rest

-- `m[k]` is there and is `v`
abbrev pub holds : Text → Text → Labels → Bool
holds k v m = elim (lookup k m) [ none ↦ false | some w ↦ equals w v ]

-- Every entry of the set is in the map: how `labels.SelectorFromSet` selects.
unfoldable pub includes : Labels → Labels → Bool
includes [] m = true
includes ((k, v) ∷ set) m = holds k v m && includes set m

-- `reflect.DeepEqual` of two maps
unfoldable pub same : Labels → Labels → Bool
same m n = includes m n && includes n m
