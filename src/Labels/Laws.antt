-- ===== src/Labels/Laws.antt =====
-- The laws of the string maps.
use disk_manager.Base.{◌≡◌, refl, true, some, [], ◌∷◌, arith, if◌then◌else◌, Option-cases, inl, inr}
use disk_manager.Text.{Text, equals}
use disk_manager.Text.Prefix.{equals_iff, equals_self}
use disk_manager.Labels.{Labels, lookup, get, insert, holds}

pub get-lookup : (k v : Text) (m : Labels) → lookup k m ≡ some v → get k m ≡ v
get-lookup k v m e = ground arith

pub lookup-insert :
    (k j v : Text) (m : Labels)
    → lookup j (insert k v m) ≡ (if equals k j then some v else lookup j m)
unfolding lookup insert
lookup-insert k j v [] = refl
lookup-insert k j v ((i, w) ∷ m) =
    ground (arith, equals_iff k j, equals_iff i k, equals_iff i j, lookup-insert k j v m)

pub holds-insert_self : (k v : Text) (m : Labels) → holds k v (insert k v m) ≡ true
holds-insert_self k v m = ground (arith, lookup-insert k k v m, equals_self k, equals_self v)

pub holds-lookup : (k v : Text) (m : Labels) → holds k v m ≡ true → lookup k m ≡ some v
holds-lookup k v m h = elim (Option-cases (lookup k m)) [
  | inl e ↦ ground arith
  | inr (w, e) ↦ ground (arith, equals_iff w v)
]
