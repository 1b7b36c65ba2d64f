-- ===== src/Generated/Cache.antt =====
-- pkg/generated/controllers/longhorn.io/v1beta1/blockdevice.go: the cache, which reads the informer's
-- indexer, and the queue.
use disk_manager.Base.{ℕ, Option, none, some, List, [], ◌∷◌, ◌++◌}
use disk_manager.Text.{Text, codes}
use disk_manager.Cluster.{ApiError, Reply}
use disk_manager.Effects.{M, done, panicked}
use disk_manager.Generated.{Resource, Machinery, Lasso}

-- The key of an object in the indexer and in the queue.
abbrev pub object_key : Text → Text → Text
object_key namespace name = namespace ++ (codes "/" ++ name)

-- The loop of `GetByIndex`
unfoldable pub append_all : {A : Type 0} → List A → List A → List A
append_all result [] = result
append_all result (obj ∷ objs) = append_all (result ++ obj ∷ []) objs

module _ (R : Resource) (A : Machinery) (L : Lasso R A) (resource : Text) where
  -- What `Get` makes of the indexer's answer.
  abbrev pub found : Text → Option R.Obj → Option ApiError → Reply (Option R.Obj)
  found name obj (some e) = record { value = none; error = some e }
  found name none none = record { value = none; error = some (A.new_not_found resource name) }
  found name (some obj) none = record { value = some obj; error = none }

  -- `Get`
  unfoldable pub cache_get : Text → Text → L.State → Reply (Option R.Obj) × L.State
  cache_get namespace name s =
      let ((obj, err), s') = L.get_by_key (object_key namespace name) s in (found name obj err, s')

  -- `List`: each object that the function is called with is appended to the result.
  unfoldable pub cache_list : Text → A.Selector → L.State → Reply (List R.Obj) × L.State
  cache_list namespace selector s =
      let ((objs, err), s') = L.list_all_by_namespace namespace selector s in
      (record { value = append_all [] objs; error = err }, s')

  -- `GetByIndex`
  unfoldable pub get_by_index : Text → Text → L.State → Reply (List R.Obj) × L.State
  get_by_index index_name key s =
      let ((objs, err), s') = L.by_index index_name key s in
      (
        elim err [
          | some e ↦ record { value = []; error = some e }
          | none ↦ record { value = append_all [] objs; error = none }
        ],
        s',
      )

  -- `AddIndexer`: `utilruntime.Must` panics on an error.
  unfoldable pub add_indexer : Text → (R.Obj → List Text × Option ApiError) → M L.State (Unit {0})
  add_indexer index_name indexer s =
      let (err, s') = L.add_indexers index_name indexer s in
      elim err [ some e ↦ panicked | none ↦ done (tt, s') ]

  -- `Enqueue`
  unfoldable pub enqueue : Text → Text → L.State → L.State
  enqueue namespace name s = L.enqueue namespace name s

  -- `EnqueueAfter`, by nanoseconds
  unfoldable pub enqueue_after : Text → Text → ℕ → L.State → L.State
  enqueue_after namespace name duration s = L.enqueue_after namespace name duration s
