-- ===== src/Generated.antt =====
-- pkg/generated/controllers/longhorn.io: the generated controllers of the two resources, over what
-- they call: the client, the informer's indexer and the queue of lasso and client-go, and the options
-- of apimachinery. A deep copy of a value is the value. The informer of a resource has objects of its
-- own type only, so the type assertions of the cache succeed.
pub mod Cache
pub mod Client
pub mod Factory
pub mod Filled
pub mod Handlers
pub mod Node
pub mod Objects
pub mod Status
pub mod Version
use disk_manager.Base.{ℕ, Option, List}
use disk_manager.Text.{Text}
use disk_manager.Labels.{Labels}
use disk_manager.Cluster.{ApiError}

-- A resource: its struct, its list struct, and the fields that the generated code reads. `empty` and
-- `empty_list` are the zero values.
pub record Resource : Type 1 where
  pub Obj : Type 0
  pub ObjList : Type 0
  pub namespace : Obj → Text
  pub resource_version : Obj → Text
  pub items : ObjList → List Obj
  pub empty : Obj
  pub empty_list : ObjList

-- The types of apimachinery and client-go that are passed through, and their zero values.
pub record Machinery : Type 1 where
  pub CreateOptions : Type 0
  pub UpdateOptions : Type 0
  pub DeleteOptions : Type 0
  pub GetOptions : Type 0
  pub ListOptions : Type 0
  pub PatchOptions : Type 0
  pub PatchType : Type 0
  pub Watch : Type 0
  pub Selector : Type 0
  pub create_options : CreateOptions
  pub update_options : UpdateOptions
  pub delete_options : DeleteOptions
  pub list_options : ListOptions
  pub patch_options : PatchOptions
  pub selector_from_set : Labels → Selector
  -- `errors.NewNotFound`, by the name of the resource and that of the object
  pub new_not_found : Text → Text → ApiError

-- A call of lasso's client, of the indexer or of the queue, in the state that they share. A call that
-- decodes into a result is given the result to fill.
pub record Lasso (R : Resource) (A : Machinery) : Type 1 where
  pub State : Type 0
  pub create : Text → R.Obj → R.Obj → A.CreateOptions → State → (R.Obj × Option ApiError) × State
  pub update : Text → R.Obj → R.Obj → A.UpdateOptions → State → (R.Obj × Option ApiError) × State
  pub update_status :
      Text → R.Obj → R.Obj → A.UpdateOptions → State → (R.Obj × Option ApiError) × State
  pub delete : Text → Text → A.DeleteOptions → State → Option ApiError × State
  pub get : Text → Text → R.Obj → A.GetOptions → State → (R.Obj × Option ApiError) × State
  pub list : Text → R.ObjList → A.ListOptions → State → (R.ObjList × Option ApiError) × State
  pub watch : Text → A.ListOptions → State → (A.Watch × Option ApiError) × State
  pub patch :
      Text
      → Text
      → A.PatchType
      → Text
      → R.Obj
      → A.PatchOptions
      → List Text
      → State
      → (R.Obj × Option ApiError) × State
  -- the object, if it exists, and the error
  pub get_by_key : Text → State → (Option R.Obj × Option ApiError) × State
  -- the objects that `ListAllByNamespace` calls its function with, in order
  pub list_all_by_namespace : Text → A.Selector → State → (List R.Obj × Option ApiError) × State
  pub by_index : Text → Text → State → (List R.Obj × Option ApiError) × State
  pub add_indexers : Text → (R.Obj → List Text × Option ApiError) → State → Option ApiError × State
  pub enqueue : Text → Text → State → State
  pub enqueue_after : Text → Text → ℕ → State → State
