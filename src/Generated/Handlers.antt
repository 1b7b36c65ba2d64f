-- ===== src/Generated/Handlers.antt =====
-- pkg/generated/controllers/longhorn.io/v1beta1: how handlers of a resource become handlers of lasso,
-- and the construction of a controller.
pub mod Typed
use disk_manager.Base.{Bool, true, not, ◌&&◌, Option, none, some, if◌then◌else◌}
use disk_manager.Text.{Text, codes, equals}
use disk_manager.Cluster.{ApiError}
use disk_manager.Effects.{M, pure, panic, ◌>>=◌}
use disk_manager.Generated.{Resource}

-- `runtime.Object`: nil, a pointer to an object of the resource, which may be nil, or another type.
pub data Object (T : Type 0) : Type 0 where
  nil : Object T
  pointer : Option T → Object T
  another : Object T

-- What a handler or an updater returns: an object and an error.
abbrev pub Result : Type 0 → Type 0
Result T = T × Option ApiError

-- The nil check before a pointer becomes an interface.
abbrev pub as_object : {T : Type 0} → Option T → Object T
as_object none = nil
as_object (some v) = pointer (some v)

-- `if newObj != nil { copyObj = newObj }`
abbrev pub new_or : {T : Type 0} → Option T → T → T
new_or none obj = obj
new_or (some new_obj) obj = new_obj

-- `BlockDeviceHandler`
abbrev pub Handler : Type 0 → Type 0 → Type 0
Handler T S = Text → Option T → M S (Result (Option T))

-- `generic.Handler`
abbrev pub GenericHandler : Type 0 → Type 0 → Type 0
GenericHandler T S = Text → Object T → M S (Result (Object T))

module _ {T S : Type 0} where
  -- `FromBlockDeviceHandlerToHandler`: the assertion of another type panics.
  unfoldable pub from_handler_to_handler : Handler T S → GenericHandler T S
  from_handler_to_handler sync key another = panic
  from_handler_to_handler sync key nil = sync key none >>= λ r. pure (as_object r.0, r.1)
  from_handler_to_handler sync key (pointer v) = sync key v >>= λ r. pure (as_object r.0, r.1)

  -- `Updater`: an assertion on nil panics, and so does `Update` of a nil pointer.
  unfoldable pub updater : (T → M S (Result (Option T))) → Object T → M S (Result (Object T))
  updater update nil = panic
  updater update another = panic
  updater update (pointer none) = panic
  updater update (pointer (some obj)) = update obj >>= λ r. pure (as_object r.0, r.1)

module _ (R : Resource) {S : Type 0} (semantic_equal : R.Obj → R.Obj → Bool) where
  -- `UpdateBlockDeviceDeepCopyOnChange`, by the client's `Update`. The handler is given a pointer to the
  -- copy: it returns the copy as it leaves it, with its result.
  unfoldable pub update_deep_copy_on_change :
      (R.Obj → M S (Result R.Obj))
      → Option R.Obj
      → (R.Obj → M S (R.Obj × Result (Option R.Obj)))
      → M S (Result (Option R.Obj))
  update_deep_copy_on_change update none handler = pure (none, none)
  update_deep_copy_on_change update (some obj) handler = do
    (left, r) ← handler obj
    let copy_obj = new_or r.0 left
    let same_version = equals (R.resource_version obj) (R.resource_version copy_obj)
    if same_version && not (semantic_equal obj copy_obj)
        then (update copy_obj >>= λ u. pure (some u.0, u.1))
        else pure (some copy_obj, r.1)

-- The registration of a handler by lasso, and wrangler's remove handler.
module _ {T S Q : Type 0} (register_handler : Text → GenericHandler T S → Q → Q)
    (new_remove_handler : Text
      → (Object T → M S (Result (Object T)))
      → GenericHandler T S
      → GenericHandler T S)
    (update : T → M S (Result (Option T))) where
  -- `AddGenericHandler`
  unfoldable pub add_generic_handler : Text → GenericHandler T S → Q → Q
  add_generic_handler name handler q = register_handler name handler q

  -- `AddGenericRemoveHandler`
  unfoldable pub add_generic_remove_handler : Text → GenericHandler T S → Q → Q
  add_generic_remove_handler name handler q =
      add_generic_handler name (new_remove_handler name (updater update) handler) q

  -- `OnChange`
  unfoldable pub on_change : Text → Handler T S → Q → Q
  on_change name sync q = add_generic_handler name (from_handler_to_handler sync) q

  -- `OnRemove`
  unfoldable pub on_remove : Text → Handler T S → Q → Q
  on_remove name sync q =
      add_generic_handler name
        (new_remove_handler name (updater update) (from_handler_to_handler sync)) q

pub record GroupVersionKind : Type 0 where
  pub group : Text
  pub version : Text
  pub kind : Text

pub record GroupVersionResource : Type 0 where
  pub group : Text
  pub version : Text
  pub resource : Text

pub record GroupResource : Type 0 where
  pub group : Text
  pub resource : Text

-- `blockDeviceController`, over the types of lasso's controller and client
pub record Controller (Shared Client : Type 0) : Type 0 where
  pub controller : Shared
  pub client : Client
  pub gvk : GroupVersionKind
  pub group_resource : GroupResource

module _ {Shared Client : Type 0} (for_resource_kind : GroupVersionResource → Text → Bool → Shared)
    (client_of : Shared → Client) where
  -- `NewBlockDeviceController`, by the factory's `ForResourceKind`
  unfoldable pub new_controller : GroupVersionKind → Text → Bool → Controller Shared Client
  new_controller gvk resource namespaced =
      let c =
        for_resource_kind (record { group = gvk.group; version = gvk.version; resource = resource })
          gvk.kind namespaced in
      record {
        controller = c;
        client = client_of c;
        gvk = gvk;
        group_resource = record { group = gvk.group; resource = resource };
      }

  -- `BlockDevice` of interface.go
  unfoldable pub block_device_controller : Controller Shared Client
  block_device_controller =
      new_controller
        (record {
          group = codes "longhorn.io";
          version = codes "v1beta1";
          kind = codes "BlockDevice";
        })
        (codes "blockdevices") true

  -- `Node` of interface.go
  unfoldable pub node_controller : Controller Shared Client
  node_controller =
      new_controller
        (record { group = codes "longhorn.io"; version = codes "v1beta1"; kind = codes "Node" })
        (codes "nodes") true
