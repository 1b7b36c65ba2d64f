-- ===== src/Generated/Node.antt =====
-- pkg/generated/controllers/longhorn.io/v1beta1/node.go: the same code for nodes, of whose client
-- `UpdateStatus` is not a method.
use disk_manager.Base.{ℕ, Bool, Option, List}
use disk_manager.Text.{Text}
use disk_manager.Cluster.{ApiError, Reply}
use disk_manager.Effects.{M}
use disk_manager.Api
use disk_manager.Generated.{Resource, Machinery, Lasso}
use disk_manager.Generated.Client
use disk_manager.Generated.Cache
use disk_manager.Generated.Handlers.{
  Result, Object, Handler, GenericHandler, GroupVersionKind, Controller,
}
use disk_manager.Generated.Handlers

-- `Node` and `NodeList`; the metadata of the list is apimachinery's.
pub record NodeList (ListMeta : Type 0) : Type 0 where
  pub list_meta : ListMeta
  pub items : List Api.Node

module _ {ListMeta : Type 0} (empty : Api.Node) (empty_list : NodeList ListMeta) where
  abbrev pub nodes : Resource
  nodes = record {
    Obj = Api.Node;
    ObjList = NodeList ListMeta;
    namespace = λ n. n.object_meta.namespace;
    resource_version = λ n. n.object_meta.resource_version;
    items = λ l. l.items;
    empty = empty;
    empty_list = empty_list;
  }

  module _ (A : Machinery) (L : Lasso nodes A) where
    -- `Create`
    unfoldable pub create : Api.Node → L.State → Reply Api.Node × L.State
    create obj s = Client.create nodes A L obj s

    -- `Update`
    unfoldable pub update : Api.Node → L.State → Reply Api.Node × L.State
    update obj s = Client.update nodes A L obj s

    -- `Delete`
    unfoldable pub delete :
        Text → Text → Option A.DeleteOptions → L.State → Option ApiError × L.State
    delete namespace name options s = Client.delete nodes A L namespace name options s

    -- `Get`
    unfoldable pub get : Text → Text → A.GetOptions → L.State → Reply Api.Node × L.State
    get namespace name options s = Client.get nodes A L namespace name options s

    -- `List`
    unfoldable pub list : Text → A.ListOptions → L.State → Reply (NodeList ListMeta) × L.State
    list namespace opts s = Client.list nodes A L namespace opts s

    -- `Watch`
    unfoldable pub watch : Text → A.ListOptions → L.State → Reply A.Watch × L.State
    watch namespace opts s = Client.watch nodes A L namespace opts s

    -- `Patch`
    unfoldable pub patch :
        Text → Text → A.PatchType → Text → List Text → L.State → Reply Api.Node × L.State
    patch namespace name pt data_bytes subresources s =
        Client.patch nodes A L namespace name pt data_bytes subresources s

    module _ (resource : Text) where
      -- `Get` of the cache
      unfoldable pub cache_get : Text → Text → L.State → Reply (Option Api.Node) × L.State
      cache_get namespace name s = Cache.cache_get nodes A L resource namespace name s

      -- `List` of the cache
      unfoldable pub cache_list : Text → A.Selector → L.State → Reply (List Api.Node) × L.State
      cache_list namespace selector s = Cache.cache_list nodes A L resource namespace selector s

      -- `GetByIndex`
      unfoldable pub get_by_index : Text → Text → L.State → Reply (List Api.Node) × L.State
      get_by_index index_name key s = Cache.get_by_index nodes A L resource index_name key s

      -- `AddIndexer`
      unfoldable pub add_indexer :
          Text → (Api.Node → List Text × Option ApiError) → M L.State (Unit {0})
      add_indexer index_name indexer s = Cache.add_indexer nodes A L resource index_name indexer s

      -- `Enqueue`
      unfoldable pub enqueue : Text → Text → L.State → L.State
      enqueue namespace name s = Cache.enqueue nodes A L resource namespace name s

      -- `EnqueueAfter`
      unfoldable pub enqueue_after : Text → Text → ℕ → L.State → L.State
      enqueue_after namespace name duration s =
          Cache.enqueue_after nodes A L resource namespace name duration s

  -- `UpdateNodeDeepCopyOnChange`
  unfoldable pub update_deep_copy_on_change :
      {S : Type 0}
      → (Api.Node → Api.Node → Bool)
      → (Api.Node → M S (Result Api.Node))
      → Option Api.Node
      → (Api.Node → M S (Api.Node × Result (Option Api.Node)))
      → M S (Result (Option Api.Node))
  update_deep_copy_on_change semantic_equal update obj handler =
      Handlers.update_deep_copy_on_change nodes semantic_equal update obj handler

module _ {S : Type 0} where
  -- `FromNodeHandlerToHandler`
  unfoldable pub from_handler_to_handler : Handler Api.Node S → GenericHandler Api.Node S
  from_handler_to_handler sync key obj = Handlers.from_handler_to_handler sync key obj

  -- `Updater`
  unfoldable pub updater :
      (Api.Node → M S (Result (Option Api.Node))) → Object Api.Node → M S (Result (Object Api.Node))
  updater update obj = Handlers.updater update obj

  module _ {Q : Type 0} (register_handler : Text → GenericHandler Api.Node S → Q → Q)
      (new_remove_handler : Text
        → (Object Api.Node → M S (Result (Object Api.Node)))
        → GenericHandler Api.Node S
        → GenericHandler Api.Node S)
      (update : Api.Node → M S (Result (Option Api.Node))) where
    -- `AddGenericHandler`
    unfoldable pub add_generic_handler : Text → GenericHandler Api.Node S → Q → Q
    add_generic_handler name handler q =
        Handlers.add_generic_handler register_handler new_remove_handler update name handler q

    -- `AddGenericRemoveHandler`
    unfoldable pub add_generic_remove_handler : Text → GenericHandler Api.Node S → Q → Q
    add_generic_remove_handler name handler q =
        Handlers.add_generic_remove_handler register_handler new_remove_handler update name handler
          q

    -- `OnChange`
    unfoldable pub on_change : Text → Handler Api.Node S → Q → Q
    on_change name sync q =
        Handlers.on_change register_handler new_remove_handler update name sync q

    -- `OnRemove`
    unfoldable pub on_remove : Text → Handler Api.Node S → Q → Q
    on_remove name sync q =
        Handlers.on_remove register_handler new_remove_handler update name sync q

-- `NewNodeController`
unfoldable pub new_node_controller :
    {Shared Client : Type 0}
    → (Handlers.GroupVersionResource → Text → Bool → Shared)
    → (Shared → Client)
    → GroupVersionKind
    → Text
    → Bool
    → Controller Shared Client
new_node_controller for_resource_kind client_of gvk resource namespaced =
    Handlers.new_controller for_resource_kind client_of gvk resource namespaced
