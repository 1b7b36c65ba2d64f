-- ===== src/Generated/Version.antt =====
-- pkg/generated/controllers/longhorn.io: interface.go and v1beta1/interface.go, from the factory to
-- the controller of a resource; and what a controller gives of itself (v1beta1/blockdevice.go, node.go).
use disk_manager.Base.{◌≡◌, refl, Bool, none, some}
use disk_manager.Text.{Text, codes}
use disk_manager.Effects.{M, pure, panic}
use disk_manager.Generated.Handlers.{
  Controller, GroupVersionKind, GroupVersionResource, GroupResource, new_controller,
  block_device_controller, node_controller,
}
use disk_manager.Generated.Factory.{Generic, Factory}

-- `blockDeviceCache` and `nodeCache`
pub record Cache (Indexer : Type 0) : Type 0 where
  pub indexer : Indexer
  pub resource : GroupResource

module _ {Shared Client Informer Indexer : Type 0} (informer_of : Shared → Informer)
    (indexer_of : Informer → Indexer) where
  -- `Informer`
  unfoldable pub informer : Controller Shared Client → Informer
  informer c = informer_of c.controller

  -- `GroupVersionKind`
  unfoldable pub group_version_kind : Controller Shared Client → GroupVersionKind
  group_version_kind c = c.gvk

  -- `Cache`
  unfoldable pub cache : Controller Shared Client → Cache Indexer
  cache c = record { indexer = indexer_of (informer c); resource = c.group_resource }

-- lasso's factory of shared controllers.
pub record SharedFactory : Type 1 where
  pub ControllerFactory : Type 0
  pub Shared : Type 0
  pub Client : Type 0
  pub for_resource_kind : ControllerFactory → GroupVersionResource → Text → Bool → Shared
  pub client_of : Shared → Client

module _ (S : SharedFactory) where
  -- `version`
  pub record Version : Type 0 where
    pub controller_factory : S.ControllerFactory

  -- `New` of v1beta1
  unfoldable pub new_version : S.ControllerFactory → Version
  new_version f = record { controller_factory = f }

  -- `BlockDevice`
  unfoldable pub block_device : Version → Controller S.Shared S.Client
  block_device v = block_device_controller (S.for_resource_kind v.controller_factory) S.client_of

  -- `Node`
  unfoldable pub node : Version → Controller S.Shared S.Client
  node v = node_controller (S.for_resource_kind v.controller_factory) S.client_of

  -- `group`
  pub record Group : Type 0 where
    pub controller_factory : S.ControllerFactory

  -- `New`
  unfoldable pub new_group : S.ControllerFactory → Group
  new_group f = record { controller_factory = f }

  -- `V1beta1`
  unfoldable pub v1beta1 : Group → Version
  v1beta1 g = new_version g.controller_factory

  -- `Longhorn` of the factory: the methods of a nil `generic.Factory` panic.
  unfoldable pub longhorn :
      {W : Type 0} (G : Generic) → (G.Made → S.ControllerFactory) → Factory G → M W Group
  longhorn G controller_factory f = elim f.factory [
    | none ↦ panic
    | some made ↦ pure (new_group (controller_factory made))
  ]

  module _ {Informer Indexer : Type 0} (informer_of : S.Shared → Informer)
      (indexer_of : Informer → Indexer) where
    -- The controllers that the program takes from one factory, and their caches, are of the resources
    -- blockdevices and nodes of longhorn.io/v1beta1, as is the kind that they give.
    pub controllers-named :
        (f : S.ControllerFactory)
        → ((cache informer_of indexer_of (block_device (v1beta1 (new_group f)))).resource
            ≡ record { group = codes "longhorn.io"; resource = codes "blockdevices" })
          × ((cache informer_of indexer_of (node (v1beta1 (new_group f)))).resource
              ≡ record { group = codes "longhorn.io"; resource = codes "nodes" })
          × ((group_version_kind informer_of indexer_of (block_device (v1beta1 (new_group f)))).kind
              ≡ codes "BlockDevice")
          × ((group_version_kind informer_of indexer_of (node (v1beta1 (new_group f)))).kind
              ≡ codes "Node")
    unfolding cache group_version_kind informer block_device node block_device_controller
        node_controller new_controller
    controllers-named f = (refl, refl, refl, refl)
