-- ===== src/Generated/Objects.antt =====
-- pkg/apis/longhorn.io/v1beta1/zz_generated_list_types.go and zz_generated_register.go: new objects
-- with their type, and the group's version, kinds and resources.
use disk_manager.Base.{List, [], ◌∷◌}
use disk_manager.Text.{Text, codes}
use disk_manager.Api.{BlockDevice}
use disk_manager.Api
use disk_manager.Generated.Handlers.{GroupVersionKind, GroupResource}

-- `metav1.TypeMeta`
pub record TypeMeta : Type 0 where
  pub api_version : Text
  pub kind : Text

pub record GroupVersion : Type 0 where
  pub group : Text
  pub version : Text

pub record GroupKind : Type 0 where
  pub group : Text
  pub kind : Text

-- `SchemeGroupVersion`
abbrev pub scheme_group_version : GroupVersion
scheme_group_version = record { group = codes "longhorn.io"; version = codes "v1beta1" }

-- `Kind`: the version falls away.
unfoldable pub kind_of : Text → GroupKind
kind_of kind = record { group = scheme_group_version.group; kind = kind }

-- `Resource`
unfoldable pub resource_of : Text → GroupResource
resource_of resource = record { group = scheme_group_version.group; resource = resource }

abbrev with_kind : Text → GroupVersionKind
with_kind kind = record {
  group = scheme_group_version.group;
  version = scheme_group_version.version;
  kind = kind;
}

-- By `ToAPIVersionAndKind` of apimachinery.
module _ (to_api_version_and_kind : GroupVersionKind → Text × Text) where
  abbrev type_meta : Text → TypeMeta
  type_meta kind =
      let (v, k) = to_api_version_and_kind (with_kind kind) in record { api_version = v; kind = k }

  -- `NewBlockDevice`: the type that the object had is overwritten.
  unfoldable pub new_block_device : Text → Text → TypeMeta × BlockDevice → TypeMeta × BlockDevice
  new_block_device namespace name (t, obj) = (
    type_meta (codes "BlockDevice"),
    record obj { object_meta = record obj.object_meta { name = name; namespace = namespace } },
  )

  -- `NewNode`
  unfoldable pub new_node : Text → Text → TypeMeta × Api.Node → TypeMeta × Api.Node
  new_node namespace name (t, obj) = (
    type_meta (codes "Node"),
    record obj { object_meta = record obj.object_meta { name = name; namespace = namespace } },
  )

  module _ {Scheme : Type 0} (add_types : GroupVersion → List Text → Scheme → Scheme)
      (add_to_group_version : GroupVersion → Scheme → Scheme) where
    -- `addKnownTypes`, by the names of the types; its error is always nil.
    unfoldable pub add_known_types : Scheme → Scheme
    add_known_types scheme = add_to_group_version scheme_group_version (
        add_types scheme_group_version
          (codes "BlockDevice" ∷ codes "BlockDeviceList" ∷ codes "Node" ∷ codes "NodeList" ∷ [])
          scheme)
