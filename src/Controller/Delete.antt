-- ===== src/Controller/Delete.antt =====
-- pkg/controller/blockdevice/controller.go: `OnBlockDeviceDelete`; and pkg/controller/node/node.go,
-- whose handler deletes devices by the same steps.
pub mod Effect
use disk_manager.Base.{Option, none, some, List, [], ◌∷◌}
use disk_manager.Text.{Text, codes}
use disk_manager.Labels.{Labels}
use disk_manager.Host.{Host}
use disk_manager.Api.{BlockDevice, Node}
use disk_manager.Cluster.{Cluster, ApiError}
use disk_manager.Effects.{M, pure, ◌>>=◌}
use disk_manager.World.{World, call}
use disk_manager.Devices.{parent_device_label, label_hostname}
use disk_manager.Controller.Register.{Registration, on_remove}

module _ (H : Host) (C : Cluster) (namespace : Text) where
  -- The loop that deletes, up to the first error.
  unfoldable pub delete_all : List BlockDevice → M (World H C) (Option ApiError)
  delete_all [] = pure none
  delete_all (bd ∷ bds) = do
    failed ← call (C.delete namespace bd.object_meta.name)
    elim failed [ some e ↦ pure (some e) | none ↦ delete_all bds ]

  -- The devices that the cache lists for a set of labels are deleted.
  unfoldable pub delete_selected : Labels → M (World H C) (Option ApiError)
  delete_selected set = do
    reply ← call (C.cache_list namespace set)
    elim reply.error [ some e ↦ pure (some e) | none ↦ delete_all reply.value ]

  -- `OnBlockDeviceDelete`
  unfoldable pub on_block_device_delete :
      Option BlockDevice → M (World H C) (Option BlockDevice × Option ApiError)
  on_block_device_delete none = pure (none, none)
  on_block_device_delete (some device) = do
    failed ← delete_selected ((parent_device_label, device.object_meta.name) ∷ [])
    elim failed [ some e ↦ pure (some device, some e) | none ↦ pure (none, none) ]

  -- `OnNodeDelete`
  unfoldable pub on_node_delete : Option Node → M (World H C) (Option Node × Option ApiError)
  on_node_delete none = pure (none, none)
  on_node_delete (some node) = do
    failed ← delete_selected ((label_hostname, node.object_meta.name) ∷ [])
    elim failed [ some e ↦ pure (some node, some e) | none ↦ pure (none, none) ]

-- `Register` of the node controller
abbrev pub block_device_node_handler_name : Text
block_device_node_handler_name = codes "longhorn-ndm-node-handler"

unfoldable pub register_node : List Registration
register_node = on_remove block_device_node_handler_name ∷ []
