-- ===== src/Controller/Register.antt =====
-- pkg/controller/blockdevice/controller.go: `Register` and `RegisterNodeBlockDevices`.
pub mod Refines
use disk_manager.Base.{Option, none, some, List, [], ◌∷◌, ◌++◌, if◌then◌else◌}
use disk_manager.Text.{Text, codes}
use disk_manager.Host.{Host}
use disk_manager.Api.{BlockDevice}
use disk_manager.Cluster.{Cluster, ApiError, Reply}
use disk_manager.Effects.{M, pure, ◌>>=◌}
use disk_manager.World.{World, call}
use disk_manager.Util.{is_longhorn_block_device}
use disk_manager.Block.Disk.{Disk}
use disk_manager.Devices.{get_new_block_devices}
use disk_manager.Controller.Save.{save_block_device_by_list}

-- The fields of `Controller` that are values. `disks` is `BlockInfo.Disks`.
pub record Settings : Type 0 where
  pub namespace : Text
  pub node_name : Text
  pub disks : List Disk

abbrev pub block_device_handler_name : Text
block_device_handler_name = codes "longhorn-block-device-handler"

-- A handler that has been registered, by name.
pub data Registration : Type 0 where
  on_change : Text → Registration
  on_remove : Text → Registration

module _ (H : Host) where
  -- The devices of the disks that are not Longhorn's own.
  unfoldable pub found_block_devices : Settings → List Disk → List BlockDevice
  found_block_devices c [] = []
  found_block_devices c (disk ∷ disks) =
      let rest = found_block_devices c disks in
      if is_longhorn_block_device disk.bus_path
      then rest
      else get_new_block_devices H disk c.node_name c.namespace ++ rest

module _ (H : Host) (C : Cluster) where
  -- The loop that saves, up to the first error.
  unfoldable pub save_all_by_list :
      List BlockDevice → List BlockDevice → M (World H C) (Option ApiError)
  save_all_by_list [] items = pure none
  save_all_by_list (bd ∷ bds) items = do
    failed ← save_block_device_by_list H C bd items
    elim failed [ some e ↦ pure (some e) | none ↦ save_all_by_list bds items ]

  -- `RegisterNodeBlockDevices`
  unfoldable pub register_node_block_devices : Settings → M (World H C) (Option ApiError)
  register_node_block_devices c = do
    let bds = found_block_devices H c c.disks
    reply ← call (C.list c.namespace)
    elim reply.error [ some e ↦ pure (some e) | none ↦ save_all_by_list bds reply.value ]

  -- `Register`: the handlers are registered only behind a scan without error.
  unfoldable pub register : Settings → M (World H C) (Reply (List Registration))
  register c = do
    failed ← register_node_block_devices c
    elim failed [
      | some e ↦ pure (record { value = []; error = some e })
      | none ↦ pure (record {
        value = on_change block_device_handler_name ∷ on_remove block_device_handler_name ∷ [];
        error = none;
      })
    ]
