-- ===== src/Controller/Save.antt =====
-- pkg/controller/blockdevice/controller.go: `SaveBlockDevice` and `SaveBlockDeviceByList`.
pub mod Desired
pub mod Stored
pub mod Parts
use disk_manager.Base.{Bool, false, not, Option, none, some, List, find_first, if◌then◌else◌}
use disk_manager.Text.{equals}
use disk_manager.Host.{Host}
use disk_manager.Api.{BlockDevice}
use disk_manager.Api.Equal.{deep_equal}
use disk_manager.Cluster.{Cluster, ApiError}
use disk_manager.Effects.{M, pure, ◌>>=◌}
use disk_manager.World.{World, call}

-- An argument of `reflect.DeepEqual`, with its dynamic type: a `BlockDevice`, or a pointer to one.
pub data Dynamic : Type 0 where
  plain : BlockDevice → Dynamic
  pointer : BlockDevice → Dynamic

-- `reflect.DeepEqual`: values of different types are never equal.
unfoldable pub dynamic_equal : Dynamic → Dynamic → Bool
dynamic_equal (plain a) (plain b) = deep_equal a b
dynamic_equal (pointer a) (pointer b) = deep_equal a b
dynamic_equal (plain a) (pointer b) = false
dynamic_equal (pointer a) (plain b) = false

-- The first element of the list with the device's name.
unfoldable pub find_existing : BlockDevice → List BlockDevice → Option BlockDevice
find_existing bd = find_first (λ e. equals e.object_meta.name bd.object_meta.name)

-- `toUpdate` of the first function, and of the second one
abbrev pub with_spec_and_status : BlockDevice → BlockDevice → BlockDevice
with_spec_and_status existing bd = record existing {
  spec = bd.spec;
  status = record existing.status { device_status = bd.status.device_status };
}

abbrev pub with_status : BlockDevice → BlockDevice → BlockDevice
with_status existing bd = record existing {
  status = record existing.status { device_status = bd.status.device_status };
}

module _ (H : Host) (C : Cluster) where
  unfoldable pub update : BlockDevice → M (World H C) (Option ApiError)
  update bd = do reply ← call (C.update bd); pure reply.error

  unfoldable pub create : BlockDevice → M (World H C) (Option ApiError)
  create bd = do reply ← call (C.create bd); pure reply.error

  -- `SaveBlockDevice`: the list holds pointers.
  unfoldable pub save_block_device :
      BlockDevice → List BlockDevice → M (World H C) (Option ApiError)
  save_block_device bd bds = elim (find_existing bd bds) [
    | none ↦ create bd
    | some existing ↦
        if not (dynamic_equal (pointer existing) (pointer bd))
        then update (with_spec_and_status existing bd)
        else pure none
  ]

  -- `SaveBlockDeviceByList`: the items of the list are values, the device is a pointer.
  unfoldable pub save_block_device_by_list :
      BlockDevice → List BlockDevice → M (World H C) (Option ApiError)
  save_block_device_by_list bd items = elim (find_existing bd items) [
    | none ↦ create bd
    | some existing ↦
        if not (dynamic_equal (plain existing) (pointer bd))
        then update (with_status existing bd)
        else pure none
  ]
