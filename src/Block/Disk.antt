-- ===== src/Block/Disk.antt =====
-- pkg/block/block.go and the assembly of disks in block_device.go. `none` is a panic of the reader
-- of /proc/mounts. A partition's pointer to its disk is the disk's name.
pub mod Scan
pub mod Returns
use disk_manager.Base.{
  ℕ, Bool, not, Option, none, some, List, [], ◌∷◌, map, if◌then◌else◌, is_empty, ℤ,
}
use disk_manager.Text.{Text, codes, has_prefix, trim_prefix}
use disk_manager.Path.{join}
use disk_manager.Host.{Host, DriveType, ssd, StorageController}
use disk_manager.Block.Blkid.{get_file_system_type, get_disk_uuid, part_uuid, pt_uuid, uuid}
use disk_manager.Block.Sysfs.{
  disk_physical_block_size_bytes, disk_size_bytes, partition_size_bytes, disk_vendor, disk_model,
  disk_serial_number, disk_bus_path, disk_wwn, disk_is_removable, disk_is_rotational, disk_types,
}
use disk_manager.Block.Numa.{disk_numa_node_id}
use disk_manager.Block.Mounts.{MountInfo, partition_info}

pub record FileSystemInfo : Type 0 where
  pub fs_type : Text
  pub is_read_only : Bool
  pub mount_point : Text

pub record Partition : Type 0 where
  pub disk : Option Text
  pub name : Text
  pub label : Text
  pub size_bytes : ℕ
  pub uuid : Text
  pub file_system_info : FileSystemInfo

pub record Disk : Type 0 where
  pub name : Text
  pub size_bytes : ℕ
  pub physical_block_size_bytes : ℕ
  pub drive_type : DriveType
  pub is_removable : Bool
  pub storage_controller : StorageController
  pub uuid : Text
  pub pt_uuid : Text
  pub bus_path : Text
  pub file_system_info : FileSystemInfo
  pub numa_node_id : ℤ
  pub vendor : Text
  pub model : Text
  pub serial_number : Text
  pub wwn : Text
  pub partitions : List Partition

infixl 5 ◌>>=◌
abbrev ◌>>=◌ : {A B : Type 0} → Option A → (A → Option B) → Option B
none >>= f = none
some a >>= f = f a

abbrev pub file_system_of : MountInfo → FileSystemInfo
file_system_of (mp, pt, ro) = record { fs_type = pt; is_read_only = ro; mount_point = mp }

abbrev pub link_to : Text → Partition → Partition
link_to disk p = record p { disk = some disk }

module _ (H : Host) (s : H.State) where
  -- One directory entry that names a partition of the disk.
  unfoldable pub partition_of : Text → Text → Option Partition
  partition_of disk name = do
    info ← partition_info H s name
    some (record {
      disk = none;
      name = name;
      label = [];
      size_bytes = partition_size_bytes H s disk name;
      uuid = get_disk_uuid H s name part_uuid;
      file_system_info = file_system_of info;
    })

  -- The loop over the directory of the disk.
  unfoldable pub partitions_among : Text → List Text → Option (List Partition)
  partitions_among disk [] = some []
  partitions_among disk (name ∷ names) =
      let rest = partitions_among disk names in
      if not (has_prefix name disk)
      then rest
      else do p ← partition_of disk name; ps ← rest; some (p ∷ ps)

  -- `diskPartitions`
  unfoldable pub disk_partitions : Text → Option (List Partition)
  disk_partitions disk = elim (H.read_dir s (join (H.paths.sys_block ∷ disk ∷ []))) [
    | none ↦ some []
    | some names ↦ partitions_among disk names
  ]

  abbrev drive_type_of : Text → DriveType
  drive_type_of name = if not (disk_is_rotational H s name) then ssd else (disk_types name).0

  abbrev with_fs_type : Text → FileSystemInfo → FileSystemInfo
  with_fs_type name fs =
      if is_empty fs.fs_type then record fs { fs_type = get_file_system_type H s name } else fs

  -- `getDisk`
  unfoldable pub get_disk : Text → Option Disk
  get_disk name = do
    info ← partition_info H s name
    parts ← disk_partitions name
    some (record {
      name = name;
      size_bytes = disk_size_bytes H s name;
      physical_block_size_bytes = disk_physical_block_size_bytes H s name;
      drive_type = drive_type_of name;
      is_removable = disk_is_removable H s name;
      storage_controller = (disk_types name).1;
      uuid = get_disk_uuid H s name uuid;
      pt_uuid = get_disk_uuid H s name pt_uuid;
      bus_path = disk_bus_path H s name;
      file_system_info = with_fs_type name (file_system_of info);
      numa_node_id = disk_numa_node_id H s name;
      vendor = disk_vendor H s name;
      model = disk_model H s name;
      serial_number = disk_serial_number H s name;
      wwn = disk_wwn H s name;
      partitions = map (link_to name) parts;
    })

  -- `Info.GetDiskByName`
  unfoldable pub get_disk_by_name : Text → Option Disk
  get_disk_by_name name = get_disk (trim_prefix name (codes "/dev/"))

  -- The loop over the directory of all block devices.
  unfoldable pub disks_among : List Text → Option (List Disk)
  disks_among [] = some []
  disks_among (name ∷ names) =
      let rest = disks_among names in
      if has_prefix name (codes "loop")
      then rest
      else do d ← get_disk name; ds ← rest; some (d ∷ ds)

  -- `disks`, and `Info.load`, which stores its result
  unfoldable pub disks : Option (List Disk)
  disks = elim (H.read_dir s H.paths.sys_block) [ none ↦ some [] | some names ↦ disks_among names ]
