-- ===== src/Api.antt =====
-- The resources of the API group longhorn.io/v1beta1: pkg/apis/longhorn.io/v1beta1/types.go.
-- A Go string type with named constants stays a text with constants. `metav1.TypeMeta` and
-- `metav1.ObjectMeta` are not this repository's: of the second the model has the fields that the
-- source names, and the rest of both in one text. A nil slice is the empty list.
pub mod Equal
use disk_manager.Base.{ℕ, Bool, Option, List, ℤ}
use disk_manager.Text.{Text, codes}
use disk_manager.Labels.{Labels}

-- `metav1.Time`, in seconds
abbrev pub Time : Type 0
Time = ℕ

pub record ObjectMeta : Type 0 where
  pub name : Text
  pub namespace : Text
  pub labels : Labels
  pub resource_version : Text
  pub deletion_timestamp : Option Time
  pub others : Text

pub record FilesystemInfo : Type 0 where
  pub mount_point : Text
  pub force_formatted : Bool

pub record BlockDeviceSpec : Type 0 where
  pub node_name : Text
  pub dev_path : Text
  pub file_system : FilesystemInfo

pub record DeviceCapacity : Type 0 where
  pub size_bytes : ℕ
  pub physical_block_size_bytes : ℕ

pub record DeviceDetails : Type 0 where
  pub device_type : Text
  pub drive_type : Text
  pub part_uuid : Text
  pub uuid : Text
  pub pt_uuid : Text
  pub is_removable : Bool
  pub storage_controller : Text
  pub bus_path : Text
  pub model : Text
  pub vendor : Text
  pub serial_number : Text
  pub numa_node_id : ℤ
  pub wwn : Text
  pub label : Text

pub record FilesystemStatus : Type 0 where
  pub is_read_only : Bool
  pub fs_type : Text
  pub mount_point : Text
  pub last_formatted_at : Option Time

pub record DeviceStatus : Type 0 where
  pub parent_device : Text
  pub partitioned : Bool
  pub capacity : DeviceCapacity
  pub details : DeviceDetails
  pub file_system : FilesystemStatus

pub record Condition : Type 0 where
  pub cond_type : Text
  pub status : Text
  pub last_update_time : Text
  pub last_transition_time : Text
  pub reason : Text
  pub message : Text

-- A nil slice of conditions and an empty one are one list here.
pub record BlockDeviceStatus : Type 0 where
  pub state : Text
  pub conditions : List Condition
  pub device_status : DeviceStatus

pub record BlockDevice : Type 0 where
  pub object_meta : ObjectMeta
  pub spec : BlockDeviceSpec
  pub status : BlockDeviceStatus

-- `types.NodeSpec` and `types.NodeStatus` are longhorn-manager's: in `others`.
pub record Node : Type 0 where
  pub object_meta : ObjectMeta
  pub others : Text

abbrev pub device_mounted : Text
device_mounted = codes "Mounted"

abbrev pub block_device_active : Text
block_device_active = codes "Active"

abbrev pub block_device_inactive : Text
block_device_inactive = codes "Inactive"

abbrev pub device_type_disk : Text
device_type_disk = codes "disk"

abbrev pub device_type_part : Text
device_type_part = codes "partition"
