-- ===== src/Api/Equal.antt =====
-- `reflect.DeepEqual` on block devices: all fields, the labels as a map.
pub mod Reflexive
pub mod Sound
use disk_manager.Base.{
  Bool, true, false, ◌&&◌, Option, none, some, List, [], ◌∷◌, ◌==◌, ℤ, pos, negsuc,
}
use disk_manager.Text.{equals}
use disk_manager.Labels.{Labels}
use disk_manager.Labels
use disk_manager.Api.{
  ObjectMeta, BlockDeviceSpec, DeviceDetails, FilesystemStatus, DeviceStatus, Condition,
  BlockDeviceStatus, BlockDevice, Time,
}

abbrev pub bool_equal : Bool → Bool → Bool
bool_equal true b = b
bool_equal false true = false
bool_equal false false = true

abbrev pub int_equal : ℤ → ℤ → Bool
int_equal (pos a) (pos b) = a == b
int_equal (negsuc a) (negsuc b) = a == b
int_equal _ _ = false

abbrev pub time_equal : Option Time → Option Time → Bool
time_equal none none = true
time_equal (some a) (some b) = a == b
time_equal _ _ = false

unfoldable pub meta_equal : ObjectMeta → ObjectMeta → Bool
meta_equal a b =
    equals a.name b.name
    && equals a.namespace b.namespace
    && Labels.same a.labels b.labels
    && equals a.resource_version b.resource_version
    && time_equal a.deletion_timestamp b.deletion_timestamp
    && equals a.others b.others

unfoldable pub spec_equal : BlockDeviceSpec → BlockDeviceSpec → Bool
spec_equal a b =
    equals a.node_name b.node_name
    && equals a.dev_path b.dev_path
    && equals a.file_system.mount_point b.file_system.mount_point
    && bool_equal a.file_system.force_formatted b.file_system.force_formatted

unfoldable pub details_equal : DeviceDetails → DeviceDetails → Bool
details_equal a b =
    equals a.device_type b.device_type
    && equals a.drive_type b.drive_type
    && equals a.part_uuid b.part_uuid
    && equals a.uuid b.uuid
    && equals a.pt_uuid b.pt_uuid
    && bool_equal a.is_removable b.is_removable
    && equals a.storage_controller b.storage_controller
    && equals a.bus_path b.bus_path
    && equals a.model b.model
    && equals a.vendor b.vendor
    && equals a.serial_number b.serial_number
    && int_equal a.numa_node_id b.numa_node_id
    && equals a.wwn b.wwn
    && equals a.label b.label

unfoldable pub file_system_equal : FilesystemStatus → FilesystemStatus → Bool
file_system_equal a b =
    bool_equal a.is_read_only b.is_read_only
    && equals a.fs_type b.fs_type
    && equals a.mount_point b.mount_point
    && time_equal a.last_formatted_at b.last_formatted_at

unfoldable pub device_status_equal : DeviceStatus → DeviceStatus → Bool
device_status_equal a b =
    equals a.parent_device b.parent_device
    && bool_equal a.partitioned b.partitioned
    && a.capacity.size_bytes == b.capacity.size_bytes
    && a.capacity.physical_block_size_bytes == b.capacity.physical_block_size_bytes
    && details_equal a.details b.details
    && file_system_equal a.file_system b.file_system

unfoldable pub condition_equal : Condition → Condition → Bool
condition_equal a b =
    equals a.cond_type b.cond_type
    && equals a.status b.status
    && equals a.last_update_time b.last_update_time
    && equals a.last_transition_time b.last_transition_time
    && equals a.reason b.reason
    && equals a.message b.message

unfoldable pub conditions_equal : List Condition → List Condition → Bool
conditions_equal [] [] = true
conditions_equal (a ∷ as') (b ∷ bs) = condition_equal a b && conditions_equal as' bs
conditions_equal _ _ = false

unfoldable pub status_equal : BlockDeviceStatus → BlockDeviceStatus → Bool
status_equal a b =
    equals a.state b.state
    && conditions_equal a.conditions b.conditions
    && device_status_equal a.device_status b.device_status

unfoldable pub deep_equal : BlockDevice → BlockDevice → Bool
deep_equal a b =
    meta_equal a.object_meta b.object_meta
    && spec_equal a.spec b.spec
    && status_equal a.status b.status
