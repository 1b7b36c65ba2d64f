-- ===== src/Api/Equal/Reflexive.antt =====
-- `reflect.DeepEqual` finds a device equal to itself, if its labels are a map.
use disk_manager.Base.{◌≡◌, refl, Bool, true, Option, List, [], ◌∷◌, ℤ, arith}
use disk_manager.Text.Prefix.{equals_self}
use disk_manager.Labels.{same}
use disk_manager.Api.{
  ObjectMeta, BlockDeviceSpec, DeviceDetails, FilesystemStatus, DeviceStatus, Condition,
  BlockDeviceStatus, BlockDevice, Time,
}
use disk_manager.Api.Equal.{
  bool_equal, int_equal, time_equal, meta_equal, spec_equal, details_equal, file_system_equal,
  device_status_equal, condition_equal, conditions_equal, status_equal, deep_equal,
}

bool_equal_self : (b : Bool) → bool_equal b b ≡ true
bool_equal_self b = ground arith

int_equal_self : (n : ℤ) → int_equal n n ≡ true
int_equal_self n = ground arith

time_equal_self : (t : Option Time) → time_equal t t ≡ true
time_equal_self t = ground arith

meta_equal_self : (m : ObjectMeta) → same m.labels m.labels ≡ true → meta_equal m m ≡ true
unfolding meta_equal
meta_equal_self m h = ground (
  arith,
  equals_self m.name,
  equals_self m.namespace,
  equals_self m.resource_version,
  equals_self m.others,
  time_equal_self m.deletion_timestamp,
)

spec_equal_self : (s : BlockDeviceSpec) → spec_equal s s ≡ true
unfolding spec_equal
spec_equal_self s = ground (
  arith,
  equals_self s.node_name,
  equals_self s.dev_path,
  equals_self s.file_system.mount_point,
  bool_equal_self s.file_system.force_formatted,
)

details_equal_self : (d : DeviceDetails) → details_equal d d ≡ true
unfolding details_equal
details_equal_self d = ground (
  arith,
  equals_self d.device_type,
  equals_self d.drive_type,
  equals_self d.part_uuid,
  equals_self d.uuid,
  equals_self d.pt_uuid,
  equals_self d.storage_controller,
  equals_self d.bus_path,
  equals_self d.model,
  equals_self d.vendor,
  equals_self d.serial_number,
  equals_self d.wwn,
  equals_self d.label,
  bool_equal_self d.is_removable,
  int_equal_self d.numa_node_id,
)

file_system_equal_self : (f : FilesystemStatus) → file_system_equal f f ≡ true
unfolding file_system_equal
file_system_equal_self f = ground (
  arith,
  equals_self f.fs_type,
  equals_self f.mount_point,
  bool_equal_self f.is_read_only,
  time_equal_self f.last_formatted_at,
)

device_status_equal_self : (d : DeviceStatus) → device_status_equal d d ≡ true
unfolding device_status_equal
device_status_equal_self d = ground (
  arith,
  equals_self d.parent_device,
  bool_equal_self d.partitioned,
  details_equal_self d.details,
  file_system_equal_self d.file_system,
)

condition_equal_self : (c : Condition) → condition_equal c c ≡ true
unfolding condition_equal
condition_equal_self c = ground (
  arith,
  equals_self c.cond_type,
  equals_self c.status,
  equals_self c.last_update_time,
  equals_self c.last_transition_time,
  equals_self c.reason,
  equals_self c.message,
)

conditions_equal_self : (cs : List Condition) → conditions_equal cs cs ≡ true
unfolding conditions_equal
conditions_equal_self [] = refl
conditions_equal_self (c ∷ cs) = ground (arith, condition_equal_self c, conditions_equal_self cs)

status_equal_self : (s : BlockDeviceStatus) → status_equal s s ≡ true
unfolding status_equal
status_equal_self s = ground (
  arith,
  equals_self s.state,
  conditions_equal_self s.conditions,
  device_status_equal_self s.device_status,
)

pub deep_equal_self :
    (bd : BlockDevice)
    → same bd.object_meta.labels bd.object_meta.labels ≡ true
    → deep_equal bd bd ≡ true
unfolding deep_equal
deep_equal_self bd h =
    ground (
      arith,
      meta_equal_self bd.object_meta h,
      spec_equal_self bd.spec,
      status_equal_self bd.status,
    )
