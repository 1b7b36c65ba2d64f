-- ===== src/Api/Equal/Sound.antt =====
-- What `reflect.DeepEqual` finds equal is equal, in each part but the labels.
use disk_manager.Base.{◌≡◌, refl, Bool, true, ◌&&◌, Option, List, [], ◌∷◌, ℤ, arith}
use disk_manager.Text.Prefix.{equals_iff}
use disk_manager.Api.{
  BlockDeviceSpec, DeviceDetails, FilesystemStatus, DeviceStatus, Condition, BlockDeviceStatus,
  BlockDevice, Time,
}
use disk_manager.Api.Equal.{
  bool_equal, int_equal, time_equal, spec_equal, details_equal, file_system_equal,
  device_status_equal, condition_equal, conditions_equal, status_equal, deep_equal,
}

and_both : (a b : Bool) → (a && b) ≡ true → (a ≡ true) × (b ≡ true)
and_both a b h = ground arith

bool_equal_sound : (a b : Bool) → bool_equal a b ≡ true → a ≡ b
bool_equal_sound a b h = ground arith

int_equal_sound : (a b : ℤ) → int_equal a b ≡ true → a ≡ b
int_equal_sound a b h = ground arith

time_equal_sound : (a b : Option Time) → time_equal a b ≡ true → a ≡ b
time_equal_sound a b h = ground arith

spec_equal_sound : (a b : BlockDeviceSpec) → spec_equal a b ≡ true → a ≡ b
unfolding spec_equal
spec_equal_sound a b h = ground (
  arith,
  equals_iff a.node_name b.node_name,
  equals_iff a.dev_path b.dev_path,
  equals_iff a.file_system.mount_point b.file_system.mount_point,
  bool_equal_sound a.file_system.force_formatted b.file_system.force_formatted,
)

file_system_equal_sound : (a b : FilesystemStatus) → file_system_equal a b ≡ true → a ≡ b
unfolding file_system_equal
file_system_equal_sound a b h = ground (
  arith,
  bool_equal_sound a.is_read_only b.is_read_only,
  equals_iff a.fs_type b.fs_type,
  equals_iff a.mount_point b.mount_point,
  time_equal_sound a.last_formatted_at b.last_formatted_at,
)

condition_equal_sound : (a b : Condition) → condition_equal a b ≡ true → a ≡ b
unfolding condition_equal
condition_equal_sound a b h = ground (
  arith,
  equals_iff a.cond_type b.cond_type,
  equals_iff a.status b.status,
  equals_iff a.last_update_time b.last_update_time,
  equals_iff a.last_transition_time b.last_transition_time,
  equals_iff a.reason b.reason,
  equals_iff a.message b.message,
)

conditions_equal_sound : (as' bs : List Condition) → conditions_equal as' bs ≡ true → as' ≡ bs
unfolding conditions_equal
conditions_equal_sound [] [] h = refl
conditions_equal_sound (a ∷ as') (b ∷ bs) h =
    ground (arith, condition_equal_sound a b, conditions_equal_sound as' bs)
conditions_equal_sound [] (b ∷ bs) h = cc
conditions_equal_sound (a ∷ as') [] h = cc

details_equal_sound : (a b : DeviceDetails) → details_equal a b ≡ true → a ≡ b
unfolding details_equal
details_equal_sound a b h =
    let (r13, h14) = and_both _ _ h in
    let (r12, h13) = and_both _ _ r13 in
    let (r11, h12) = and_both _ _ r12 in
    let (r10, h11) = and_both _ _ r11 in
    let (r9, h10) = and_both _ _ r10 in
    let (r8, h9) = and_both _ _ r9 in
    let (r7, h8) = and_both _ _ r8 in
    let (r6, h7) = and_both _ _ r7 in
    let (r5, h6) = and_both _ _ r6 in
    let (r4, h5) = and_both _ _ r5 in
    let (r3, h4) = and_both _ _ r4 in
    let (r2, h3) = and_both _ _ r3 in
    let (r1, h2) = and_both _ _ r2 in
    cc (
      (equals_iff a.device_type b.device_type).0 r1,
      (equals_iff a.drive_type b.drive_type).0 h2,
      (equals_iff a.part_uuid b.part_uuid).0 h3,
      (equals_iff a.uuid b.uuid).0 h4,
      (equals_iff a.pt_uuid b.pt_uuid).0 h5,
      bool_equal_sound a.is_removable b.is_removable h6,
      (equals_iff a.storage_controller b.storage_controller).0 h7,
      (equals_iff a.bus_path b.bus_path).0 h8,
      (equals_iff a.model b.model).0 h9,
      (equals_iff a.vendor b.vendor).0 h10,
      (equals_iff a.serial_number b.serial_number).0 h11,
      int_equal_sound a.numa_node_id b.numa_node_id h12,
      (equals_iff a.wwn b.wwn).0 h13,
      (equals_iff a.label b.label).0 h14,
    )

device_status_equal_sound : (a b : DeviceStatus) → device_status_equal a b ≡ true → a ≡ b
unfolding device_status_equal
device_status_equal_sound a b h = ground (
  arith,
  equals_iff a.parent_device b.parent_device,
  bool_equal_sound a.partitioned b.partitioned,
  details_equal_sound a.details b.details,
  file_system_equal_sound a.file_system b.file_system,
)

pub status_equal_sound : (a b : BlockDeviceStatus) → status_equal a b ≡ true → a ≡ b
unfolding status_equal
status_equal_sound a b h = ground (
  arith,
  equals_iff a.state b.state,
  conditions_equal_sound a.conditions b.conditions,
  device_status_equal_sound a.device_status b.device_status,
)

-- Devices that are deeply equal have one specification and one status.
pub deep_equal_sound :
    (a b : BlockDevice) → deep_equal a b ≡ true → (a.spec ≡ b.spec) × (a.status ≡ b.status)
unfolding deep_equal
deep_equal_sound a b h =
    ground (arith, spec_equal_sound a.spec b.spec, status_equal_sound a.status b.status)
