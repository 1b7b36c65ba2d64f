-- ===== src/Tests/Node.antt =====
-- A node with one disk, of one partition, that a file system is mounted on; the files are texts by
-- path. And the definitions that a run of the tests sees through.
use disk_manager.Api.Equal.{
  meta_equal, spec_equal, details_equal, file_system_equal, device_status_equal, condition_equal,
  conditions_equal, status_equal, deep_equal,
}
use disk_manager.Block.Blkid.{device_path, tag_value, read_tag, get_file_system_type, get_disk_uuid}
use disk_manager.Block.Disk.{
  partition_of, partitions_among, disk_partitions, get_disk, get_disk_by_name, disks_among, disks,
}
use disk_manager.Block.Mount.{mount_ext4}
use disk_manager.Block.Mounts.{
  unescape, entry_of, parse_mount_entry, drop_cr, tokens, scan_lines, find_mount, partition_info,
}
use disk_manager.Block.Numa.{return_on_error, numa_loop, disk_numa_node_id}
use disk_manager.Block.Sysfs.{
  number_in, sectors_to_bytes, add_udev_line, add_udev_lines, first_key, key_of,
  disk_physical_block_size_bytes, disk_size_bytes, partition_size_bytes, disk_vendor, udev_info,
  disk_model, disk_serial_number, disk_bus_path, disk_wwn, disk_is_removable, disk_is_rotational,
  disk_types,
}
use disk_manager.Controller.Change.{
  stamp_formatted, refresh_file_system, report_mount_error, set_outcome, report_mounted,
  save_change, finish_change, save_failure, finish_mounted, perform_change, change_device,
  on_block_device_change,
}
use disk_manager.Controller.Delete.{
  delete_all, delete_selected, on_block_device_delete, on_node_delete, register_node,
}
use disk_manager.Controller.FileSystem.{
  wanted_mount_point, is_valid_file_system, mount_at, mount_if_made, mount_device,
}
use disk_manager.Controller.Register.{
  found_block_devices, save_all_by_list, register_node_block_devices, register,
}
use disk_manager.Controller.Save.{
  dynamic_equal, find_existing, update, create, save_block_device, save_block_device_by_list,
}
use disk_manager.Devices.{
  get_full_dev_path, partition_block_device, get_partition_block_devices, parent_block_device,
  get_new_block_devices,
}
use disk_manager.Labels.{lookup, insert, includes, same}
use disk_manager.Main.{options_from, init_logs, init_profiling, start_all, lead, connect, scan, run}
use disk_manager.Block.Info.{new_info, load}
use disk_manager.Path.{
  step_clean, clean_parts, clean, join, after_slash, strip_slashes, last_element, base,
}
use disk_manager.Text.{
  equals, byte_length, has_prefix, trim_prefix, trim_suffix, contains, is_space, trim_left,
  trim_right, trim_space, remove_all, split_from, split, split_two, fields, replace_from,
}
use disk_manager.Text.Number.{parse_digits, parse_uint, atoi}
use disk_manager.Udev.Device.{is_disk, is_partition, get_path, get_short_name, get_id_path}
use disk_manager.Udev.Duration.{double, exceeds_default, pause}
use disk_manager.Udev.Handlers.{
  with_state, update_found, update_block_device, save_each, add_block_device, remove_block_device,
  dispatch, action_handler,
}
use disk_manager.Udev.Monitor.{get_optional_matcher, monitor, monitor_once}
use disk_manager.Util.{get_block_device_name, is_longhorn_block_device, friendly_version}
use disk_manager.Base.{ℕ, Option, none, some, List, [], ◌∷◌, ◌++◌, pos}
use disk_manager.Text.{Text, codes, join_with}
use disk_manager.Labels.{Labels}
use disk_manager.Labels
use disk_manager.Host.{Host, not_exist}

-- What computes where this is unfolded
unfoldable pub everything : Unit {0}
unfolding meta_equal spec_equal details_equal file_system_equal device_status_equal condition_equal
    conditions_equal status_equal deep_equal device_path tag_value read_tag get_file_system_type
    get_disk_uuid partition_of partitions_among disk_partitions get_disk get_disk_by_name
    disks_among disks mount_ext4 unescape entry_of parse_mount_entry drop_cr tokens scan_lines
    find_mount partition_info return_on_error numa_loop disk_numa_node_id number_in sectors_to_bytes
    add_udev_line add_udev_lines first_key key_of disk_physical_block_size_bytes disk_size_bytes
    partition_size_bytes disk_vendor udev_info disk_model disk_serial_number disk_bus_path disk_wwn
    disk_is_removable disk_is_rotational disk_types stamp_formatted refresh_file_system
    report_mount_error set_outcome report_mounted save_change finish_change save_failure
    finish_mounted perform_change change_device on_block_device_change delete_all delete_selected
    on_block_device_delete on_node_delete register_node wanted_mount_point is_valid_file_system
    mount_at mount_if_made mount_device found_block_devices save_all_by_list
    register_node_block_devices register dynamic_equal find_existing update create save_block_device
    save_block_device_by_list get_full_dev_path partition_block_device get_partition_block_devices
    parent_block_device get_new_block_devices lookup insert includes same options_from init_logs
    init_profiling start_all lead connect scan new_info load run step_clean clean_parts clean join
    after_slash strip_slashes last_element base equals byte_length has_prefix trim_prefix
    trim_suffix contains is_space trim_left trim_right trim_space remove_all split_from split
    split_two fields replace_from parse_digits parse_uint atoi is_disk is_partition get_path
    get_short_name get_id_path double exceeds_default pause with_state update_found
    update_block_device save_each add_block_device remove_block_device dispatch action_handler
    get_optional_matcher monitor monitor_once get_block_device_name is_longhorn_block_device
    friendly_version
everything = tt

abbrev links : Labels
links = (codes "/sys/block/sda", codes "../devices/pci0/ata1/sda") ∷ []

abbrev directories : Text → Labels → Option (List Text)
directories p s =
    elim (Labels.lookup p (
      (codes "/sys/block", codes "loop0 sda")
      ∷ (codes "/sys/block/sda", codes "queue sda1")
      ∷ [])) [ none ↦ none | some names ↦ some (fields names) ]

abbrev commands : Labels
commands =
    (codes "blkid -s PARTUUID /dev/sda1", codes "/dev/sda1: PARTUUID=\"ab-1\"\n")
    ∷ (codes "blkid -s TYPE /dev/sda", codes "/dev/sda: TYPE=\"ext4\"\n")
    ∷ []

abbrev pub mounts_line : Text
mounts_line = codes "/dev/sda1 /data ext4 rw,relatime 0 0\n"

-- `mount` writes a line into the file of mounts.
abbrev mount_in : Text → Text → Text → ℕ → Text → Labels → Option Text × Labels
mount_in device path kind flags opts s = (
  none,
  Labels.insert (codes "/proc/mounts")
      (device ++ codes " " ++ path ++ codes " " ++ kind ++ codes " rw 0 0\n") s,
)

abbrev pub node : Host
node = record {
  State = Labels;
  paths = record {
    sys_block = codes "/sys/block";
    run_udev_data = codes "/run/udev/data";
    proc_mounts = codes "/proc/mounts";
  };
  read_file = λ s p. Labels.lookup p s;
  read_link = λ s p. Labels.lookup p links;
  read_dir = λ s p. directories p s;
  stat = λ s p. not_exist;
  mkdir = λ p mode s. (none, s);
  mount = mount_in;
  output = λ s args. Labels.lookup (join_with (codes " ") args) commands;
  safe_int_from_file = λ s p. pos 1;
  unknown = codes "unknown";
  drive_type_name = λ d. codes "drive";
  storage_controller_name = λ c. codes "controller";
}

-- The same node with a `mount` that fails
abbrev pub broken_node : Host
broken_node = record node { mount = λ device path kind flags opts s. (some (codes "EIO"), s) }

abbrev pub files : Labels
files =
    (codes "/sys/block/sda/size", codes "2097152\n")
    ∷ (codes "/sys/block/sda/sda1/size", codes "2048\n")
    ∷ (codes "/sys/block/sda/dev", codes "8:0\n")
    ∷ (codes "/run/udev/data/b8:0", codes "S:disk\nE:ID_PATH=pci-1\nE:ID_SERIAL=s=1")
    ∷ (codes "/sys/block/../devices/pci0/ata1/sda/numa_node", codes "0\n")
    ∷ (codes "/sys/devices/pci0/ata1/sda/numa_node", codes "0\n")
    ∷ (codes "/proc/mounts", mounts_line)
    ∷ []
