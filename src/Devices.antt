-- ===== src/Devices.antt =====
-- pkg/controller/blockdevice/blockdevice.go: from a scanned disk to block device resources. The
-- labels of a device that is made here are a map that exists, so no write meets a nil map.
pub mod Labelled
use disk_manager.Base.{false, not, none, List, [], ◌∷◌, ◌++◌, map, is_empty, if◌then◌else◌}
use disk_manager.Text.{Text, codes}
use disk_manager.Labels
use disk_manager.Host.{Host}
use disk_manager.Util.{get_block_device_name}
use disk_manager.Block.Disk.{Partition, Disk}
use disk_manager.Api.{BlockDevice, block_device_active, device_type_disk, device_type_part}

abbrev pub parent_device_label : Text
parent_device_label = codes "block.longhorn.io/parent-device"

-- `v1.LabelHostname`
abbrev pub label_hostname : Text
label_hostname = codes "kubernetes.io/hostname"

-- `getFullDevPath`
unfoldable pub get_full_dev_path : Text → Text
get_full_dev_path short_path = if is_empty short_path then [] else codes "/dev/" ++ short_path

-- The body of the loop of `GetPartitionBlockDevices`: a deep copy of the parent, then the writes.
unfoldable pub partition_block_device : BlockDevice → Text → Partition → BlockDevice
partition_block_device parent node_name part =
    let old = parent.status.device_status in
    record parent {
      object_meta = record parent.object_meta {
        name = get_block_device_name part.name node_name;
        labels =
            Labels.insert parent_device_label parent.object_meta.name parent.object_meta.labels;
      };
      spec = record parent.spec {
        dev_path = get_full_dev_path part.name;
        file_system = record parent.spec.file_system {
          mount_point = part.file_system_info.mount_point;
        };
      };
      status = record parent.status {
        device_status = record old {
          parent_device = parent.spec.dev_path;
          partitioned = false;
          capacity = record old.capacity { size_bytes = part.size_bytes };
          details = record old.details {
            device_type = device_type_part;
            label = part.label;
            part_uuid = part.uuid;
          };
          file_system = record {
            is_read_only = part.file_system_info.is_read_only;
            fs_type = part.file_system_info.fs_type;
            mount_point = part.file_system_info.mount_point;
            last_formatted_at = none;
          };
        };
      };
    }

-- `GetPartitionBlockDevices`
unfoldable pub get_partition_block_devices : List Partition → BlockDevice → Text → List BlockDevice
get_partition_block_devices partitions parent node_name =
    map (partition_block_device parent node_name) partitions

module _ (H : Host) where
  -- The device of the whole disk.
  unfoldable pub parent_block_device : Disk → Text → Text → BlockDevice
  parent_block_device disk node_name namespace = record {
    object_meta = record {
      name = get_block_device_name disk.name node_name;
      namespace = namespace;
      labels = (label_hostname, node_name) ∷ [];
      resource_version = [];
      deletion_timestamp = none;
      others = [];
    };
    spec = record {
      node_name = node_name;
      dev_path = get_full_dev_path disk.name;
      file_system = record {
        mount_point = disk.file_system_info.mount_point;
        force_formatted = false;
      };
    };
    status = record {
      state = block_device_active;
      conditions = [];
      device_status = record {
        parent_device = [];
        partitioned = not (is_empty disk.partitions);
        capacity = record {
          size_bytes = disk.size_bytes;
          physical_block_size_bytes = disk.physical_block_size_bytes;
        };
        details = record {
          device_type = device_type_disk;
          drive_type = H.drive_type_name disk.drive_type;
          part_uuid = [];
          uuid = disk.uuid;
          pt_uuid = disk.pt_uuid;
          is_removable = disk.is_removable;
          storage_controller = H.storage_controller_name disk.storage_controller;
          bus_path = disk.bus_path;
          model = disk.model;
          vendor = disk.vendor;
          serial_number = disk.serial_number;
          numa_node_id = disk.numa_node_id;
          wwn = disk.wwn;
          label = [];
        };
        file_system = record {
          is_read_only = disk.file_system_info.is_read_only;
          fs_type = disk.file_system_info.fs_type;
          mount_point = disk.file_system_info.mount_point;
          last_formatted_at = none;
        };
      };
    };
  }

  -- `GetNewBlockDevices`
  unfoldable pub get_new_block_devices : Disk → Text → Text → List BlockDevice
  get_new_block_devices disk node_name namespace =
      let parent = parent_block_device disk node_name namespace in
      parent ∷ get_partition_block_devices disk.partitions parent node_name
