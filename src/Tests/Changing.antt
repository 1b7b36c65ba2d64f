-- ===== src/Tests/Changing.antt =====
-- What the change handler does on the node of the tests and a cluster in memory.
use disk_manager.Base.{◌≡◌, ◌↔◌, ◌⊎◌, inr, refl, true, false, none, some, [], arith, is_empty}
use disk_manager.Text.{codes}
use disk_manager.Text.Prefix.{equals_self}
use disk_manager.Api.{BlockDevice, device_mounted}
use disk_manager.Api.Equal.{deep_equal}
use disk_manager.Effects.{done}
use disk_manager.World.{World}
use disk_manager.Block.Disk.{Disk, get_disk_by_name}
use disk_manager.Devices.{parent_block_device}
use disk_manager.Controller.FileSystem.Mounting.{MountedAt}
use disk_manager.Controller.FileSystem.{is_valid_file_system, mount_device}
use disk_manager.Controller.Change.{Handled, on_block_device_change}
use disk_manager.Controller.Change.Effect.{Quiet, on_block_device_change-Quiet}
use disk_manager.Controller.Change.Attempts.{
  ReportsFailure, ReportsMount, on_block_device_change_failed_mount, on_block_device_change_mounted,
}
use disk_manager.Controller.Change.Mounted.{
  IsLawful, IsMounted, outcome, reported, condition_status_iff,
}
use disk_manager.Tests.Decide.{value_or}
use disk_manager.Tests.Memory.{memory}
use disk_manager.Tests.Node.{node, broken_node, files, everything}
use disk_manager.Tests.Block.{sda}
use disk_manager.Tests.Controller.{status_of, message_of, toolkit, parent, devices, world}

toolkit-IsLawful : IsLawful toolkit
toolkit-IsLawful = record {
  status_of = status_of;
  message_of = message_of;
  status-set_error = λ now name reason err cs. elim err [
    | none ↦ ground (arith, equals_self name)
    | some e ↦ ground (arith, equals_self name)
  ];
  message-set_error = λ now name reason err cs. elim err [
    | none ↦ ground (arith, equals_self name)
    | some e ↦ ground (arith, equals_self name)
  ];
  status-set_message = λ now name message cs. ground (arith, equals_self name);
  message-set_message = λ now name message cs. ground (arith, equals_self name);
}

-- A device that is to be mounted on /data, and one that is.
abbrev pub wanting : BlockDevice
wanting = record parent {
  spec = record parent.spec {
    file_system = record { mount_point = codes "/data/"; force_formatted = true };
  };
}

abbrev pub mounted : BlockDevice
mounted = record wanting {
  status = record wanting.status {
    device_status = record wanting.status.device_status {
      file_system = record {
        is_read_only = false;
        fs_type = codes "ext4";
        mount_point = codes "/data";
        last_formatted_at = none;
      };
    };
  };
}

mounted_valid :
    (is_valid_file_system toolkit mounted.spec.file_system
      mounted.status.device_status.file_system).1
    ≡ true
unfolding everything
mounted_valid = refl

on_block_device_change-Quiet_example :
    Quiet node memory toolkit 7 mounted
      (world devices)
      (on_block_device_change node memory toolkit 7 (some mounted) (world devices))
on_block_device_change-Quiet_example =
    on_block_device_change-Quiet node memory toolkit 7 mounted (world devices)
      (inr (inr mounted_valid))

wanting_asks : is_empty wanting.spec.file_system.mount_point ≡ false
unfolding everything
wanting_asks = refl

wanting_invalid :
    (is_valid_file_system toolkit wanting.spec.file_system
      wanting.status.device_status.file_system).1
    ≡ false
unfolding everything
wanting_invalid = refl

abbrev broken_world : World broken_node memory
broken_world = record { host = files; cluster = devices; slept = [] }

mount_fails :
    (mount_device broken_node wanting.spec.dev_path wanting.spec.file_system.mount_point files).0
    ≡ some (codes "mount: EIO")
unfolding everything
mount_fails = refl

on_block_device_change_failed_mount_example :
    (bd : BlockDevice) × ReportsFailure toolkit toolkit-IsLawful 7 wanting (codes "mount: EIO") bd
    × (on_block_device_change broken_node memory toolkit 7 (some wanting) broken_world
        ≡ done (
            let reply = memory.update bd devices in
            (
              (some reply.0.value, reply.0.error),
              record broken_world {
                host = (mount_device broken_node wanting.spec.dev_path (codes "/data/") files).1;
                cluster = reply.1;
              },
            )))
unfolding parent_block_device
on_block_device_change_failed_mount_example =
    on_block_device_change_failed_mount toolkit toolkit-IsLawful 7 wanting broken_node memory
      broken_world refl wanting_asks wanting_invalid (codes "mount: EIO") mount_fails

mount_works :
    (mount_device node wanting.spec.dev_path wanting.spec.file_system.mount_point files).0 ≡ none
unfolding everything
mount_works = refl

abbrev after_mount : node.State
after_mount = (mount_device node wanting.spec.dev_path (codes "/data/") files).1

abbrev disk_after : Disk
disk_after = value_or sda (get_disk_by_name node after_mount wanting.spec.dev_path)

disk_after_found : get_disk_by_name node after_mount wanting.spec.dev_path ≡ some disk_after
unfolding everything
disk_after_found = refl

on_block_device_change_mounted_example :
    (bd : BlockDevice) × (r : Handled) × (w' : World node memory) × ReportsMount toolkit
      toolkit-IsLawful 7 wanting disk_after bd
    × (on_block_device_change node memory toolkit 7 (some wanting) (world devices) ≡ done (r, w'))
    × MountedAt node wanting.spec.dev_path (codes "/data/") files w'.host
    × (((deep_equal wanting bd ≡ true) × (r ≡ (none, none)) × (w'.cluster ≡ devices))
        ⊎ ((deep_equal wanting bd ≡ false)
            × (r.1 ≡ (memory.update bd devices).0.error)
            × (w'.cluster ≡ (memory.update bd devices).1)))
unfolding parent_block_device
on_block_device_change_mounted_example =
    on_block_device_change_mounted toolkit toolkit-IsLawful 7 wanting node memory (world devices)
      refl wanting_asks wanting_invalid disk_after mount_works disk_after_found

condition_status_iff_example :
    ((status_of device_mounted (reported toolkit toolkit-IsLawful 7 mounted) ≡ codes "True")
      ↔ IsMounted toolkit mounted)
    × ((¬ IsMounted toolkit mounted)
        → (status_of device_mounted (reported toolkit toolkit-IsLawful 7 mounted) ≡ codes "False")
          × (some (message_of device_mounted (reported toolkit toolkit-IsLawful 7 mounted))
              ≡ (outcome toolkit mounted).0))
unfolding toolkit-IsLawful
condition_status_iff_example = condition_status_iff toolkit toolkit-IsLawful 7 mounted
