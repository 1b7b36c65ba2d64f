-- ===== src/Controller/Change.antt =====
-- pkg/controller/blockdevice/controller.go: `OnBlockDeviceChange`. The moments at which one call
-- reads the clock are one time, `now`.
pub mod Effect
pub mod Mounted
pub mod Settled
pub mod Attempts
use disk_manager.Base.{
  Bool, false, not, ◌&&◌, Option, none, some, List, [], ◌++◌, is_empty, if◌then◌else◌,
}
use disk_manager.Text.{Text, codes}
use disk_manager.Host.{Host}
use disk_manager.Api.{BlockDevice, Condition, FilesystemStatus, Time, device_mounted}
use disk_manager.Api.Equal.{deep_equal}
use disk_manager.Cluster.{Cluster, ApiError}
use disk_manager.Effects.{M, pure, reads, ◌>>=◌}
use disk_manager.World.{World, Toolkit, call, act}
use disk_manager.Block.Disk.{Disk, get_disk_by_name}
use disk_manager.Controller.FileSystem.{is_valid_file_system, mount_device}

-- A handler's object and error; `none` is nil.
abbrev pub Handled : Type 0
Handled = Option BlockDevice × Option ApiError

abbrev pub set_conditions : BlockDevice → List Condition → BlockDevice
set_conditions bd cs = record bd { status = record bd.status { conditions = cs } }

abbrev pub set_file_system : BlockDevice → FilesystemStatus → BlockDevice
set_file_system bd fs = record bd {
  status = record bd.status { device_status = record bd.status.device_status { file_system = fs } };
}

-- The time of formatting, where formatting is asked for and has not been done.
unfoldable pub stamp_formatted : Time → BlockDevice → BlockDevice
stamp_formatted now bd =
    let st = bd.status.device_status.file_system in
    elim st.last_formatted_at [
      | some t ↦ bd
      | none ↦
          if bd.spec.file_system.force_formatted
          then set_file_system bd (record st { last_formatted_at = some now })
          else bd
    ]

-- What the disk says of its file system after the mount.
unfoldable pub refresh_file_system : Disk → BlockDevice → BlockDevice
refresh_file_system disk bd = set_file_system bd (record bd.status.device_status.file_system {
  fs_type = disk.file_system_info.fs_type;
  mount_point = disk.file_system_info.mount_point;
})

module _ (K : Toolkit) (now : Time) where
  -- The condition `Mounted` after a mount that failed.
  unfoldable pub report_mount_error : Text → BlockDevice → BlockDevice
  report_mount_error e bd =
      let cs = K.set_status_bool now device_mounted false bd.status.conditions in
      set_conditions bd (
        K.set_error now device_mounted []
          (some (
            codes "failed to mount the device "
            ++ (bd.spec.dev_path
                ++ (codes " to path "
                    ++ (bd.spec.file_system.mount_point ++ (codes ", error:" ++ e))))))
          cs)

  -- The error of the check, if there is one, is also written as the message.
  unfoldable pub set_outcome : Option Text × Bool → BlockDevice → BlockDevice
  set_outcome (err, valid) bd =
      let mounted = valid && not (is_empty bd.status.device_status.file_system.mount_point) in
      let cs = K.set_status_bool now device_mounted mounted bd.status.conditions in
      let cs' = K.set_error now device_mounted [] err cs in
      set_conditions bd (elim err [ none ↦ cs' | some e ↦ K.set_message now device_mounted e cs' ])

  -- The condition `Mounted` as the file system's status has it.
  unfoldable pub report_mounted : BlockDevice → BlockDevice
  report_mounted bd =
      set_outcome (is_valid_file_system K bd.spec.file_system bd.status.device_status.file_system)
        bd

module _ (H : Host) (C : Cluster) (K : Toolkit) (now : Time) where
  -- The update of a device that has changed.
  unfoldable pub save_change : BlockDevice → BlockDevice → M (World H C) Handled
  save_change device reported = do
    reply ← call (C.update reported)
    elim reply.error [ some e ↦ pure (some device, some e) | none ↦ pure (none, none) ]

  -- The end of the handler: `cpy` is the working copy of `device`.
  unfoldable pub finish_change : BlockDevice → BlockDevice → M (World H C) Handled
  finish_change device cpy =
      let reported = report_mounted K now cpy in
      if not (deep_equal device reported) then save_change device reported else pure (none, none)

  -- The update after a mount that failed: its result is the handler's.
  unfoldable pub save_failure : BlockDevice → M (World H C) Handled
  save_failure reported = do reply ← call (C.update reported); pure (some reply.value, reply.error)

  unfoldable pub finish_mounted : BlockDevice → BlockDevice → M (World H C) Handled
  finish_mounted device cpy = do
    disk ← reads (λ w. get_disk_by_name H w.host cpy.spec.dev_path)
    finish_change device (refresh_file_system disk cpy)

  -- The disk operation, where the file system is not as it should be.
  unfoldable pub perform_change : BlockDevice → M (World H C) Handled
  perform_change device = do
    let cpy = stamp_formatted now device
    failed ← act (mount_device H cpy.spec.dev_path device.spec.file_system.mount_point)
    elim failed [
      | some e ↦ save_failure (report_mount_error K now e cpy)
      | none ↦ finish_mounted device cpy
    ]

  -- Behind the guards on the object.
  unfoldable pub change_device : BlockDevice → M (World H C) Handled
  change_device device =
      if not
        (is_valid_file_system K device.spec.file_system device.status.device_status.file_system).1
      then perform_change device
      else finish_change device device

  -- `OnBlockDeviceChange`
  unfoldable pub on_block_device_change : Option BlockDevice → M (World H C) Handled
  on_block_device_change none = pure (none, none)
  on_block_device_change (some device) = elim device.object_meta.deletion_timestamp [
    | some t ↦ pure (some device, none)
    | none ↦
        if is_empty device.spec.file_system.mount_point
        then pure (some device, none)
        else change_device device
  ]
