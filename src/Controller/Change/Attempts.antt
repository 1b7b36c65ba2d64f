-- ===== src/Controller/Change/Attempts.antt =====
-- The disk operation of `OnBlockDeviceChange`: what is written where it fails and where it works.
use disk_manager.Base.{
  ◌≡◌, ◌↔◌, refl, ap, ◌∙◌, ◌⊎◌, inl, inr, true, false, Option, none, some, [], arith, is_empty,
  ◌++◌, Bool-cases, if◌then◌else◌,
}
use disk_manager.Text.{Text, codes}
use disk_manager.Host.{Host}
use disk_manager.Api.{BlockDevice, Time, device_mounted}
use disk_manager.Api.Equal.{deep_equal}
use disk_manager.Cluster.{Cluster}
use disk_manager.Effects.{done}
use disk_manager.World.{World, Toolkit}
use disk_manager.Block.Disk.{Disk, get_disk_by_name}
use disk_manager.Controller.FileSystem.Mounting.{MountedAt, mount_device-MountedAt}
use disk_manager.Controller.FileSystem.{is_valid_file_system, mount_device}
use disk_manager.Controller.Change.{
  Handled, stamp_formatted, refresh_file_system, report_mount_error, set_outcome, report_mounted,
  save_change, finish_change, save_failure, finish_mounted, perform_change, change_device,
  on_block_device_change,
}
use disk_manager.Controller.Change.Effect.{
  Keeps, stamp_formatted-Keeps, refresh_file_system-Keeps, report_mount_error-Keeps,
  report_mounted-Keeps,
}
use disk_manager.Controller.Change.Mounted.{IsLawful, IsMounted, condition_status_iff}

module _ (K : Toolkit) (T : IsLawful K) (now : Time) (device : BlockDevice) where
  -- The time of formatting is set where formatting is asked for and has no time yet.
  abbrev pub formatted_at : Option Time
  formatted_at = elim device.status.device_status.file_system.last_formatted_at [
    | some t ↦ some t
    | none ↦ if device.spec.file_system.force_formatted then some now else none
  ]

  stamped-formatted_at :
      (stamp_formatted now device).status.device_status.file_system.last_formatted_at ≡ formatted_at
  unfolding stamp_formatted
  stamped-formatted_at = ground arith

  stamped-dev_path : (stamp_formatted now device).spec.dev_path ≡ device.spec.dev_path
  unfolding stamp_formatted
  stamped-dev_path = ground arith

  -- What is written of a mount that failed: the condition is False, with the error and the paths.
  pub record ReportsFailure (e : Text) (bd : BlockDevice) : Type 0 where
    pub keeps : Keeps bd device
    pub formatted : bd.status.device_status.file_system.last_formatted_at ≡ formatted_at
    pub status : T.status_of device_mounted bd.status.conditions ≡ codes "False"
    pub message :
        T.message_of device_mounted bd.status.conditions
        ≡ codes "failed to mount the device "
          ++ (device.spec.dev_path
              ++ (codes " to path "
                  ++ (device.spec.file_system.mount_point ++ (codes ", error:" ++ e))))

  failure_report-ReportsFailure :
      (e : Text) → ReportsFailure e (report_mount_error K now e (stamp_formatted now device))
  unfolding report_mount_error
  failure_report-ReportsFailure e =
      let k = stamp_formatted-Keeps K now device in
      record {
        keeps = report_mount_error-Keeps K now e (stamp_formatted now device) device k;
        formatted = stamped-formatted_at;
        status = T.status-set_error now device_mounted [] _ _;
        message =
            T.message-set_error now device_mounted [] _ _
            ∙ ap
                (λ spec.
                  codes "failed to mount the device "
                  ++ (spec.dev_path
                      ++ (codes " to path "
                          ++ (spec.file_system.mount_point ++ (codes ", error:" ++ e)))))
                k.spec;
      }

  -- What is reported of a mount that worked: the file system that the disk has now, and a condition
  -- that is True just where it is the one that is asked for.
  pub record ReportsMount (disk : Disk) (bd : BlockDevice) : Type 0 where
    pub keeps : Keeps bd device
    pub formatted : bd.status.device_status.file_system.last_formatted_at ≡ formatted_at
    pub fs_type : bd.status.device_status.file_system.fs_type ≡ disk.file_system_info.fs_type
    pub mount_point :
        bd.status.device_status.file_system.mount_point ≡ disk.file_system_info.mount_point
    pub condition :
        (T.status_of device_mounted bd.status.conditions ≡ codes "True") ↔ IsMounted K bd

  mount_report-ReportsMount :
      (disk : Disk)
      → ReportsMount disk
          (report_mounted K now (refresh_file_system disk (stamp_formatted now device)))
  unfolding report_mounted set_outcome refresh_file_system
  mount_report-ReportsMount disk =
      let cpy = refresh_file_system disk (stamp_formatted now device) in
      let (iff, _) = condition_status_iff K T now cpy in
      record {
        keeps = report_mounted-Keeps K now cpy device (
            refresh_file_system-Keeps K now disk (stamp_formatted now device) device
              (stamp_formatted-Keeps K now device));
        formatted = stamped-formatted_at;
        fs_type = refl;
        mount_point = refl;
        condition = (
          λ h. let m = iff.0 h in record { in_place = m.in_place; supported = m.supported },
          λ m. iff.1 (record { in_place = m.in_place; supported = m.supported }),
        );
      }

  module _ (H : Host) (C : Cluster) (w : World H C)
      (alive : device.object_meta.deletion_timestamp ≡ none)
      (asked : is_empty device.spec.file_system.mount_point ≡ false)
      (bad : (is_valid_file_system K device.spec.file_system
          device.status.device_status.file_system).1
        ≡ false) where
    -- The handler's disk operation: its error, and the node after it.
    abbrev pub attempt : Option Text × H.State
    attempt = mount_device H device.spec.dev_path device.spec.file_system.mount_point w.host

    -- For a device that has a mount point, is not being deleted and is not mounted as it should be, and
    -- whose mount fails: the mount is tried once, and there is one update, of an object that keeps the
    -- device's metadata, specification and state, and has the condition Mounted False with the error
    -- in its message, and the time of formatting where that is asked for. The reply of the update is
    -- the handler's result. The conditions keep their laws.
    pub on_block_device_change_failed_mount :
        (e : Text)
        → attempt.0 ≡ some e
        → (bd : BlockDevice) × ReportsFailure e bd
          × (on_block_device_change H C K now (some device) w
              ≡ done (
                  let reply = C.update bd w.cluster in
                  (
                    (some reply.0.value, reply.0.error),
                    record w { host = attempt.1; cluster = reply.1 },
                  )))
    unfolding on_block_device_change change_device perform_change save_failure
    on_block_device_change_failed_mount e failed = (
      report_mount_error K now e (stamp_formatted now device),
      failure_report-ReportsFailure e,
      ground (arith, stamped-dev_path),
    )

    -- For a device that has a mount point, is not being deleted and is not mounted as it should be: if
    -- the mount succeeds and the disk can be read after it, the call ends; the kernel has mounted the
    -- device, on a directory that was there or was made. The device is reported with its metadata,
    -- specification and state, the file system that the disk has now, and the condition Mounted True
    -- just where that is the one asked for; there is one update, of this report, or none if the report
    -- is equal to the device. The conditions keep their laws.
    pub on_block_device_change_mounted :
        (disk : Disk)
        → attempt.0 ≡ none
        → get_disk_by_name H attempt.1 device.spec.dev_path ≡ some disk
        → (bd : BlockDevice) × (r : Handled) × (w' : World H C) × ReportsMount disk bd
          × (on_block_device_change H C K now (some device) w ≡ done (r, w'))
          × MountedAt H device.spec.dev_path device.spec.file_system.mount_point w.host w'.host
          × (((deep_equal device bd ≡ true) × (r ≡ (none, none)) × (w'.cluster ≡ w.cluster))
              ⊎ ((deep_equal device bd ≡ false)
                  × (r.1 ≡ (C.update bd w.cluster).0.error)
                  × (w'.cluster ≡ (C.update bd w.cluster).1)))
    unfolding on_block_device_change change_device perform_change finish_mounted finish_change
        save_change
    on_block_device_change_mounted disk fine found =
        let bd = report_mounted K now (refresh_file_system disk (stamp_formatted now device)) in
        let reply = C.update bd w.cluster in
        let placed =
          mount_device-MountedAt H device.spec.dev_path device.spec.file_system.mount_point w.host
            fine in
        elim (Bool-cases (deep_equal device bd)) [
          | inl same ↦ (
            bd,
            (none, none),
            record w { host = attempt.1 },
            mount_report-ReportsMount disk,
            ground (arith, stamped-dev_path),
            placed,
            inl (same, refl, refl),
          )
          | inr other ↦ (
            bd,
            (elim reply.0.error [ none ↦ none | some e ↦ some device ], reply.0.error),
            record w { host = attempt.1; cluster = reply.1 },
            mount_report-ReportsMount disk,
            ground (arith, stamped-dev_path),
            placed,
            inr (other, refl, refl),
          )
        ]
