-- ===== src/Daemon/Changing.antt =====
-- The change handler keeps every object known.
use disk_manager.Base.{none, some, not, is_empty, ap, if◌then◌else◌}
use disk_manager.Text.{Text}
use disk_manager.Labels.{lookup}
use disk_manager.Host.{Host}
use disk_manager.Api.{BlockDevice, Time}
use disk_manager.Api.Equal.{deep_equal}
use disk_manager.Cluster.{Cluster}
use disk_manager.Effects.{M, pure, reads}
use disk_manager.World.{World, Toolkit, call, act}
use disk_manager.Block.Disk.{get_disk_by_name}
use disk_manager.Devices.{label_hostname}
use disk_manager.Controller.FileSystem.{is_valid_file_system, mount_device}
use disk_manager.Controller.Change.{
  Handled, stamp_formatted, refresh_file_system, report_mount_error, report_mounted, save_change,
  finish_change, save_failure, finish_mounted, perform_change, change_device,
  on_block_device_change,
}
use disk_manager.Controller.Change.Effect.{
  Keeps, Keeps-self, stamp_formatted-Keeps, refresh_file_system-Keeps, report_mount_error-Keeps,
  report_mounted-Keeps,
}
use disk_manager.Daemon.Ensures.{Ensures, bind-Ensures, if-Ensures, option-Ensures, reads-Ensures}
use disk_manager.Daemon.Shared.{Shared}
use disk_manager.Daemon.Calls.{Any, AllKnown, update-AllKnown, act-AllKnown}
use disk_manager.Daemon.Known.{IsKnown, SameIdentity, IsKnown-identity}

Keeps-SameIdentity : (a b : BlockDevice) → Keeps a b → SameIdentity a b
Keeps-SameIdentity a b k = record {
  name = ap (λ m. m.name) k.object_meta;
  hostname = ap (λ m. lookup label_hostname m.labels) k.object_meta;
  node_name = ap (λ s. s.node_name) k.spec;
  dev_path = ap (λ s. s.dev_path) k.spec;
}

module _ (H : Host) (C : Cluster) (ns node : Text) (S : Shared H node ns C) where
  module _ (K : Toolkit) (now : Time) (device : BlockDevice) (known : IsKnown node device) where
    abbrev Safe : {A : Type 0} → M (World H C) A → Type 0
    Safe m = Ensures (AllKnown H C ns node S) Any m

    kept-IsKnown : (cpy : BlockDevice) → Keeps cpy device → IsKnown node cpy
    kept-IsKnown cpy k = IsKnown-identity node cpy device (Keeps-SameIdentity cpy device k) known

    update_kept :
        (cpy : BlockDevice)
        → Keeps cpy device
        → Ensures (AllKnown H C ns node S) Any (call {H = H} (C.update cpy))
    update_kept cpy k = update-AllKnown H C ns node S cpy (kept-IsKnown cpy k)

    save_change-AllKnown :
        (cpy : BlockDevice) → Keeps cpy device → Safe (save_change H C K now device cpy)
    unfolding save_change
    save_change-AllKnown cpy k =
        bind-Ensures (AllKnown H C ns node S) {B = Handled} Any Any (call (C.update cpy))
          (λ reply. elim reply.error [
            | some e ↦ pure (some device, some e)
            | none ↦ pure (none, none)
          ])
          (update_kept cpy k)
          (λ reply h.
            option-Ensures (AllKnown H C ns node S) Any reply.error (pure (none, none))
              (λ e. pure (some device, some e)) (λ w i. (i, tt)) (λ e w i. (i, tt)))

    save_failure-AllKnown :
        (cpy : BlockDevice) → Keeps cpy device → Safe (save_failure H C K now cpy)
    unfolding save_failure
    save_failure-AllKnown cpy k =
        bind-Ensures (AllKnown H C ns node S) {B = Handled} Any Any (call (C.update cpy))
          (λ reply. pure (some reply.value, reply.error)) (update_kept cpy k)
          (λ reply h w i. (i, tt))

    finish_change-AllKnown :
        (cpy : BlockDevice) → Keeps cpy device → Safe (finish_change H C K now device cpy)
    unfolding finish_change
    finish_change-AllKnown cpy k =
        if-Ensures (AllKnown H C ns node S) Any (not (deep_equal device (report_mounted K now cpy)))
          (save_change H C K now device (report_mounted K now cpy)) (pure (none, none))
          (save_change-AllKnown (report_mounted K now cpy)
            (report_mounted-Keeps K now cpy device k))
          (λ w i. (i, tt))

    finish_mounted-AllKnown :
        (cpy : BlockDevice) → Keeps cpy device → Safe (finish_mounted H C K now device cpy)
    unfolding finish_mounted
    finish_mounted-AllKnown cpy k =
        bind-Ensures (AllKnown H C ns node S) {B = Handled} Any Any
          (reads (λ w. get_disk_by_name H w.host cpy.spec.dev_path))
          (λ disk. finish_change H C K now device (refresh_file_system disk cpy))
          (reads-Ensures (AllKnown H C ns node S) Any
            (λ w. get_disk_by_name H w.host cpy.spec.dev_path) (λ disk. tt))
          (λ disk h.
            finish_change-AllKnown (refresh_file_system disk cpy)
              (refresh_file_system-Keeps K now disk cpy device k))

    perform_change-AllKnown : Safe (perform_change H C K now device)
    unfolding perform_change
    perform_change-AllKnown =
        let cpy = stamp_formatted now device in
        let stamped = stamp_formatted-Keeps K now device in
        bind-Ensures (AllKnown H C ns node S) {B = Handled} Any Any
          (act (mount_device H cpy.spec.dev_path device.spec.file_system.mount_point))
          (λ failed. elim failed [
            | some e ↦ save_failure H C K now (report_mount_error K now e cpy)
            | none ↦ finish_mounted H C K now device cpy
          ])
          (act-AllKnown H C ns node S
            (mount_device H cpy.spec.dev_path device.spec.file_system.mount_point))
          (λ failed h.
            option-Ensures (AllKnown H C ns node S) Any failed (finish_mounted H C K now device cpy)
              (λ e. save_failure H C K now (report_mount_error K now e cpy))
              (finish_mounted-AllKnown cpy stamped)
              (λ e.
                save_failure-AllKnown (report_mount_error K now e cpy)
                  (report_mount_error-Keeps K now e cpy device stamped)))

    change_device-AllKnown : Safe (change_device H C K now device)
    unfolding change_device
    change_device-AllKnown =
        if-Ensures (AllKnown H C ns node S) Any
          (not
            (is_valid_file_system K device.spec.file_system
              device.status.device_status.file_system).1)
          (perform_change H C K now device) (finish_change H C K now device device)
          perform_change-AllKnown (finish_change-AllKnown device (Keeps-self device))

    pub on_block_device_change-AllKnown : Safe (on_block_device_change H C K now (some device))
    unfolding on_block_device_change
    on_block_device_change-AllKnown =
        option-Ensures (AllKnown H C ns node S) Any device.object_meta.deletion_timestamp
          (if is_empty device.spec.file_system.mount_point
            then pure (some device, none)
            else change_device H C K now device)
          (λ t. pure (some device, none))
          (if-Ensures (AllKnown H C ns node S) Any (is_empty device.spec.file_system.mount_point)
            (pure (some device, none)) (change_device H C K now device) (λ w i. (i, tt))
            change_device-AllKnown)
          (λ t w i. (i, tt))
