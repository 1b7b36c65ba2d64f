-- ===== src/Controller/Change/Effect.antt =====
-- What one call of `OnBlockDeviceChange` does to the node and to the cluster.
use disk_manager.Base.{
  ◌≡◌, ◌≢◌, refl, ◌⊎◌, true, none, some, arith, Bool-cases, Option-cases, inl, inr, is_empty,
}
use disk_manager.Text.{Text}
use disk_manager.Host.{Host}
use disk_manager.Api.{BlockDevice, Time}
use disk_manager.Api.Equal.{deep_equal}
use disk_manager.Cluster.{Cluster}
use disk_manager.Effects.{Run, done}
use disk_manager.World.{World, Toolkit}
use disk_manager.Block.Disk.{Disk}
use disk_manager.Controller.FileSystem.{is_valid_file_system}
use disk_manager.Controller.Change.{
  Handled, stamp_formatted, refresh_file_system, report_mount_error, set_outcome, report_mounted,
  save_change, finish_change, change_device, on_block_device_change,
}

-- The parts of a device that the handler never writes.
pub record Keeps (a b : BlockDevice) : Type 0 where
  pub object_meta : a.object_meta ≡ b.object_meta
  pub spec : a.spec ≡ b.spec
  pub state : a.status.state ≡ b.status.state
  pub parent_device : a.status.device_status.parent_device ≡ b.status.device_status.parent_device
  pub partitioned : a.status.device_status.partitioned ≡ b.status.device_status.partitioned
  pub capacity : a.status.device_status.capacity ≡ b.status.device_status.capacity
  pub details : a.status.device_status.details ≡ b.status.device_status.details

pub Keeps-self : (bd : BlockDevice) → Keeps bd bd
Keeps-self bd = ground arith

module _ (K : Toolkit) (now : Time) where
  pub stamp_formatted-Keeps : (bd : BlockDevice) → Keeps (stamp_formatted now bd) bd
  unfolding stamp_formatted
  stamp_formatted-Keeps bd = ground arith

  pub refresh_file_system-Keeps :
      (disk : Disk) (a b : BlockDevice) → Keeps a b → Keeps (refresh_file_system disk a) b
  unfolding refresh_file_system
  refresh_file_system-Keeps disk a b k = ground arith

  pub report_mount_error-Keeps :
      (e : Text) (a b : BlockDevice) → Keeps a b → Keeps (report_mount_error K now e a) b
  unfolding report_mount_error
  report_mount_error-Keeps e a b k = ground arith

  pub report_mounted-Keeps : (a b : BlockDevice) → Keeps a b → Keeps (report_mounted K now a) b
  unfolding report_mounted set_outcome
  report_mounted-Keeps a b k = ground arith

module _ (H : Host) (C : Cluster) (K : Toolkit) (now : Time) (device : BlockDevice) where
  -- At most one update was made, of an object that keeps the device's metadata and specification.
  abbrev pub Updates : World H C → World H C → Type 0
  Updates w w' =
      (w'.cluster ≡ w.cluster)
      ⊎ ((bd : BlockDevice) × Keeps bd device × (w'.cluster ≡ (C.update bd w.cluster).1))

  -- The run has ended, without any effect on the node.
  abbrev pub Quiet : World H C → Run (Handled × World H C) → Type 0
  Quiet w run =
      (r : Handled) × (w' : World H C) × (run ≡ done (r, w'))
      × ((w'.host ≡ w.host) × (w'.slept ≡ w.slept) × Updates w w')

  finish_change-Quiet :
      (cpy : BlockDevice) (w : World H C)
      → Keeps cpy device
      → Quiet w (finish_change H C K now device cpy w)
  unfolding finish_change save_change
  finish_change-Quiet cpy w k =
      let bd = report_mounted K now cpy in
      let reply = C.update bd w.cluster in
      elim (Bool-cases (deep_equal device bd)) [
        | inl same ↦ ((none, none), w, ground arith, (refl, refl, inl refl))
        | inr other ↦ (
          (elim reply.0.error [ none ↦ none | some e ↦ some device ], reply.0.error),
          record w { cluster = reply.1 },
          ground arith,
          (refl, refl, inr (bd, report_mounted-Keeps K now cpy device k, refl)),
        )
      ]

  -- For a device that is being deleted, or has no mount point, or whose file system is as it should be,
  -- the call ends without an effect on the node; the cluster is as before, or has had one update, of an
  -- object that keeps the device's metadata, specification and state.
  pub on_block_device_change-Quiet :
      (w : World H C)
      → (device.object_meta.deletion_timestamp ≢ none)
        ⊎ ((is_empty device.spec.file_system.mount_point ≡ true)
            ⊎ ((is_valid_file_system K device.spec.file_system
                  device.status.device_status.file_system).1
                ≡ true))
      → Quiet w (on_block_device_change H C K now (some device) w)
  unfolding on_block_device_change change_device
  on_block_device_change-Quiet w guard = elim (Option-cases device.object_meta.deletion_timestamp) [
    | inr (t, e) ↦ ((some device, none), w, ground arith, (refl, refl, inl refl))
    | inl alive ↦ elim (Bool-cases (is_empty device.spec.file_system.mount_point)) [
      | inl e ↦ ((some device, none), w, ground arith, (refl, refl, inl refl))
      | inr e ↦
          let (r, w', ran, rest) = finish_change-Quiet device w (Keeps-self device) in
          (r, w', ground arith, rest)
    ]
  ]
