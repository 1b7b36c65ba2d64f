-- ===== src/Udev/Handlers/Faults.antt =====
-- `UpdateBlockDevice` on the faults of the cache and of the cluster, and the events that
-- `ActionHandler` passes over.
use disk_manager.Base.{
  ℕ, zero, suc, ◌≡◌, ◌≢◌, refl, true, false, not, ◌||◌, none, some, List, [], ◌∷◌, ◌++◌, arith,
  is_empty, ◌⊎◌, inl, inr, Bool-cases, Option-cases,
}
use disk_manager.Text.{Text}
use disk_manager.Host.{Host}
use disk_manager.Cluster.{Cluster}
use disk_manager.Effects.{done, panicked, starved}
use disk_manager.World.{World, Toolkit}
use disk_manager.Api.{BlockDevice, Time}
use disk_manager.Api.Equal.{status_equal}
use disk_manager.Util.{get_block_device_name, is_longhorn_block_device}
use disk_manager.Block.Disk.{Disk, get_disk_by_name}
use disk_manager.Udev.Device.{UdevDevice, get_short_name, get_id_path, is_disk, is_partition}
use disk_manager.Udev.Duration.{double, pause, exceeds_default}
use disk_manager.Udev.Handlers.{
  Settings, Action, UEvent, state_of, with_state, update_found, update_block_device, dispatch,
  action_handler,
}

-- Events that the handler does nothing for: a device of Longhorn's, or neither a disk nor a partition.
abbrev pub IsIgnored : UEvent → Type 0
IsIgnored e =
    (is_longhorn_block_device (get_id_path e.env) ≡ true)
    ⊎ ((is_disk e.env || is_partition e.env) ≡ false)

module _ (H : Host) (C : Cluster) (K : Toolkit) (now : ℕ → Time) (u : Settings) where
  pub action_handler-IsIgnored :
      (fuel : ℕ) (e : UEvent) (w : World H C)
      → IsIgnored e
      → action_handler H C K now u fuel e w ≡ done (tt, w)
  unfolding action_handler
  action_handler-IsIgnored fuel e w ignored = ground arith

  pub pause-done :
      (d : ℕ) (w : World H C) → (l : List ℕ) × (pause H C d w ≡ done (tt, record w { slept = l }))
  unfolding pause
  pause-done d w = elim (Bool-cases (exceeds_default d)) [
    | inl e ↦ (w.slept ++ d ∷ [], ground arith)
    | inr e ↦ (w.slept, ground arith)
  ]

  abbrev pub event_name : UdevDevice → Text
  event_name device = get_block_device_name (get_short_name device) u.node_name

  -- An online or offline event of a disk or a partition that is not Longhorn's, whose disk can be
  -- read and whose resource the cache does not have, panics, with any fuel for a call.
  pub action_handler_panics :
      (fuel : ℕ) (e : UEvent) (w : World H C) (disk : Disk)
      → (e.action ≡ Action.online) ⊎ (e.action ≡ Action.offline)
      → is_longhorn_block_device (get_id_path e.env) ≡ false
      → (is_disk e.env || is_partition e.env) ≡ true
      → get_disk_by_name H w.host (get_short_name e.env) ≡ some disk
      → (C.cache_get u.namespace (event_name e.env) w.cluster).0.value ≡ none
      → action_handler H C K now u (suc fuel) e w ≡ panicked
  unfolding action_handler dispatch update_block_device update_found pause exceeds_default
  action_handler_panics fuel e w disk (inl a) foreign kind found missing = rw a ground arith
  action_handler_panics fuel e w disk (inr a) foreign kind found missing = rw a ground arith

  -- A cluster that has a device whose state differs at any time and refuses each update of a status.
  pub record Refuses (state : Text) (name : Text) (disk : Disk) : Type 0 where
    pub cached :
        (left : ℕ) (c : C.State)
        → (bd : BlockDevice) × ((C.cache_get u.namespace name c).0.value ≡ some bd)
          × (status_equal bd.status
                (with_state K
                  (now left)
                  state
                  (not (is_empty disk.file_system_info.mount_point))
                  bd).status
              ≡ false)
    pub refused : (bd : BlockDevice) (c : C.State) → (C.update_status bd c).0.error ≢ none

  -- For an online or offline action on a disk that can be read: while each update of the status is
  -- refused and the device differs, the handler does not return for any fuel.
  pub update_block_device_starves :
      (fuel d : ℕ) (device : UdevDevice) (action : Action) (state : Text) (disk : Disk)
      (w : World H C)
      → state_of action ≡ some state
      → get_disk_by_name H w.host (get_short_name device) ≡ some disk
      → Refuses state (event_name device) disk
      → update_block_device H C K now u fuel device d action w ≡ starved
  unfolding update_block_device update_found
  update_block_device_starves zero d device action state disk w a found r = refl
  update_block_device_starves (suc fuel) d device action state disk w a found r =
      let (l, paused) = pause-done d w in
      let (bd, cached, differs) = r.cached fuel w.cluster in
      let cpy =
        with_state K (now fuel) state (not (is_empty disk.file_system_info.mount_point)) bd in
      let reply = C.update_status cpy (C.cache_get u.namespace (event_name device) w.cluster).1 in
      let again =
        update_block_device_starves fuel (double d) device action state disk
          (record w { cluster = reply.1; slept = l }) a found r in
      elim (Option-cases reply.0.error) [
        | inl accepted ↦ absurd (r.refused cpy _ accepted)
        | inr (e, failed) ↦ ground arith
      ]
