-- ===== src/Udev/Handlers.antt =====
-- pkg/udev/uevent.go: the handlers of udev events. Each may call itself again for as long as the
-- cluster fails; the calls are on fuel, and a run that uses it up has starved.
pub mod Removal
pub mod Addition
pub mod Faults
use disk_manager.Base.{
  ℕ, zero, suc, Bool, false, not, ◌||◌, Option, none, some, List, [], ◌∷◌, is_empty, if◌then◌else◌,
}
use disk_manager.Text.{Text}
use disk_manager.Host.{Host}
use disk_manager.Api.{BlockDevice, Time, device_mounted, block_device_active, block_device_inactive}
use disk_manager.Api.Equal.{status_equal}
use disk_manager.Cluster.{Cluster, ApiError}
use disk_manager.Effects.{M, pure, panic, reads, starve, ◌>>=◌, ◌>>◌}
use disk_manager.World.{World, Toolkit, call}
use disk_manager.Util.{get_block_device_name, is_longhorn_block_device}
use disk_manager.Block.Disk.{Disk, get_disk_by_name}
use disk_manager.Devices.{get_new_block_devices}
use disk_manager.Controller.Save.{save_block_device}
use disk_manager.Udev.Device.{
  UdevDevice, init_udev_device, is_disk, is_partition, get_short_name, get_id_path,
}
use disk_manager.Udev.Duration.{default_duration, double, pause}

-- The actions of netlink.
pub data Action : Type 0 where
  add remove online offline : Action
  other_action : Text → Action

pub record UEvent : Type 0 where
  pub action : Action
  pub env : UdevDevice

-- The values that `Udev` holds.
pub record Settings : Type 0 where
  pub namespace : Text
  pub node_name : Text

-- The state that an action gives a device, if the switch has a case for it.
abbrev pub state_of : Action → Option Text
state_of online = some block_device_active
state_of offline = some block_device_inactive
state_of add = none
state_of remove = none
state_of (other_action a) = none

-- An error that is not `NotFound`
abbrev pub is_failure : Option ApiError → Bool
is_failure none = false
is_failure (some e) = not e.not_found

-- `if err != nil { … }`
abbrev pub on_error : {S : Type 0} → Option ApiError → M S (Unit {0}) → M S (Unit {0})
on_error none again = pure tt
on_error (some e) again = again

module _ (K : Toolkit) (now : Time) where
  -- The copy with its state and its condition written.
  unfoldable pub with_state : Text → Bool → BlockDevice → BlockDevice
  with_state state mounted bd = record bd {
    status = record bd.status {
      state = state;
      conditions = K.set_status_bool now device_mounted mounted bd.status.conditions;
    };
  }

-- `now` is the time at a call, by the fuel that is left after it.
module _ (H : Host) (C : Cluster) (K : Toolkit) (now : ℕ → Time) (u : Settings) where
  -- Behind the cache: `again` is the call with twice the duration. A device that the cache does not
  -- have is a nil pointer, and its copy too: the write of the state panics.
  unfoldable pub update_found :
      Time
      → Action
      → Disk
      → Option BlockDevice
      → M (World H C) (Unit {0})
      → M (World H C) (Unit {0})
  update_found at action disk found again = elim (state_of action) [
    | none ↦ pure tt
    | some state ↦ elim found [
      | none ↦ panic
      | some bd ↦
          let cpy = with_state K at state (not (is_empty disk.file_system_info.mount_point)) bd in
          if not (status_equal bd.status cpy.status)
          then ((call (C.update_status cpy)) >>= λ reply. on_error reply.error again)
          else pure tt
    ]
  ]

  -- `UpdateBlockDevice`
  unfoldable pub update_block_device : ℕ → UdevDevice → ℕ → Action → M (World H C) (Unit {0})
  update_block_device zero device duration action = starve
  update_block_device (suc fuel) device duration action = do
    pause H C duration
    let dev_name = get_short_name device
    disk ← reads (λ w. get_disk_by_name H w.host dev_name)
    reply ← call (C.cache_get u.namespace (get_block_device_name dev_name u.node_name))
    update_found (now fuel) action disk reply.value
        (update_block_device fuel device (double duration) action)

  -- The loop of `AddBlockDevice` over the new devices: an error is answered by `again`, and the loop
  -- goes on.
  unfoldable pub save_each :
      M (World H C) (Unit {0}) → List BlockDevice → List BlockDevice → M (World H C) (Unit {0})
  save_each again [] bds = pure tt
  save_each again (bd ∷ rest) bds = do
    failed ← save_block_device H C bd bds
    on_error failed again
    save_each again rest bds

  -- `AddBlockDevice`: after an error of the list it calls itself, and then goes on with what the
  -- list returned.
  unfoldable pub add_block_device : ℕ → UdevDevice → ℕ → M (World H C) (Unit {0})
  add_block_device zero device duration = starve
  add_block_device (suc fuel) device duration = do
    pause H C duration
    disk ← reads (λ w. get_disk_by_name H w.host (get_short_name device))
    let bds = get_new_block_devices H disk u.node_name u.namespace
    reply ← call (C.cache_list u.namespace [])
    on_error reply.error (add_block_device fuel device (double duration))
    save_each (add_block_device fuel device (double default_duration)) bds reply.value

  -- `RemoveBlockDevice`
  unfoldable pub remove_block_device : ℕ → UdevDevice → ℕ → M (World H C) (Unit {0})
  remove_block_device zero device duration = starve
  remove_block_device (suc fuel) device duration = do
    pause H C duration
    failed ← call (C.delete u.namespace (get_block_device_name (get_short_name device) u.node_name))
    if is_failure failed then remove_block_device fuel device (double duration) else pure tt

  -- The switch of `ActionHandler`
  unfoldable pub dispatch : ℕ → Action → UdevDevice → M (World H C) (Unit {0})
  dispatch fuel add device = add_block_device fuel device default_duration
  dispatch fuel remove device = remove_block_device fuel device default_duration
  dispatch fuel online device = update_block_device fuel device default_duration online
  dispatch fuel offline device = update_block_device fuel device default_duration offline
  dispatch fuel (other_action a) device = pure tt

  -- `ActionHandler`
  unfoldable pub action_handler : ℕ → UEvent → M (World H C) (Unit {0})
  action_handler fuel uevent =
      let device = init_udev_device uevent.env in
      if is_longhorn_block_device (get_id_path device)
      then pure tt
      else if is_disk device || is_partition device
      then dispatch fuel uevent.action device
      else pure tt
