-- ===== src/Daemon/Events.antt =====
-- The handlers of udev events keep every object known.
use disk_manager.Base.{
  ℕ, zero, suc, Bool, Option, none, some, List, [], ◌∷◌, All, not, is_empty, if◌then◌else◌, ◌||◌,
}
use disk_manager.Text.{Text}
use disk_manager.Host.{Host}
use disk_manager.Api.{BlockDevice, Time}
use disk_manager.Api.Equal.{status_equal}
use disk_manager.Cluster.{Cluster, ApiError}
use disk_manager.Effects.{M, pure, panic, reads, ◌>>=◌, ◌>>◌}
use disk_manager.World.{World, Toolkit, call, sleep}
use disk_manager.Util.{get_block_device_name, is_longhorn_block_device}
use disk_manager.Block.Disk.{Disk, get_disk_by_name}
use disk_manager.Devices.{get_new_block_devices}
use disk_manager.Controller.Save.{save_block_device}
use disk_manager.Udev.Device.{
  UdevDevice, init_udev_device, is_disk, is_partition, get_short_name, get_id_path,
}
use disk_manager.Udev.Duration.{default_duration, double, exceeds_default, pause}
use disk_manager.Udev.Handlers.{
  Action, add, remove, online, offline, other_action, UEvent, Settings, state_of, is_failure,
  on_error, with_state, update_found, update_block_device, save_each, add_block_device,
  remove_block_device, dispatch, action_handler,
}
use disk_manager.Daemon.Ensures.{Ensures, bind-Ensures, if-Ensures, reads-Ensures}
use disk_manager.Daemon.Shared.{Shared}
use disk_manager.Daemon.Calls.{
  Any, AllKnown, AllListed, sleep-AllKnown, delete-AllKnown, update_status-AllKnown,
  cache_get-AllKnown, cache_list-AllKnown,
}
use disk_manager.Daemon.Known.{IsOwn, get_new_block_devices-IsOwn}
use disk_manager.Daemon.Saving.{save_block_device-AllKnown}

module _ (H : Host) (C : Cluster) (u : Settings) (S : Shared H u.node_name u.namespace C) where
  abbrev J : World H C → Type 0
  J = AllKnown H C u.namespace u.node_name S

  abbrev Safe : M (World H C) (Unit {0}) → Type 0
  Safe m = Ensures J Any m

  pause-AllKnown : (d : ℕ) → Safe (pause H C d)
  unfolding pause
  pause-AllKnown d =
      if-Ensures J Any (exceeds_default d) (sleep d) (pure tt)
        (sleep-AllKnown H C u.namespace u.node_name S d) (λ w i. (i, tt))

  on_error-AllKnown :
      (o : Option ApiError) (again : M (World H C) (Unit {0}))
      → Safe again
      → Safe (on_error o again)
  on_error-AllKnown none again h = λ w i. (i, tt)
  on_error-AllKnown (some e) again h = h

  -- A list is given an action, and then the rest.
  then-Safe : (m n : M (World H C) (Unit {0})) → Safe m → Safe n → Safe (m >> n)
  then-Safe m n hm hn = bind-Ensures J Any Any m (λ a. n) hm (λ a h. hn)

  module _ (K : Toolkit) (now : ℕ → Time) where
    update_found-AllKnown :
        (at : Time) (action : Action) (disk : Disk) (found : Option BlockDevice)
        (again : M (World H C) (Unit {0}))
        → Safe again
        → Safe (update_found H C K now u at action disk found again)
    unfolding update_found
    update_found-AllKnown at action disk found again h = by_state (state_of action) found
      where
        mounted : Bool
        mounted = not (is_empty disk.file_system_info.mount_point)

        by_state :
            (o : Option Text) (found : Option BlockDevice)
            → Safe (elim o [
              | none ↦ pure tt
              | some state ↦ elim found [
                | none ↦ panic
                | some bd ↦
                    let cpy = with_state K at state mounted bd in
                    if not (status_equal bd.status cpy.status)
                    then ((call (C.update_status cpy)) >>= λ reply. on_error reply.error again)
                    else pure tt
              ]
            ])
        by_state none found = λ w i. (i, tt)
        by_state (some state) none = λ w i. tt
        by_state (some state) (some bd) =
            let cpy = with_state K at state mounted bd in
            if-Ensures J Any (not (status_equal bd.status cpy.status))
              ((call (C.update_status cpy)) >>= λ reply. on_error reply.error again) (pure tt)
              (bind-Ensures J Any Any (call (C.update_status cpy))
                (λ reply. on_error reply.error again)
                (update_status-AllKnown H C u.namespace u.node_name S cpy)
                (λ reply k. on_error-AllKnown reply.error again h))
              (λ w i. (i, tt))

    update_block_device-AllKnown :
        (fuel : ℕ) (device : UdevDevice) (duration : ℕ) (action : Action)
        → Safe (update_block_device H C K now u fuel device duration action)
    unfolding update_block_device
    update_block_device-AllKnown zero device duration action = λ w i. tt
    update_block_device-AllKnown (suc fuel) device duration action =
        let dev_name = get_short_name device in
        let again = update_block_device H C K now u fuel device (double duration) action in
        let name = get_block_device_name dev_name u.node_name in
        then-Safe (pause H C duration) _ (pause-AllKnown duration) (
          bind-Ensures J Any Any (reads (λ w. get_disk_by_name H w.host dev_name)) _
            (reads-Ensures J Any (λ w. get_disk_by_name H w.host dev_name) (λ disk. tt))
            (λ disk h.
              bind-Ensures J Any Any (call (C.cache_get u.namespace name))
                (λ reply. update_found H C K now u (now fuel) action disk reply.value again)
                (cache_get-AllKnown H C u.namespace u.node_name S name)
                (λ reply k.
                  update_found-AllKnown (now fuel) action disk reply.value again
                    (update_block_device-AllKnown fuel device (double duration) action))))

    save_each-AllKnown :
        (again : M (World H C) (Unit {0})) (bds items : List BlockDevice)
        → Safe again
        → All (IsOwn u.node_name) bds
        → AllListed H C u.namespace u.node_name S items
        → Safe (save_each H C K now u again bds items)
    unfolding save_each
    save_each-AllKnown again [] items h own listed = λ w i. (i, tt)
    save_each-AllKnown again (bd ∷ bds) items h (own, owns) listed =
        bind-Ensures J Any Any (save_block_device H C bd items)
          (λ failed. on_error failed again >> save_each H C K now u again bds items)
          (save_block_device-AllKnown H C u.namespace u.node_name S bd own items listed)
          (λ failed k.
            then-Safe (on_error failed again) (save_each H C K now u again bds items)
              (on_error-AllKnown failed again h) (save_each-AllKnown again bds items h owns listed))

    add_block_device-AllKnown :
        (fuel : ℕ) (device : UdevDevice) (duration : ℕ)
        → Safe (add_block_device H C K now u fuel device duration)
    unfolding add_block_device
    add_block_device-AllKnown zero device duration = λ w i. tt
    add_block_device-AllKnown (suc fuel) device duration =
        let again = add_block_device H C K now u fuel device (double duration) in
        let afresh = add_block_device H C K now u fuel device (double default_duration) in
        then-Safe (pause H C duration) _ (pause-AllKnown duration) (
          bind-Ensures J Any Any (reads (λ w. get_disk_by_name H w.host (get_short_name device))) _
            (reads-Ensures J Any (λ w. get_disk_by_name H w.host (get_short_name device))
              (λ disk. tt))
            (λ disk h.
              let bds = get_new_block_devices H disk u.node_name u.namespace in
              bind-Ensures J (λ r. AllListed H C u.namespace u.node_name S r.value) Any
                (call (C.cache_list u.namespace []))
                (λ reply.
                  on_error reply.error again >> save_each H C K now u afresh bds reply.value)
                (cache_list-AllKnown H C u.namespace u.node_name S [])
                (λ reply k.
                  then-Safe (on_error reply.error again)
                    (save_each H C K now u afresh bds reply.value)
                    (on_error-AllKnown reply.error again
                      (add_block_device-AllKnown fuel device (double duration)))
                    (save_each-AllKnown afresh bds reply.value
                      (add_block_device-AllKnown fuel device (double default_duration))
                      (get_new_block_devices-IsOwn u.node_name H u.namespace disk) k))))

    remove_block_device-AllKnown :
        (fuel : ℕ) (device : UdevDevice) (duration : ℕ)
        → Safe (remove_block_device H C K now u fuel device duration)
    unfolding remove_block_device
    remove_block_device-AllKnown zero device duration = λ w i. tt
    remove_block_device-AllKnown (suc fuel) device duration =
        let name = get_block_device_name (get_short_name device) u.node_name in
        let again = remove_block_device H C K now u fuel device (double duration) in
        then-Safe (pause H C duration) _ (pause-AllKnown duration) (
          bind-Ensures J Any Any (call (C.delete u.namespace name))
            (λ failed. if is_failure failed then again else pure tt)
            (delete-AllKnown H C u.namespace u.node_name S name)
            (λ failed k.
              if-Ensures J Any (is_failure failed) again (pure tt)
                (remove_block_device-AllKnown fuel device (double duration)) (λ w i. (i, tt))))

    dispatch-AllKnown :
        (fuel : ℕ) (action : Action) (device : UdevDevice)
        → Safe (dispatch H C K now u fuel action device)
    unfolding dispatch
    dispatch-AllKnown fuel add device = add_block_device-AllKnown fuel device default_duration
    dispatch-AllKnown fuel remove device = remove_block_device-AllKnown fuel device default_duration
    dispatch-AllKnown fuel online device =
        update_block_device-AllKnown fuel device default_duration online
    dispatch-AllKnown fuel offline device =
        update_block_device-AllKnown fuel device default_duration offline
    dispatch-AllKnown fuel (other_action a) device = λ w i. (i, tt)

    pub action_handler-AllKnown :
        (fuel : ℕ) (uevent : UEvent) → Safe (action_handler H C K now u fuel uevent)
    unfolding action_handler
    action_handler-AllKnown fuel uevent =
        let device = init_udev_device uevent.env in
        if-Ensures J Any (is_longhorn_block_device (get_id_path device)) (pure tt)
          (if is_disk device || is_partition device
            then dispatch H C K now u fuel uevent.action device
            else pure tt)
          (λ w i. (i, tt))
          (if-Ensures J Any (is_disk device || is_partition device)
            (dispatch H C K now u fuel uevent.action device) (pure tt)
            (dispatch-AllKnown fuel uevent.action device) (λ w i. (i, tt)))
