-- ===== src/Daemon/Saving.antt =====
-- The functions that save found devices keep every object known.
use disk_manager.Base.{◌≡◌, refl, inl, Option, none, some, List, [], ◌∷◌, All, not, if◌then◌else◌}
use disk_manager.Text.{Text}
use disk_manager.Host.{Host}
use disk_manager.Api.{BlockDevice}
use disk_manager.Cluster.{Cluster, ApiError}
use disk_manager.Effects.{pure}
use disk_manager.World.{World, call}
use disk_manager.Block.Disk.{Disk}
use disk_manager.Controller.Save.{
  find_existing, with_status, with_spec_and_status, update, create, save_block_device,
  save_block_device_by_list, dynamic_equal, plain, pointer,
}
use disk_manager.Controller.Save.Desired.{name_of, find_existing-Memᴰ}
use disk_manager.Controller.Register.{
  Settings, found_block_devices, save_all_by_list, register_node_block_devices,
}
use disk_manager.Daemon.Ensures.{Ensures, bind-Ensures, if-Ensures, option-Ensures}
use disk_manager.Daemon.Calls.{
  Any, AllKnown, AllListed, create-AllKnown, update-AllKnown, list-AllKnown,
}
use disk_manager.Daemon.Shared.{Shared}
use disk_manager.Daemon.Known.{
  IsOwn, IsKnown, with_status-IsKnown, with_spec_and_status-IsOwn, found_block_devices-IsOwn,
}

module _ (H : Host) (C : Cluster) (ns node : Text) (S : Shared H node ns C) where
  abbrev J : World H C → Type 0
  J = AllKnown H C ns node S

  created-AllKnown : (bd : BlockDevice) → IsKnown node bd → Ensures J Any (create H C bd)
  unfolding create
  created-AllKnown bd k =
      bind-Ensures J Any Any (call (C.create bd)) (λ reply. pure reply.error)
        (create-AllKnown H C ns node S bd k) (λ reply h w i. (i, tt))

  updated-AllKnown : (bd : BlockDevice) → IsKnown node bd → Ensures J Any (update H C bd)
  unfolding update
  updated-AllKnown bd k =
      bind-Ensures J Any Any (call (C.update bd)) (λ reply. pure reply.error)
        (update-AllKnown H C ns node S bd k) (λ reply h w i. (i, tt))

  module _ (bd : BlockDevice) (own : IsOwn node bd) (items : List BlockDevice)
      (listed : AllListed H C ns node S items) where
    saved :
        (o : Option BlockDevice)
        → ((e : BlockDevice) → o ≡ some e → IsKnown node e × (name_of e ≡ name_of bd))
        → Ensures J Any (elim o [
          | none ↦ create H C bd
          | some e ↦
              if not (dynamic_equal (pointer e) (pointer bd))
              then update H C (with_spec_and_status e bd)
              else pure none
        ])
    saved none f = created-AllKnown bd (inl own)
    saved (some e) f =
        let (k, same) = f e refl in
        if-Ensures J Any (not (dynamic_equal (pointer e) (pointer bd)))
          (update H C (with_spec_and_status e bd)) (pure none)
          (updated-AllKnown (with_spec_and_status e bd)
            (inl (with_spec_and_status-IsOwn node e bd k same own)))
          (λ w i. (i, tt))

    saved_by_list :
        (o : Option BlockDevice)
        → ((e : BlockDevice) → o ≡ some e → IsKnown node e × (name_of e ≡ name_of bd))
        → Ensures J Any (elim o [
          | none ↦ create H C bd
          | some e ↦
              if not (dynamic_equal (plain e) (pointer bd))
              then update H C (with_status e bd)
              else pure none
        ])
    saved_by_list none f = created-AllKnown bd (inl own)
    saved_by_list (some e) f =
        if-Ensures J Any (not (dynamic_equal (plain e) (pointer bd)))
          (update H C (with_status e bd)) (pure none)
          (updated-AllKnown (with_status e bd) (with_status-IsKnown node e bd (f e refl).0))
          (λ w i. (i, tt))

    found :
        (e : BlockDevice)
        → find_existing bd items ≡ some e
        → IsKnown node e × (name_of e ≡ name_of bd)
    found e old = let (m, same) = find_existing-Memᴰ bd items old in (listed e m, same)

    pub save_block_device-AllKnown : Ensures J Any (save_block_device H C bd items)
    unfolding save_block_device
    save_block_device-AllKnown = saved (find_existing bd items) found

    pub save_block_device_by_list-AllKnown : Ensures J Any (save_block_device_by_list H C bd items)
    unfolding save_block_device_by_list
    save_block_device_by_list-AllKnown = saved_by_list (find_existing bd items) found

  save_all_by_list-AllKnown :
      (bds items : List BlockDevice)
      → All (IsOwn node) bds
      → AllListed H C ns node S items
      → Ensures J Any (save_all_by_list H C bds items)
  unfolding save_all_by_list
  save_all_by_list-AllKnown [] items own listed = λ w i. (i, tt)
  save_all_by_list-AllKnown (bd ∷ bds) items (own, owns) listed =
      bind-Ensures J Any Any (save_block_device_by_list H C bd items)
        (λ failed. elim failed [ some e ↦ pure (some e) | none ↦ save_all_by_list H C bds items ])
        (save_block_device_by_list-AllKnown bd own items listed)
        (λ failed h.
          option-Ensures J Any failed (save_all_by_list H C bds items) (λ e. pure (some e))
            (save_all_by_list-AllKnown bds items owns listed) (λ e w i. (i, tt)))

  pub register_node_block_devices-AllKnown :
      (disks : List Disk)
      → Ensures J Any (
          register_node_block_devices H C
            (record { namespace = ns; node_name = node; disks = disks }))
  unfolding register_node_block_devices
  register_node_block_devices-AllKnown disks =
      bind-Ensures J (λ r. r.error ≡ none → AllListed H C ns node S r.value) Any (call (C.list ns))
        (λ reply. elim reply.error [
          | some e ↦ pure (some e)
          | none ↦ save_all_by_list H C (found_block_devices H c disks) reply.value
        ])
        (list-AllKnown H C ns node S) (λ reply h. by_error reply.error reply.value h)
    where
      c : Settings
      c = record { namespace = ns; node_name = node; disks = disks }

      by_error :
          (o : Option ApiError) (items : List BlockDevice)
          → (o ≡ none → AllListed H C ns node S items)
          → Ensures J Any (elim o [
            | some e ↦ pure (some e)
            | none ↦ save_all_by_list H C (found_block_devices H c disks) items
          ])
      by_error none items h =
          save_all_by_list-AllKnown (found_block_devices H c disks) items
            (found_block_devices-IsOwn node H ns disks disks) (h refl)
      by_error (some e) items h = λ w i. (i, tt)
