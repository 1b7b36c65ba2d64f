-- ===== src/Udev/Device/Names.antt =====
-- The names of an event's device, against the names that a scan gives.
use disk_manager.Base.{◌≡◌, refl, ap, ◌∙◌, some, [], ◌∷◌, ◌++◌, arith}
use disk_manager.Text.{Text, codes, split, trim_prefix, has_prefix}
use disk_manager.Text.Prefix.{Lacks, trim_prefix-append}
use disk_manager.Text.Splitting.{split-append, split-Lacks}
use disk_manager.Labels
use disk_manager.Labels.Laws.{get-lookup}
use disk_manager.Host.{Host}
use disk_manager.Util.{get_block_device_name}
use disk_manager.Block.Disk.{Disk, get_disk, get_disk_by_name}
use disk_manager.Devices.{get_full_dev_path, parent_block_device}
use disk_manager.Udev.Device.{UdevDevice, udev_devname, get_short_name}

split-dev :
    (name : Text)
    → Lacks b'/' name
    → split (codes "/dev/" ++ name) (codes "/") ≡ [] ∷ codes "dev" ∷ name ∷ []
split-dev name h =
    split-append b'/' [] [] (codes "dev/" ++ name) tt
    ∙ ap (◌∷◌ []) (
        split-append b'/' [] (codes "dev") name (omega arith)
        ∙ ap (◌∷◌ (codes "dev")) (split-Lacks b'/' [] name h))

-- The short name of /dev/NAME is NAME, for every name that has no slash.
pub get_short_name-get_full_dev_path :
    (device : UdevDevice) (name : Text)
    → Lacks b'/' name
    → Labels.lookup udev_devname device ≡ some (get_full_dev_path name)
    → get_short_name device ≡ name
unfolding get_short_name get_full_dev_path
get_short_name-get_full_dev_path device [] h e =
    rw (get-lookup udev_devname [] device e, split-Lacks b'/' [] [] tt)
get_short_name-get_full_dev_path device (c ∷ name) h e =
    rw (get-lookup udev_devname (codes "/dev/" ++ c ∷ name) device e, split-dev (c ∷ name) h)

get_disk_by_name-get_full_dev_path :
    (H : Host) (s : H.State) (name : Text)
    → get_disk_by_name H s (get_full_dev_path name) ≡ get_disk H s name
unfolding get_disk_by_name get_full_dev_path
get_disk_by_name-get_full_dev_path H s [] =
    ap (get_disk H s) (unfold trim_prefix has_prefix in refl)
get_disk_by_name-get_full_dev_path H s (c ∷ name) =
    ap (get_disk H s) (trim_prefix-append (codes "/dev/") (c ∷ name))

-- For a disk whose name has no slash, an event with the device path of the disk's resource names
-- that resource, and the path leads back to the disk.
pub event_names_resource :
    (H : Host) (s : H.State) (device : UdevDevice) (disk : Disk) (node namespace : Text)
    → Lacks b'/' disk.name
    → Labels.lookup udev_devname device
      ≡ some (parent_block_device H disk node namespace).spec.dev_path
    → (get_block_device_name (get_short_name device) node
        ≡ (parent_block_device H disk node namespace).object_meta.name)
      × (get_disk_by_name H s (parent_block_device H disk node namespace).spec.dev_path
          ≡ get_disk H s disk.name)
unfolding parent_block_device
event_names_resource H s device disk node namespace h e = (
  ap (λ n. get_block_device_name n node) (get_short_name-get_full_dev_path device disk.name h e),
  get_disk_by_name-get_full_dev_path H s disk.name,
)
