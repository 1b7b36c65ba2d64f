-- ===== src/Devices/Labelled.antt =====
-- The names and the labels of the devices of a disk, and the selectors that find them.
use disk_manager.Base.{◌≡◌, refl, ap, true, false, List, [], ◌∷◌, map, All}
use disk_manager.Text.{Text, equals}
use disk_manager.Text.Prefix.{equals_self}
use disk_manager.Labels.{Labels, includes, lookup, insert}
use disk_manager.Host.{Host}
use disk_manager.Util.{get_block_device_name}
use disk_manager.Block.Disk.{Disk, Partition}
use disk_manager.Api.{BlockDevice}
use disk_manager.Devices.{
  partition_block_device, get_partition_block_devices, parent_block_device, get_new_block_devices,
  parent_device_label, label_hostname,
}

-- The set of the selector for the devices that have the parent.
abbrev pub children_of : Text → Labels
children_of parent = (parent_device_label, parent) ∷ []

-- The set of the selector for the devices of the node.
abbrev pub devices_of : Text → Labels
devices_of node = (label_hostname, node) ∷ []

abbrev pub labels_of : BlockDevice → Labels
labels_of bd = bd.object_meta.labels

module _ (H : Host) (disk : Disk) (node namespace : Text) where
  abbrev parent : BlockDevice
  parent = parent_block_device H disk node namespace

  partition-names :
      (ps : List Partition)
      → map (λ bd. bd.object_meta.name) (map (partition_block_device parent node) ps)
        ≡ map (λ n. get_block_device_name n node) (map (λ p. p.name) ps)
  unfolding partition_block_device
  partition-names [] = refl
  partition-names (p ∷ ps) = ap (◌∷◌ (get_block_device_name p.name node)) (partition-names ps)

  partition-labels :
      (p : Partition)
      → (includes (devices_of node) (labels_of (partition_block_device parent node p)) ≡ true)
        × (includes
              (children_of parent.object_meta.name)
              (labels_of (partition_block_device parent node p))
            ≡ true)
  unfolding partition_block_device includes parent_block_device lookup insert equals
  partition-labels p =
      (rw (equals_self node), rw (equals_self (get_block_device_name disk.name node)))

  partitions-labels :
      (ps : List Partition)
      → All
          (λ bd. includes (devices_of node) (labels_of bd) ≡ true)
          (map (partition_block_device parent node) ps)
        × All
            (λ bd. includes (children_of parent.object_meta.name) (labels_of bd) ≡ true)
            (map (partition_block_device parent node) ps)
  partitions-labels [] = (tt, tt)
  partitions-labels (p ∷ ps) =
      let (here, child) = partition-labels p in
      let (heres, children) = partitions-labels ps in ((here, heres), (child, children))

  parent-selected : includes (devices_of node) (labels_of parent) ≡ true
  unfolding includes parent_block_device lookup equals
  parent-selected = rw (equals_self node)

  parent-not-selected : includes (children_of parent.object_meta.name) (labels_of parent) ≡ false
  unfolding includes parent_block_device lookup equals
  parent-not-selected = refl

  -- The resources are named after the disk and its partitions, in order, all on the node.
  pub get_new_block_devices-names :
      map (λ bd. bd.object_meta.name) (get_new_block_devices H disk node namespace)
      ≡ map (λ n. get_block_device_name n node) (disk.name ∷ map (λ p. p.name) disk.partitions)
  unfolding get_new_block_devices parent_block_device get_partition_block_devices
  get_new_block_devices-names =
      ap (◌∷◌ (get_block_device_name disk.name node)) (partition-names disk.partitions)

  -- Every device of the disk has the node's label. The label of the parent is on every partition's
  -- device and not on the disk's: of the disk's devices the handler of its deletion selects the
  -- partitions.
  pub get_new_block_devices-selected :
      All
        (λ bd. includes (devices_of node) (labels_of bd) ≡ true)
        (get_new_block_devices H disk node namespace)
      × All
          (λ bd. includes (children_of parent.object_meta.name) (labels_of bd) ≡ true)
          (get_partition_block_devices disk.partitions parent node)
      × (includes (children_of parent.object_meta.name) (labels_of parent) ≡ false)
  unfolding get_new_block_devices get_partition_block_devices
  get_new_block_devices-selected =
      let (heres, children) = partitions-labels disk.partitions in
      ((parent-selected, heres), children, parent-not-selected)
