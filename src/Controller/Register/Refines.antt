-- ===== src/Controller/Register/Refines.antt =====
-- The scan of the node, against the objects of the cluster.
use mathlib.Core.List.{Memᴰ}
use disk_manager.Base.{
  ◌≡◌, ◌≢◌, refl, sym, subst, ◌∙◌, none, some, List, [], ◌∷◌, map, arith, Bool-cases, Option-cases,
  inl, inr, All, All-append,
}
use disk_manager.Text.{Text}
use disk_manager.Host.{Host}
use disk_manager.Api.{BlockDevice}
use disk_manager.Cluster.{Cluster}
use disk_manager.Cluster.Laws.{IsLawful, Holds}
use disk_manager.World.{World}
use disk_manager.Util.{is_longhorn_block_device}
use disk_manager.Block.Disk.{Disk, Partition}
use disk_manager.Devices.{
  partition_block_device, get_partition_block_devices, parent_block_device, get_new_block_devices,
}
use disk_manager.Controller.Save.Desired.{name_of, desired}
use disk_manager.Controller.Save.Stored.{Saves, Listed, save_block_device_by_list-Saves}
use disk_manager.Controller.Save.{with_status, save_block_device_by_list}
use disk_manager.Controller.Register.{
  Settings, found_block_devices, save_all_by_list, register_node_block_devices,
}

-- No two devices have one name.
abbrev pub DistinctNames : List BlockDevice → Type 0
DistinctNames [] = Unit
DistinctNames (bd ∷ bds) = All (λ b. name_of b ≢ name_of bd) bds × DistinctNames bds

pub flip_fresh :
    (bd : BlockDevice) (bds : List BlockDevice)
    → All (λ b. name_of b ≢ name_of bd) bds
    → All (λ b. name_of bd ≢ name_of b) bds
flip_fresh bd [] f = tt
flip_fresh bd (b ∷ bds) (f, fs) = (λ e. f (sym e), flip_fresh bd bds fs)

module _ (H : Host) (C : Cluster) (L : IsLawful C) (ns : Text) where
  -- A device that has been saved, and the loop over the rest.
  save_cons :
      (items : List BlockDevice) (bd : BlockDevice) (bds : List BlockDevice) (w : World H C)
      → All (λ b. name_of b ≢ name_of bd) bds
      → Saves H C L ns with_status items (bd ∷ []) w (save_block_device_by_list H C bd items w)
      → ((w' : World H C)
          → Saves H C L ns with_status items bds w' (save_all_by_list H C bds items w'))
      → Saves H C L ns with_status items (bd ∷ bds) w (save_all_by_list H C (bd ∷ bds) items w)
  unfolding save_all_by_list
  save_cons items bd bds w fresh (some e, w1, ran, _, others) rest =
      (some e, w1, ground arith, λ ok. absurd (cc), λ n f. others n (f.0, tt))
  save_cons items bd bds w fresh (none, w1, ran, saved, others) rest =
      let (failed, w2, ran2, saved2, others2) = rest w1 in
      (
        failed,
        w2,
        ground arith,
        λ ok. (
          subst (λ o. Holds o (desired with_status items bd))
              (sym (others2 (name_of bd) (flip_fresh bd bds fresh))) (saved refl).0,
          saved2 ok,
        ),
        λ n f. others2 n f.1 ∙ others n (f.0, tt),
      )

  save_all-Saves :
      (items : List BlockDevice) (bds : List BlockDevice) (w : World H C)
      → ((e : BlockDevice) → Memᴰ e items → Listed H C L ns e)
      → All (Listed H C L ns) bds
      → DistinctNames bds
      → Saves H C L ns with_status items bds w (save_all_by_list H C bds items w)
  save_all-Saves items [] w listed here distinct =
      (none, w, unfold save_all_by_list in refl, λ ok. tt, λ n f. refl)
  save_all-Saves items (bd ∷ bds) w listed (here, heres) (fresh, distinct) =
      save_cons items bd bds w fresh
        (save_block_device_by_list-Saves H C L ns items bd w listed here)
        (λ w'. save_all-Saves items bds w' listed heres distinct)

-- Every device of a disk is in the controller's namespace.
partitions-Listed :
    (parent : BlockDevice) (node : Text) (ps : List Partition)
    → All
        (λ b. b.object_meta.namespace ≡ parent.object_meta.namespace)
        (map (partition_block_device parent node) ps)
unfolding partition_block_device
partitions-Listed parent node [] = tt
partitions-Listed parent node (p ∷ ps) = (refl, partitions-Listed parent node ps)

pub devices-Listed :
    (H : Host) (disk : Disk) (node ns : Text)
    → All (λ b. b.object_meta.namespace ≡ ns) (get_new_block_devices H disk node ns)
unfolding get_new_block_devices get_partition_block_devices parent_block_device
devices-Listed H disk node ns =
    (refl, partitions-Listed (parent_block_device H disk node ns) node disk.partitions)

found-Listed :
    (H : Host) (c : Settings) (disks : List Disk)
    → All (λ b. b.object_meta.namespace ≡ c.namespace) (found_block_devices H c disks)
unfolding found_block_devices
found-Listed H c [] = tt
found-Listed H c (disk ∷ disks) = elim (Bool-cases (is_longhorn_block_device disk.bus_path)) [
  | inl own ↦ rw own (found-Listed H c disks)
  | inr other ↦ rw other (
      All-append (λ b. b.object_meta.namespace ≡ c.namespace) _ _
        (devices-Listed H disk c.node_name c.namespace) (found-Listed H c disks))
]

module _ (H : Host) (C : Cluster) (L : IsLawful C) (c : Settings) (w : World H C) where
  abbrev listing : List BlockDevice
  listing = (C.list c.namespace w.cluster).0.value

  abbrev found : List BlockDevice
  found = found_block_devices H c c.disks

  abbrev after_list : World H C
  after_list = record w { cluster = (C.list c.namespace w.cluster).1 }

  -- The scan saves what it finds, against the list of the cluster.
  pub register_node_block_devices-Saves :
      DistinctNames found
      → Saves H C L c.namespace with_status listing found w (register_node_block_devices H C c w)
  unfolding register_node_block_devices
  register_node_block_devices-Saves distinct =
      elim (Option-cases (C.list c.namespace w.cluster).0.error) [
        | inr (e, failed) ↦ (
          some e,
          after_list,
          ground arith,
          λ ok. absurd (cc),
          λ n f. L.list-keeps c.namespace w.cluster c.namespace n,
        )
        | inl fine ↦
            let (failed, w', ran, saved, others) =
              save_all-Saves H C L c.namespace listing found after_list
                (λ e m.
                  (L.object-key w.cluster c.namespace (name_of e) e
                    (L.list-object c.namespace w.cluster e fine m)).0)
                (found-Listed H c c.disks) distinct in
            (
              failed,
              w',
              ground arith,
              saved,
              λ n f. others n f ∙ L.list-keeps c.namespace w.cluster c.namespace n,
            )
      ]
