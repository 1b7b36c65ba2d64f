-- ===== src/Main/Registered.antt =====
-- From the scan of the node to the resources in the cluster: `run` with the registration in it.
use disk_manager.Base.{◌≢◌, List, [], ◌∷◌, ◌++◌, map, if◌then◌else◌, All}
use disk_manager.Text.{Text}
use disk_manager.Host.{Host}
use disk_manager.Api.{BlockDevice}
use disk_manager.Cluster.{Cluster}
use disk_manager.Cluster.Laws.{IsLawful}
use disk_manager.World.{World}
use disk_manager.Util.{get_block_device_name, is_longhorn_block_device}
use disk_manager.Block.Disk.{Disk}
use disk_manager.Main.{Options, Libraries}

abbrev pub Distinct : List Text → Type 0
Distinct [] = Unit
Distinct (s ∷ l) = All (λ t. t ≢ s) l × Distinct l

-- The names of the kernel for the devices that are registered.
abbrev pub short_names : List Disk → List Text
short_names [] = []
short_names (disk ∷ found) =
    let rest = short_names found in
    if is_longhorn_block_device disk.bus_path
    then rest
    else (disk.name ∷ map (λ p. p.name) disk.partitions) ++ rest

module _ (node : Text) where
  abbrev named : Text → Text
  named s = get_block_device_name s node

module _ (H : Host) (C : Cluster) (L : IsLawful C) (B : Libraries) (opt : Options)
    (w : World H C) where
  abbrev pub listing : List BlockDevice
  listing = (C.list opt.namespace w.cluster).0.value
