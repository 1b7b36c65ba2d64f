-- ===== src/Udev/Handlers/Addition.antt =====
-- `AddBlockDevice`: what it leaves in a cluster without faults, where the cache is up to date.
use disk_manager.Base.{ℕ, ◌≡◌, ◌≢◌, none, some, List, [], All}
use disk_manager.Text.{Text}
use disk_manager.Host.{Host}
use disk_manager.Api.{BlockDevice, Time}
use disk_manager.Cluster.{Cluster}
use disk_manager.Cluster.Laws.{IsLawful}
use disk_manager.Effects.{Run, done}
use disk_manager.World.{World, Toolkit}
use disk_manager.Block.Disk.{Disk}
use disk_manager.Devices.{get_new_block_devices}
use disk_manager.Controller.Save.{find_existing}
use disk_manager.Controller.Save.Desired.{name_of}
use disk_manager.Controller.Save.Parts.{StoredAs}
use disk_manager.Controller.Save.Stored.{stored}
use disk_manager.Udev.Device.{UdevDevice}
use disk_manager.Udev.Handlers.{Settings}

-- A cluster without faults: the cache is listed, a name that is not stored is created, and an object
-- that is as it was read is updated. A name that is stored may be refused, and any other update.
pub record NeverFails (C : Cluster) (L : IsLawful C) : Type 0 where
  pub listed : (ns : Text) (s : C.State) → (C.cache_list ns [] s).0.error ≡ none
  pub created :
      (bd : BlockDevice) (s : C.State)
      → L.object s bd.object_meta.namespace bd.object_meta.name ≡ none
      → (C.create bd s).0.error ≡ none
  pub updated :
      (bd e : BlockDevice) (s : C.State)
      → L.object s bd.object_meta.namespace bd.object_meta.name ≡ some e
      → bd.object_meta ≡ e.object_meta
      → (C.update bd s).0.error ≡ none

module _ (H : Host) (C : Cluster) (L : IsLawful C) (N : NeverFails C L) (K : Toolkit)
    (now : ℕ → Time) (u : Settings) where
  abbrev pub ns : Text
  ns = u.namespace

  -- The list has for the device's name just what the cluster has.
  abbrev pub Current : List BlockDevice → World H C → BlockDevice → Type 0
  Current items w bd = find_existing bd items ≡ stored H C L ns w (name_of bd)

  -- An event writes the specification and the device status that were found.
  abbrev pub IsStored : List BlockDevice → World H C → BlockDevice → Type 0
  IsStored items w bd = StoredAs (λ listed. bd.spec) items (stored H C L ns w (name_of bd)) bd

  abbrev pub Stores :
      List BlockDevice → List BlockDevice → World H C → Run (Unit {0} × World H C) → Type 0
  Stores items bds w run =
      (w' : World H C) × (run ≡ done (tt, w'))
      × All (IsStored items w') bds
      × ((n : Text) → All (λ bd. n ≢ name_of bd) bds → stored H C L ns w' n ≡ stored H C L ns w n)

  module _ (device : UdevDevice) (disk : Disk) (w : World H C) where
    abbrev pub found : List BlockDevice
    found = get_new_block_devices H disk u.node_name u.namespace

    abbrev pub cached : List BlockDevice
    cached = (C.cache_list u.namespace [] w.cluster).0.value

    abbrev after_list : World H C
    after_list = record w { cluster = (C.cache_list u.namespace [] w.cluster).1 }
