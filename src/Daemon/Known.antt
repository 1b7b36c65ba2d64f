-- ===== src/Daemon/Known.antt =====
-- Whose an object is: the resources of one node, and all others.
use disk_manager.Base.{
  ◌≡◌, ◌≢◌, ◌⊎◌, inl, inr, refl, sym, ap, ◌∙◌, some, List, [], ◌∷◌, map, arith, All, All-append,
  Bool-cases, true,
}
use disk_manager.Text.{Text, equals}
use disk_manager.Labels.{lookup, insert, includes}
use disk_manager.Text.Prefix.{equals_self}
use disk_manager.Host.{Host}
use disk_manager.Api.{BlockDevice}
use disk_manager.Cluster.Laws.{SamePayload}
use disk_manager.Util.{get_block_device_name, is_longhorn_block_device}
use disk_manager.Block.Disk.{Disk, Partition}
use disk_manager.Devices.{
  get_full_dev_path, label_hostname, partition_block_device, get_partition_block_devices,
  parent_block_device, get_new_block_devices,
}
use disk_manager.Devices.Labelled.{devices_of}
use disk_manager.Controller.Save.{with_status, with_spec_and_status}
use disk_manager.Controller.Register.{found_block_devices}

-- A resource of the node: its name, its path and its label fit.
pub record IsOwn (node : Text) (e : BlockDevice) : Type 0 where
  pub short : Text
  pub name : e.object_meta.name ≡ get_block_device_name short node
  pub dev_path : e.spec.dev_path ≡ get_full_dev_path short
  pub node_name : e.spec.node_name ≡ node
  pub hostname : lookup label_hostname e.object_meta.labels ≡ some node

-- No device of the node has the name.
abbrev pub IsForeign : Text → BlockDevice → Type 0
IsForeign node e = (short : Text) → e.object_meta.name ≢ get_block_device_name short node

abbrev pub IsKnown : Text → BlockDevice → Type 0
IsKnown node e = IsOwn node e ⊎ IsForeign node e

-- The parts that say whose an object is.
pub record SameIdentity (a b : BlockDevice) : Type 0 where
  pub name : a.object_meta.name ≡ b.object_meta.name
  pub hostname :
      lookup label_hostname a.object_meta.labels ≡ lookup label_hostname b.object_meta.labels
  pub node_name : a.spec.node_name ≡ b.spec.node_name
  pub dev_path : a.spec.dev_path ≡ b.spec.dev_path

pub SamePayload-SameIdentity : (a b : BlockDevice) → SamePayload a b → SameIdentity a b
SamePayload-SameIdentity a b p = record {
  name = p.name;
  hostname = ap (lookup label_hostname) p.labels;
  node_name = ap (λ s. s.node_name) p.spec;
  dev_path = ap (λ s. s.dev_path) p.spec;
}

module _ (node : Text) where
  pub IsOwn-identity : (a b : BlockDevice) → SameIdentity a b → IsOwn node b → IsOwn node a
  IsOwn-identity a b s o = record {
    short = o.short;
    name = s.name ∙ o.name;
    dev_path = s.dev_path ∙ o.dev_path;
    node_name = s.node_name ∙ o.node_name;
    hostname = s.hostname ∙ o.hostname;
  }

  pub IsKnown-identity : (a b : BlockDevice) → SameIdentity a b → IsKnown node b → IsKnown node a
  IsKnown-identity a b s (inl o) = inl (IsOwn-identity a b s o)
  IsKnown-identity a b s (inr f) = inr (λ short clash. f short (sym s.name ∙ clash))

  pub with_status-IsKnown : (e bd : BlockDevice) → IsKnown node e → IsKnown node (with_status e bd)
  with_status-IsKnown e bd k =
      IsKnown-identity (with_status e bd) e
        (record { name = refl; hostname = refl; node_name = refl; dev_path = refl }) k

  -- The specification of one resource of the node, under the metadata of another of the same name.
  pub with_spec_and_status-IsOwn :
      (e bd : BlockDevice)
      → IsKnown node e
      → e.object_meta.name ≡ bd.object_meta.name
      → IsOwn node bd
      → IsOwn node (with_spec_and_status e bd)
  with_spec_and_status-IsOwn e bd (inl o) same own = record {
    short = own.short;
    name = same ∙ own.name;
    dev_path = own.dev_path;
    node_name = own.node_name;
    hostname = o.hostname;
  }
  with_spec_and_status-IsOwn e bd (inr f) same own = absurd (f own.short (same ∙ own.name))

  module _ (H : Host) (ns : Text) where
    parent-IsOwn : (disk : Disk) → IsOwn node (parent_block_device H disk node ns)
    unfolding parent_block_device lookup equals
    parent-IsOwn disk = record {
      short = disk.name;
      name = refl;
      dev_path = refl;
      node_name = refl;
      hostname = refl;
    }

    partition-IsOwn :
        (disk : Disk) (p : Partition)
        → IsOwn node (partition_block_device (parent_block_device H disk node ns) node p)
    unfolding partition_block_device parent_block_device lookup insert equals
    partition-IsOwn disk p = record {
      short = p.name;
      name = refl;
      dev_path = refl;
      node_name = refl;
      hostname = refl;
    }

    partitions-IsOwn :
        (disk : Disk) (ps : List Partition)
        → All
            (IsOwn node)
            (map (partition_block_device (parent_block_device H disk node ns) node) ps)
    partitions-IsOwn disk [] = tt
    partitions-IsOwn disk (p ∷ ps) = (partition-IsOwn disk p, partitions-IsOwn disk ps)

    -- The devices that are made of a disk are the node's.
    pub get_new_block_devices-IsOwn :
        (disk : Disk) → All (IsOwn node) (get_new_block_devices H disk node ns)
    unfolding get_new_block_devices get_partition_block_devices
    get_new_block_devices-IsOwn disk = (parent-IsOwn disk, partitions-IsOwn disk disk.partitions)

    pub found_block_devices-IsOwn :
        (disks found : List Disk)
        → All (IsOwn node) (
            found_block_devices H
              (record { namespace = ns; node_name = node; disks = disks })
              found)
    unfolding found_block_devices
    found_block_devices-IsOwn disks [] = tt
    found_block_devices-IsOwn disks (disk ∷ found) =
        elim (Bool-cases (is_longhorn_block_device disk.bus_path)) [
          | inl own ↦ rw own (found_block_devices-IsOwn disks found)
          | inr other ↦ rw other (
              All-append (IsOwn node) _ _ (get_new_block_devices-IsOwn disk)
                (found_block_devices-IsOwn disks found))
        ]

  -- The host label of the node's resources.
  pub IsOwn-selected :
      (e : BlockDevice) → IsOwn node e → includes (devices_of node) e.object_meta.labels ≡ true
  unfolding includes
  IsOwn-selected e own = ground (arith, own.hostname, equals_self node)
