-- ===== src/Block/Info.antt =====
-- pkg/block/block_device.go: `Info` and its constructor. ghw's context is a parameter, of which only the
-- error counts: where there is none, it calls the function that it is given.
use disk_manager.Base.{◌⊎◌, inl, inr, Option, none, some, List, []}
use disk_manager.Text.{Text}
use disk_manager.Host.{Host}
use disk_manager.Cluster.{Cluster}
use disk_manager.Effects.{M, pure, reads, ◌>>=◌}
use disk_manager.World.{World}
use disk_manager.Block.Disk.{Disk, Partition, disks}

pub record Info : Type 0 where
  pub disks : List Disk
  pub partitions : List Partition

module _ (H : Host) (C : Cluster) where
  -- `load`: the disks are set, and nothing else.
  unfoldable pub load : Info → M (World H C) Info
  load i = do found ← reads (λ w. disks H w.host); pure (record i { disks = found })

  -- `New`, by the error of the context
  unfoldable pub new_info : Option Text → M (World H C) (Text ⊎ Info)
  new_info (some e) = pure (inl e)
  new_info none = do info ← load (record { disks = []; partitions = [] }); pure (inr info)
