-- ===== src/DeepCopy/Apart.antt =====
-- The copy of a list lies apart from the list: in memory that is new.
use disk_manager.Base.{Option, none, some, List, All}
use disk_manager.Api.{BlockDevice}
use disk_manager.DeepCopy.{Library, State, BlockDeviceCell, copy_block_device}
use disk_manager.DeepCopy.Reading.{IsSeparate, DeviceReads}
use disk_manager.DeepCopy.Copied.{New}
use disk_manager.DeepCopy.Items.{ItemsRead}

module _ (L : Library) (S : IsSeparate L) where
  -- The items are read as devices.
  abbrev Items : List (BlockDeviceCell L) → State L → List BlockDevice → Type 0
  Items = ItemsRead L S (DeviceReads L S) (copy_block_device L)

  -- Each item of the copy has new memory.
  abbrev ItemsNew : State L → Option (List (BlockDeviceCell L)) → Type 0
  ItemsNew h none = Unit
  ItemsNew h (some items) = All (New L S h) items
