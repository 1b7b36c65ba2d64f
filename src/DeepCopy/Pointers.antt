-- ===== src/DeepCopy/Pointers.antt =====
-- pkg/apis/longhorn.io/v1beta1/zz_generated_deepcopy.go: `DeepCopy` and `DeepCopyObject` of each type.
use disk_manager.Base.{Option}
use disk_manager.Api.{BlockDeviceSpec, Condition, DeviceCapacity, DeviceDetails, FilesystemInfo}
use disk_manager.DeepCopy.{
  Library, State, deep_copy, BlockDeviceCell, BlockDeviceStatusCell, DeviceStatusCell,
  FilesystemStatusCell, NodeCell, copy_block_device, copy_block_device_spec,
  copy_block_device_status, copy_condition, copy_device_capacity, copy_device_details,
  copy_device_status, copy_filesystem_info, copy_filesystem_status, copy_node,
}
use disk_manager.DeepCopy.Lists.{
  Boxed, deep_copy_object, BlockDeviceList, NodeList, copy_block_device_list, copy_node_list,
}

module _ (L : Library) where
  unfoldable pub deep_copy_block_device :
      Option (BlockDeviceCell L) → State L → Option (BlockDeviceCell L) × State L
  deep_copy_block_device o h = deep_copy (copy_block_device L) o h

  unfoldable pub deep_copy_block_device_list :
      Option (BlockDeviceList L) → State L → Option (BlockDeviceList L) × State L
  deep_copy_block_device_list o h = deep_copy (copy_block_device_list L) o h

  unfoldable pub deep_copy_block_device_spec :
      Option BlockDeviceSpec → State L → Option BlockDeviceSpec × State L
  deep_copy_block_device_spec o h = deep_copy (copy_block_device_spec L) o h

  unfoldable pub deep_copy_block_device_status :
      Option (BlockDeviceStatusCell L) → State L → Option (BlockDeviceStatusCell L) × State L
  deep_copy_block_device_status o h = deep_copy (copy_block_device_status L) o h

  unfoldable pub deep_copy_condition : Option Condition → State L → Option Condition × State L
  deep_copy_condition o h = deep_copy (copy_condition L) o h

  unfoldable pub deep_copy_device_capacity :
      Option DeviceCapacity → State L → Option DeviceCapacity × State L
  deep_copy_device_capacity o h = deep_copy (copy_device_capacity L) o h

  unfoldable pub deep_copy_device_details :
      Option DeviceDetails → State L → Option DeviceDetails × State L
  deep_copy_device_details o h = deep_copy (copy_device_details L) o h

  unfoldable pub deep_copy_device_status :
      Option (DeviceStatusCell L) → State L → Option (DeviceStatusCell L) × State L
  deep_copy_device_status o h = deep_copy (copy_device_status L) o h

  unfoldable pub deep_copy_filesystem_info :
      Option FilesystemInfo → State L → Option FilesystemInfo × State L
  deep_copy_filesystem_info o h = deep_copy (copy_filesystem_info L) o h

  unfoldable pub deep_copy_filesystem_status :
      Option (FilesystemStatusCell L) → State L → Option (FilesystemStatusCell L) × State L
  deep_copy_filesystem_status o h = deep_copy (copy_filesystem_status L) o h

  unfoldable pub deep_copy_node : Option (NodeCell L) → State L → Option (NodeCell L) × State L
  deep_copy_node o h = deep_copy (copy_node L) o h

  unfoldable pub deep_copy_node_list : Option (NodeList L) → State L → Option (NodeList L) × State L
  deep_copy_node_list o h = deep_copy (copy_node_list L) o h

  unfoldable pub deep_copy_object_block_device :
      Option (BlockDeviceCell L) → State L → Boxed (BlockDeviceCell L) × State L
  deep_copy_object_block_device o h = deep_copy_object (copy_block_device L) o h

  unfoldable pub deep_copy_object_block_device_list :
      Option (BlockDeviceList L) → State L → Boxed (BlockDeviceList L) × State L
  deep_copy_object_block_device_list o h = deep_copy_object (copy_block_device_list L) o h

  unfoldable pub deep_copy_object_node :
      Option (NodeCell L) → State L → Boxed (NodeCell L) × State L
  deep_copy_object_node o h = deep_copy_object (copy_node L) o h

  unfoldable pub deep_copy_object_node_list :
      Option (NodeList L) → State L → Boxed (NodeList L) × State L
  deep_copy_object_node_list o h = deep_copy_object (copy_node_list L) o h
