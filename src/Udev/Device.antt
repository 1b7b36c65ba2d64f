-- ===== src/Udev/Device.antt =====
-- pkg/udev/device.go: a udev device is the map of its properties.
pub mod Names
use disk_manager.Base.{Bool, List, [], ◌∷◌}
use disk_manager.Text.{Text, codes, equals, split}
use disk_manager.Labels.{Labels}
use disk_manager.Labels

abbrev pub UdevDevice : Type 0
UdevDevice = Labels

abbrev pub udev_system : Text
udev_system = codes "disk"

abbrev pub udev_partition : Text
udev_partition = codes "partition"

abbrev pub udev_id_path : Text
udev_id_path = codes "ID_PATH"

abbrev pub udev_type : Text
udev_type = codes "ID_TYPE"

abbrev pub udev_devname : Text
udev_devname = codes "DEVNAME"

-- `InitUdevDevice`
abbrev pub init_udev_device : Labels → UdevDevice
init_udev_device udev = udev

unfoldable pub is_disk : UdevDevice → Bool
is_disk device = equals (Labels.get udev_type device) udev_system

unfoldable pub is_partition : UdevDevice → Bool
is_partition device = equals (Labels.get udev_type device) udev_partition

unfoldable pub get_path : UdevDevice → Text
get_path device = Labels.get udev_devname device

-- `parts[LINK_NAME_INDEX]`, the third part, if there are so many
abbrev third_part : List Text → Text
third_part (a ∷ b ∷ c ∷ parts) = c
third_part _ = []

unfoldable pub get_short_name : UdevDevice → Text
get_short_name device = third_part (split (Labels.get udev_devname device) (codes "/"))

unfoldable pub get_id_path : UdevDevice → Text
get_id_path device = Labels.get udev_id_path device
