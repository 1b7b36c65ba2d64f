-- ===== src/Util.antt =====
-- pkg/util/util.go and pkg/version/version.go
pub mod Names
use disk_manager.Base.{Bool, ◌++◌}
use disk_manager.Text.{Text, codes, contains}

-- `GetBlockDeviceName`
unfoldable pub get_block_device_name : Text → Text → Text
get_block_device_name device_name node_name = device_name ++ (codes "-" ++ node_name)

-- `IsLonghornBlockDevice`
unfoldable pub is_longhorn_block_device : Text → Bool
is_longhorn_block_device path = contains path (codes "longhorn")

-- `FriendlyVersion`, from the values that the build sets
unfoldable pub friendly_version : Text → Text → Text
friendly_version version git_commit = version ++ (codes " (" ++ (git_commit ++ codes ")"))
