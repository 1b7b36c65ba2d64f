-- ===== src/Block/Blkid.antt =====
-- pkg/block/blkid.go: what the command blkid says of a partition.
pub mod Values
use disk_manager.Base.{Option, none, some, List, [], ◌∷◌, ◌++◌, if◌then◌else◌, is_empty}
use disk_manager.Text.{Text, codes, has_prefix, split, trim_space, remove_all}
use disk_manager.Host.{Host}

-- The constants of type `UUIDType`, and `FsType`
abbrev pub fs_type : Text
fs_type = codes "TYPE"

abbrev pub part_uuid : Text
part_uuid = codes "PARTUUID"

abbrev pub pt_uuid : Text
pt_uuid = codes "PTUUID"

abbrev pub uuid : Text
uuid = codes "UUID"

-- The path of a partition that is given by its path or by its short name.
unfoldable pub device_path : Text → Text
device_path part = if has_prefix part (codes "/dev") then part else codes "/dev/" ++ part

-- The value behind the tag, if the tag stands in the output once.
unfoldable pub tag_value : List Text → Text
tag_value (before ∷ after ∷ []) = remove_all b'"' (trim_space after)
tag_value _ = []

-- The steps from the output on, which both functions share; `tag` is "TYPE=" or "UUID=".
unfoldable pub read_tag : Text → Option Text → Text
read_tag tag none = []
read_tag tag (some out) = if is_empty out then [] else tag_value (split out tag)

module _ (H : Host) (s : H.State) where
  -- `GetFileSystemType`
  unfoldable pub get_file_system_type : Text → Text
  get_file_system_type part =
      read_tag (codes "TYPE=")
        (H.output s (codes "blkid" ∷ codes "-s" ∷ fs_type ∷ device_path part ∷ []))

  -- `GetDiskUUID`
  unfoldable pub get_disk_uuid : Text → Text → Text
  get_disk_uuid part uuid_type =
      read_tag (codes "UUID=")
        (H.output s (codes "blkid" ∷ codes "-s" ∷ uuid_type ∷ device_path part ∷ []))
