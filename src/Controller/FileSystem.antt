-- ===== src/Controller/FileSystem.antt =====
-- pkg/controller/blockdevice/controller.go: `isValidFileSystem` and `mountDevice`.
pub mod Mounting
use disk_manager.Base.{ℕ, ◌^◌, Bool, true, false, not, Option, none, some, ◌++◌, ltb, if◌then◌else◌}
use disk_manager.Text.{Text, codes, equals, byte_length, trim_suffix}
use disk_manager.Host.{Host, exists, not_exist, stat_error}
use disk_manager.Api.{FilesystemInfo, FilesystemStatus}
use disk_manager.World.{Toolkit}
use disk_manager.Block.Mount.{mount_ext4}

-- The mount point that is asked for, without a slash at its end.
unfoldable pub wanted_mount_point : Text → Text
wanted_mount_point mp = if ltb 1 (byte_length mp) then trim_suffix mp (codes "/") else mp

-- `isValidFileSystem`
unfoldable pub is_valid_file_system :
    Toolkit → FilesystemInfo → FilesystemStatus → Option Text × Bool
is_valid_file_system K fs st =
    let mp = wanted_mount_point fs.mount_point in
    if not (equals mp st.mount_point)
    then (
      some (
          codes "current mountPoint "
          ++ (st.mount_point ++ (codes " does not match the specified path: " ++ mp))),
      false,
    )
    else if not (K.is_supported_file_system st.fs_type)
    then (some (codes "unsupported filesystem type " ++ st.fs_type), false)
    else (none, true)

-- `os.ModeDir`, the mode that the directory is made with
abbrev pub mode_dir : ℕ
mode_dir = 2 ^ 31

module _ (H : Host) where
  unfoldable pub mount_at : Text → Text → H.State → Option Text × H.State
  mount_at dev_path mount_point = mount_ext4 H dev_path mount_point false

  unfoldable pub mount_if_made : Text → Text → Option Text × H.State → Option Text × H.State
  mount_if_made dev_path mount_point (some e, s) = (some e, s)
  mount_if_made dev_path mount_point (none, s) = mount_at dev_path mount_point s

  -- `mountDevice`: the mount point is made if it does not exist.
  unfoldable pub mount_device : Text → Text → H.State → Option Text × H.State
  mount_device dev_path mount_point s = elim (H.stat s mount_point) [
    | stat_error e ↦ (some e, s)
    | not_exist ↦ mount_if_made dev_path mount_point (H.mkdir mount_point mode_dir s)
    | exists ↦ mount_at dev_path mount_point s
  ]
