-- ===== src/Host.antt =====
-- The node as the program reaches it: files, mounts, commands, and the functions of ghw that the
-- source calls. None of it is implemented here: the model takes it as a parameter.
use disk_manager.Base.{ℕ, Option, List, ℤ}
use disk_manager.Text.{Text}

-- `linuxpath.Paths`, the fields in use
pub record Paths : Type 0 where
  pub sys_block : Text
  pub run_udev_data : Text
  pub proc_mounts : Text

-- What `os.Stat` says of a path.
pub data Stat : Type 0 where
  exists : Stat
  not_exist : Stat
  stat_error : Text → Stat

-- `block.DriveType` and `block.StorageController` of ghw
pub data DriveType : Type 0 where
  drive_unknown hdd fdd odd ssd : DriveType

pub data StorageController : Type 0 where
  controller_unknown ide scsi nvme virtio mmc : StorageController

pub record Host : Type 1 where
  pub State : Type 0
  pub paths : Paths
  -- `ioutil.ReadFile`, and `os.Open` with a full read: `none` is an error, with no contents.
  pub read_file : State → Text → Option Text
  pub read_link : State → Text → Option Text
  -- The names in a directory, as `ioutil.ReadDir` orders them.
  pub read_dir : State → Text → Option (List Text)
  pub stat : State → Text → Stat
  -- The effects return an error's message, if there is one.
  pub mkdir : Text → ℕ → State → Option Text × State
  pub mount : Text → Text → Text → ℕ → Text → State → Option Text × State
  -- `exec.Command(args[0], args[1:]...).Output()`
  pub output : State → List Text → Option Text
  -- ghw's `util.SafeIntFromFile`, `util.UNKNOWN` and the names of its enumerations
  pub safe_int_from_file : State → Text → ℤ
  pub unknown : Text
  pub drive_type_name : DriveType → Text
  pub storage_controller_name : StorageController → Text
