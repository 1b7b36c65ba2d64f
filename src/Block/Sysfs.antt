-- ===== src/Block/Sysfs.antt =====
-- pkg/block/block_device.go: the attributes of a disk in sysfs and in the udev database.
pub mod Sizes
pub mod Database
use disk_manager.Base.{
  ℕ, ◌*◌, ◌%◌, ◌^◌, Bool, false, Option, none, some, List, [], ◌∷◌, if◌then◌else◌, ℤ, pos, ◌==◌,
}
use disk_manager.Text.{Text, codes, equals, has_prefix, drop, split, split_two, trim_space}
use disk_manager.Text.Number.{parsed, syntax_error, range_error, parse_uint}
use disk_manager.Path.{join}
use disk_manager.Labels.{Labels}
use disk_manager.Labels
use disk_manager.Host.{
  Host, DriveType, drive_unknown, hdd, fdd, odd, ssd, StorageController, controller_unknown, ide,
  scsi, nvme, virtio, mmc,
}

abbrev pub sector_size : ℕ
sector_size = 512

-- A number in a file, 0 where there is none.
unfoldable pub number_in : Option Text → ℕ
number_in none = 0
number_in (some contents) = elim (parse_uint (trim_space contents)) [
  | parsed n ↦ n
  | syntax_error ↦ 0
  | range_error ↦ 0
]

-- `size * sectorSize` in uint64
unfoldable pub sectors_to_bytes : ℕ → ℕ
sectors_to_bytes n = (n * sector_size) % 2 ^ 64

-- One line of the udev database, put into the map.
unfoldable pub add_udev_line : Labels → Text → Labels
add_udev_line info line =
    if has_prefix line (codes "E:")
    then elim (split_two (drop 2 line) b'=') [ none ↦ info | some (k, v) ↦ Labels.insert k v info ]
    else info

unfoldable pub add_udev_lines : Labels → List Text → Labels
add_udev_lines info [] = info
add_udev_lines info (line ∷ lines) = add_udev_lines (add_udev_line info line) lines

-- A key of the database, or the next key, or the constant for the unknown.
unfoldable pub first_key : Text → List Text → Labels → Text
first_key unknown [] info = unknown
first_key unknown (k ∷ ks) info =
    let rest = first_key unknown ks info in elim (Labels.lookup k info) [ none ↦ rest | some v ↦ v ]

unfoldable pub key_of : Text → List Text → Option Labels → Text
key_of unknown keys none = unknown
key_of unknown keys (some info) = first_key unknown keys info

abbrev is_one : ℤ → Bool
is_one (pos n) = n == 1
is_one other = false

module _ (H : Host) (s : H.State) where
  unfoldable pub disk_physical_block_size_bytes : Text → ℕ
  disk_physical_block_size_bytes disk = number_in (
      H.read_file s
        (join (H.paths.sys_block ∷ disk ∷ codes "queue" ∷ codes "physical_block_size" ∷ [])))

  unfoldable pub disk_size_bytes : Text → ℕ
  disk_size_bytes disk =
      sectors_to_bytes
        (number_in (H.read_file s (join (H.paths.sys_block ∷ disk ∷ codes "size" ∷ []))))

  unfoldable pub partition_size_bytes : Text → Text → ℕ
  partition_size_bytes disk part =
      sectors_to_bytes
        (number_in (H.read_file s (join (H.paths.sys_block ∷ disk ∷ part ∷ codes "size" ∷ []))))

  unfoldable pub disk_vendor : Text → Text
  disk_vendor disk =
      elim (H.read_file s
        (join (H.paths.sys_block ∷ disk ∷ codes "device" ∷ codes "vendor" ∷ []))) [
          | none ↦ H.unknown
          | some contents ↦ trim_space contents
        ]

  -- `udevInfo`: `none` is its error.
  unfoldable pub udev_info : Text → Option Labels
  udev_info disk = elim (H.read_file s (join (H.paths.sys_block ∷ disk ∷ codes "dev" ∷ []))) [
    | none ↦ none
    | some dev_no ↦
        elim (H.read_file s (join (H.paths.run_udev_data ∷ (b'b' ∷ trim_space dev_no) ∷ []))) [
          | none ↦ none
          | some bytes ↦ some (add_udev_lines [] (split bytes (codes "\n")))
        ]
  ]

  unfoldable pub disk_model : Text → Text
  disk_model disk = key_of H.unknown (codes "ID_MODEL" ∷ []) (udev_info disk)

  unfoldable pub disk_serial_number : Text → Text
  disk_serial_number disk =
      key_of H.unknown (codes "ID_SERIAL_SHORT" ∷ codes "ID_SERIAL" ∷ []) (udev_info disk)

  unfoldable pub disk_bus_path : Text → Text
  disk_bus_path disk = key_of H.unknown (codes "ID_PATH" ∷ []) (udev_info disk)

  unfoldable pub disk_wwn : Text → Text
  disk_wwn disk =
      key_of H.unknown (codes "ID_WWN_WITH_EXTENSION" ∷ codes "ID_WWN" ∷ []) (udev_info disk)

  unfoldable pub disk_is_removable : Text → Bool
  disk_is_removable disk =
      elim (H.read_file s (join (H.paths.sys_block ∷ disk ∷ codes "removable" ∷ []))) [
        | none ↦ false
        | some contents ↦ equals (trim_space contents) (codes "1")
      ]

  unfoldable pub disk_is_rotational : Text → Bool
  disk_is_rotational name = is_one (
      H.safe_int_from_file s
        (join (H.paths.sys_block ∷ name ∷ codes "queue" ∷ codes "rotational" ∷ [])))

-- `diskTypes`
unfoldable pub disk_types : Text → DriveType × StorageController
disk_types name =
    if has_prefix name (codes "fd")
    then (fdd, controller_unknown)
    else if has_prefix name (codes "sd")
    then (hdd, scsi)
    else if has_prefix name (codes "hd")
    then (hdd, ide)
    else if has_prefix name (codes "vd")
    then (hdd, virtio)
    else if has_prefix name (codes "nvme")
    then (ssd, nvme)
    else if has_prefix name (codes "sr")
    then (odd, scsi)
    else if has_prefix name (codes "xvd")
    then (hdd, scsi)
    else if has_prefix name (codes "mmc")
    then (ssd, mmc)
    else (drive_unknown, controller_unknown)
