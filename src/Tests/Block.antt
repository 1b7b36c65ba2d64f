-- ===== src/Tests/Block.antt =====
-- What the block package says of the node of the tests.
use disk_manager.Base.{
  ℕ, ◌≡◌, ◌≢◌, ◌<◌, ◌%◌, ◌^◌, ◌⊎◌, refl, false, some, List, [], ◌∷◌, ◌++◌, arith, All, pos, map,
  keep_if,
}
use disk_manager.Text.{Text, codes, join_with, trim_space}
use disk_manager.Host.{drive_unknown, controller_unknown}
use disk_manager.Path.{join}
use disk_manager.Tests.Decide.{solid, lacks, value_or}
use disk_manager.Block.Blkid.{get_disk_uuid, part_uuid, fs_type, device_path}
use disk_manager.Block.Blkid.Values.{quoted, get_disk_uuid-quoted}
use disk_manager.Block.Mounts.{MountEntry, parse_mount_entry}
use disk_manager.Block.Mounts.Lines.{escape, render, IsPrintable, parse_mount_entry-render}
use disk_manager.Block.Numa.{disk_numa_node_id, no_node}
use disk_manager.Block.Numa.Answers.{disk_numa_node_id_answers}
use disk_manager.Block.Sysfs.{
  disk_size_bytes, disk_serial_number, disk_bus_path, disk_model, disk_wwn, sector_size,
}
use disk_manager.Block.Sysfs.Sizes.{disk_size_bytes_bounds}
use disk_manager.Block.Sysfs.Database.{
  Line, entry, other, line_of, IsLine, attributes_from_database,
}
use disk_manager.Block.Disk.{Disk, disks, get_disk}
use disk_manager.Block.Disk.Returns.{NoEmptyLine, disks_return}
use disk_manager.Block.Disk.Scan.{get_disk-partitions, names_partition}
use disk_manager.Tests.Node.{node, files, everything}

test_size : disk_size_bytes node files (codes "sda") ≡ 1073741824
unfolding everything
test_size = refl

test_serial_number : disk_serial_number node files (codes "sda") ≡ codes "s=1"
unfolding everything
test_serial_number = refl

abbrev data_mount : MountEntry
data_mount = record {
  partition = codes "/dev/sda1";
  mountpoint = codes "/data";
  filesystem_type = codes "ext4";
  options = codes "rw" ∷ codes "relatime" ∷ [];
}

nonempty : (c : ℕ) (s : Text) → c ∷ s ≢ []
nonempty c s h = cc

data_mount-IsPrintable : IsPrintable data_mount
unfolding everything
data_mount-IsPrintable = record {
  rooted = refl;
  partition_solid = solid data_mount.partition refl;
  mountpoint_solid = solid (escape data_mount.mountpoint) refl;
  mountpoint_ne_nil = nonempty _ _;
  type_solid = solid data_mount.filesystem_type refl;
  type_ne_nil = nonempty _ _;
  options_solid = solid (join_with (codes ",") data_mount.options) refl;
  options_ne_nil = nonempty _ _;
  options_lack_comma = (lacks b',' (codes "rw") refl, (lacks b',' (codes "relatime") refl, tt));
  short = omega arith;
}

parse_mount_entry-render_example : parse_mount_entry (render data_mount) ≡ some (some data_mount)
parse_mount_entry-render_example = parse_mount_entry-render data_mount data_mount-IsPrintable

block_directory : node.read_dir files node.paths.sys_block ≡ some (codes "loop0" ∷ codes "sda" ∷ [])
unfolding everything
block_directory = refl

abbrev pub scanned : List Disk
scanned = value_or [] (disks node files)

pub disks_scanned : disks node files ≡ some scanned
unfolding everything
disks_scanned = refl

test_names : map (λ d. d.name) scanned ≡ codes "sda" ∷ []
unfolding everything
test_names = refl

sda_directory :
    node.read_dir files (join (node.paths.sys_block ∷ codes "sda" ∷ []))
    ≡ some (codes "queue" ∷ codes "sda1" ∷ [])
unfolding everything
sda_directory = refl

abbrev no_disk : Disk
no_disk = record {
  name = [];
  size_bytes = 0;
  physical_block_size_bytes = 0;
  drive_type = drive_unknown;
  is_removable = false;
  storage_controller = controller_unknown;
  uuid = [];
  pt_uuid = [];
  bus_path = [];
  file_system_info = record { fs_type = []; is_read_only = false; mount_point = [] };
  numa_node_id = pos 0;
  vendor = [];
  model = [];
  serial_number = [];
  wwn = [];
  partitions = [];
}

abbrev pub sda : Disk
sda = value_or no_disk (get_disk node files (codes "sda"))

pub sda_found : get_disk node files (codes "sda") ≡ some sda
unfolding everything
sda_found = refl

get_disk-partitions_example :
    (sda.name ≡ codes "sda")
    × (map (λ p. p.name) sda.partitions
        ≡ keep_if (names_partition (codes "sda")) (codes "queue" ∷ codes "sda1" ∷ []))
    × All (λ p. p.disk ≡ some (codes "sda")) sda.partitions
get_disk-partitions_example =
    get_disk-partitions node files (codes "sda") (codes "queue" ∷ codes "sda1" ∷ []) {d = sda}
      sda_directory sda_found

blkid_prints :
    node.output files (codes "blkid" ∷ codes "-s" ∷ part_uuid ∷ device_path (codes "sda1") ∷ [])
    ≡ some (codes "/dev/sda1: PART" ++ (codes "UUID=" ++ quoted (codes "ab-1")))
unfolding everything
blkid_prints = refl

get_disk_uuid-quoted_example : get_disk_uuid node files (codes "sda1") part_uuid ≡ codes "ab-1"
get_disk_uuid-quoted_example =
    get_disk_uuid-quoted node files (codes "sda1") part_uuid (codes "/dev/sda1: PART")
      (codes "ab-1") blkid_prints (lacks b'U' (codes "/dev/sda1: PART") refl)
      (lacks b'U' (codes "ab-1") refl) (lacks b'"' (codes "ab-1") refl)

blkid_prints_type :
    node.output files (codes "blkid" ∷ codes "-s" ∷ fs_type ∷ device_path (codes "sda") ∷ [])
    ≡ some (codes "/dev/sda: " ++ (codes "TYPE=" ++ quoted (codes "ext4")))
unfolding everything
blkid_prints_type = refl

abbrev sda_link : Text
sda_link = codes "../devices/pci0/ata1/sda"

sda_linked : node.read_link files (join (node.paths.sys_block ∷ codes "sda" ∷ [])) ≡ some sda_link
unfolding everything
sda_linked = refl

disk_numa_node_id_answers_example :
    ((disk_numa_node_id node files (codes "sda") ≡ no_node)
      ⊎ (disk_numa_node_id node files (codes "sda") ≡ pos 0))
    × ((contents : Text)
        → node.read_file files (join (node.paths.sys_block ∷ sda_link ∷ codes "numa_node" ∷ []))
          ≡ some contents
        → disk_numa_node_id node files (codes "sda") ≡ no_node)
disk_numa_node_id_answers_example =
    disk_numa_node_id_answers node files (codes "sda") sda_link sda_linked

size_read :
    node.read_file files (join (node.paths.sys_block ∷ codes "sda" ∷ codes "size" ∷ []))
    ≡ some (codes "2097152" ++ codes "\n")
unfolding everything
size_read = refl

disk_size_bytes_bounds_example :
    (disk_size_bytes node files (codes "sda") < 2 ^ 64)
    × (disk_size_bytes node files (codes "sda") % sector_size ≡ 0)
disk_size_bytes_bounds_example = disk_size_bytes_bounds node files (codes "sda")

abbrev udev_lines : List Line
udev_lines = entry (codes "ID_PATH") (codes "pci-1") ∷ entry (codes "ID_SERIAL") (codes "s=1") ∷ []

udev_lines-IsLine : All IsLine (other (codes "S:disk") ∷ udev_lines)
unfolding everything
udev_lines-IsLine = (
  (refl, lacks b'\n' (codes "S:disk") refl),
  (
    (lacks b'=' (codes "ID_PATH") refl, lacks b'\n' (codes "E:ID_PATH=pci-1") refl),
    ((lacks b'=' (codes "ID_SERIAL") refl, lacks b'\n' (codes "E:ID_SERIAL=s=1") refl), tt),
  ),
)

dev_read :
    node.read_file files (join (node.paths.sys_block ∷ codes "sda" ∷ codes "dev" ∷ []))
    ≡ some (codes "8:0\n")
unfolding everything
dev_read = refl

database_read :
    node.read_file files
      (join (node.paths.run_udev_data ∷ (b'b' ∷ trim_space (codes "8:0\n")) ∷ []))
    ≡ some (join_with (codes "\n") (map line_of (other (codes "S:disk") ∷ udev_lines)))
unfolding everything
database_read = refl

attributes_from_database_example :
    (disk_serial_number node files (codes "sda") ≡ codes "s=1")
    × (disk_bus_path node files (codes "sda") ≡ codes "pci-1")
    × (disk_model node files (codes "sda") ≡ codes "unknown")
    × (disk_wwn node files (codes "sda") ≡ codes "unknown")
unfolding everything
attributes_from_database_example =
    attributes_from_database node files (codes "sda") (codes "8:0\n") (other (codes "S:disk"))
      udev_lines udev_lines-IsLine dev_read database_read

mounts-NoEmptyLine : NoEmptyLine (node.read_file files node.paths.proc_mounts)
unfolding everything
mounts-NoEmptyLine = (refl, tt)

disks_return_example :
    ((ds : List Disk) × (disks node files ≡ some ds))
    × ((name : Text) → (d : Disk) × (get_disk node files name ≡ some d))
disks_return_example = disks_return node files mounts-NoEmptyLine
