-- ===== src/Tests/Numbers.antt =====
-- The sizes of the disk of the tests, as the decimal numbers of its files.
use disk_manager.Base.{◌≡◌, ◌*◌, ◌%◌, ◌^◌}
use disk_manager.Text.{codes}
use disk_manager.Block.Sysfs.{
  sector_size, disk_size_bytes, partition_size_bytes, disk_physical_block_size_bytes,
}
use disk_manager.Block.Sysfs.Sizes.{
  written, size_file, partition_file, block_size_file, sizes-decimal,
}
use disk_manager.Tests.Node.{node, files}

sizes-decimal_example :
    (disk_size_bytes node files (codes "sda")
      ≡ (written (node.read_file files (size_file node files (codes "sda"))) * sector_size)
        % 2 ^ 64)
    × (partition_size_bytes node files (codes "sda") (codes "sda1")
        ≡ (written (node.read_file files (partition_file node files (codes "sda") (codes "sda1")))
            * sector_size)
          % 2 ^ 64)
    × (disk_physical_block_size_bytes node files (codes "sda")
        ≡ written (node.read_file files (block_size_file node files (codes "sda"))))
sizes-decimal_example = sizes-decimal node files (codes "sda") (codes "sda1")
