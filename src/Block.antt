-- ===== src/Block.antt =====
-- The scan of the node's disks: pkg/block. `Blkid` is blkid.go; the other modules are parts of
-- block_device.go and block.go; `Mount` is mount_linux.go.
pub mod Blkid
pub mod Sysfs
pub mod Numa
pub mod Mounts
pub mod Disk
pub mod Mount
pub mod Info
