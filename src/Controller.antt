-- ===== src/Controller.antt =====
-- pkg/controller/blockdevice/controller.go: the block device controller. `Save` creates and updates,
-- `Change` and `Delete` are the two handlers; the scan of the node is in `Register`.
pub mod Save
pub mod Register
pub mod FileSystem
pub mod Change
pub mod Delete
