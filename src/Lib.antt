-- ===== src/Lib.antt =====
-- The node disk manager: a daemon that finds the disks of a node, keeps a BlockDevice resource for each
-- disk and each partition in the Kubernetes cluster, mounts those that ask for it, and follows the udev
-- events of the kernel.
--
-- The parts, and how they meet:
-- Block (pkg/block) reads the node: disks, partitions, mounts, the attributes of sysfs and of the udev
-- database, and blkid. Devices (pkg/controller/blockdevice/blockdevice.go) makes resources of a disk.
-- Controller (pkg/controller) registers the resources at the start, mounts a device on a change, and
-- deletes what hangs on a deleted device or node. Udev (pkg/udev) does the same steps for events.
-- Main (main.go) starts all of it. Util (pkg/util, pkg/version) has the names.
--
-- Where the code is:
-- Api: pkg/apis/longhorn.io/v1beta1/types.go, a record for each struct; Api/Equal: reflect.DeepEqual.
-- DeepCopy: zz_generated_deepcopy.go beside it, over a heap: a slice of conditions is an address. Separate
--   is about what copies share, and Items and Apart about lists. The other parts take the copy of a value to be
--   the value, which Separate justifies.
-- Generated: pkg/generated/controllers/longhorn.io, over lasso's client and client-go's indexer; Version:
--   the interface.go files; Objects:
--   zz_generated_register.go and zz_generated_list_types.go. Filled makes the interface Cluster of it.
-- Block/Blkid: pkg/block/blkid.go. Block/Mount: pkg/block/mount_linux.go. Block/Sysfs, Block/Numa,
--   Block/Mounts, Block/Disk and Block/Info: pkg/block/block_device.go and block.go; a function keeps its name, with
--   underscores (diskSizeBytes is disk_size_bytes).
-- Devices: GetNewBlockDevices and GetPartitionBlockDevices.
-- Controller/Register, Controller/Save, Controller/FileSystem, Controller/Change, Controller/Delete:
--   pkg/controller/blockdevice/controller.go, and pkg/controller/node/node.go in Controller/Delete.
-- Udev/Device: pkg/udev/device.go. Udev/Duration, Udev/Handlers, Udev/Monitor: pkg/udev/uevent.go.
-- Main: main.go and pkg/option/option.go. Main/Registered joins the scan to the registration;
--   Main/Monitoring makes the monitor of udev of the options.
-- Daemon: all handlers together, as the steps of one transition system (Steps), with the invariant of the
--   stored objects. A step is a run of a handler. Between the steps and inside of each call of the API
--   others act (Shared): the other handlers of the daemon, which run at the same time, and other clients, of
--   which Shared says what they may write.
-- Daemonset: cmd/ndm_daemonset/main.go.
-- Text, Path, Labels: the standard library's strings, strconv and path/filepath, and Go's maps of strings,
--   as far as the code uses them. Base: helpers. Effects: runs that return, panic, or starve.
--
-- What is a parameter:
-- Host is the node: the files, the effects of mkdir and mount, the command blkid, and the functions of ghw.
-- Cluster is the Kubernetes API, each call a step of the cluster's state; Cluster/Laws says what the
-- controllers rely on while nobody else writes: the cache is a list of its own, which may be older than the
-- cluster, and a deleted object may stay until its finalizers are gone. World pairs the two with the pauses that were made. Toolkit
-- has wrangler's conditions and longhorn-manager's list of file systems; Controller/Change/Mounted and
-- Controller/Change/Settled have their laws. Tests/Memory is a cluster in memory that keeps the laws.
--
-- Numbers and texts: a text is a list of code points, so that all contents are valid UTF-8. A uint64 is a
-- number with its wrap-around written out; the durations of Go are int64 patterns. A nil slice of conditions
-- and an empty one are one list outside of DeepCopy, so that reflect.DeepEqual does not tell them apart.
--
-- Fuel: the loop of diskNUMANodeID has two rounds, which are enough for each link. The udev handlers call
-- themselves while the cluster fails; a call takes one unit, and a run without fuel has starved. RemoveBlockDevice
-- needs a unit for each call up to the first that does not fail, AddBlockDevice one where nothing fails.
--
-- Not modelled: the code generator; the socket of netlink, signals, the leader election and goroutines; logging;
-- the listener of the profiler, of which only the address is; and vendor.
pub mod Base
pub mod Text
pub mod Path
pub mod Labels
pub mod Api
pub mod Host
pub mod Block
pub mod Effects
pub mod Cluster
pub mod World
pub mod Util
pub mod DeepCopy
pub mod Generated
pub mod Devices
pub mod Controller
pub mod Udev
pub mod Daemon
pub mod Main
pub mod Tests
pub mod Daemonset
