-- ===== src/Udev.antt =====
-- pkg/udev: `Device` is device.go, the others are uevent.go.
pub mod Device
pub mod Duration
pub mod Handlers
pub mod Monitor
