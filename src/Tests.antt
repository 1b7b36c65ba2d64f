-- ===== src/Tests.antt =====
-- A cluster, a node and devices for tests, and the results at concrete inputs.
mod Memory
mod Decide
mod Node
mod Block
mod Controller
mod Changing
mod Udev
mod Daemon
mod Reach
mod Numbers
mod Copies
mod Generated
mod Updating
mod Settled
mod Typed
