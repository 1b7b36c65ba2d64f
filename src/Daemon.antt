-- ===== src/Daemon.antt =====
-- The whole daemon on one node: every handler, in any order, with other clients in between.
pub mod Ensures
pub mod Shared
pub mod Calls
pub mod Removing
pub mod Known
pub mod Saving
pub mod Changing
pub mod Events
pub mod Starting
pub mod Steps
