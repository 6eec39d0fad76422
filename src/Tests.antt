-- ===== src/Tests.antt =====
-- Concrete rings, worlds and buffers, and the theorems on them.
pub mod Worlds
mod Disks
mod Starts
mod Transfers
mod Blocks
mod Formats
