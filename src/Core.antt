-- ===== src/Core.antt =====
-- drivers/scsi/swap/core.c
pub mod Bitmap
pub mod Steady
pub mod Quiet
pub mod Flush
pub mod Alloc
pub mod Create
pub mod Transfer
pub mod Header
pub mod Start
pub mod Query
pub mod Invariant
pub mod Ready
