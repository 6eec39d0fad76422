-- ===== src/Scmd/RoundTrip.antt =====
-- The command blocks that utils.c builds, as swap.c reads them back.
use scsiswap.Base.{ℕ, ◌%◌, ◌^◌, ◌≡◌, refl, arith}
use scsiswap.Kernel.{read_10, write_10}
use scsiswap.Io.{rw_cdb}
use scsiswap.Scmd.{sector_from_scmd, scmd_get_action, read_action, write_action}

-- The block of a WRITE_10 names the sector modulo 2^32 and the count modulo 2^16, and is a write.
pub sector_from_scmd-write :
    (sector num : ℕ)
    → (sector_from_scmd (rw_cdb write_10 sector num) ≡ (sector % 2 ^ 32, num % 2 ^ 16))
      × (scmd_get_action (rw_cdb write_10 sector num) ≡ write_action)
unfolding sector_from_scmd rw_cdb scmd_get_action
sector_from_scmd-write sector num = (ground arith, refl)

-- The block of a READ_10 names the sector modulo 2^32 and the count modulo 2^16, and is a read.
pub sector_from_scmd-read :
    (sector num : ℕ)
    → (sector_from_scmd (rw_cdb read_10 sector num) ≡ (sector % 2 ^ 32, num % 2 ^ 16))
      × (scmd_get_action (rw_cdb read_10 sector num) ≡ read_action)
unfolding sector_from_scmd rw_cdb scmd_get_action
sector_from_scmd-read sector num = (ground arith, refl)
