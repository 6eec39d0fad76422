-- ===== src/Scmd.antt =====
-- drivers/scsi/swap/swap.c: reading a command block back, for the simulated bad sectors.
pub mod RoundTrip
use scsiswap.Base.{
  ℕ, ◌+◌, ◌*◌, ◌^◌, ◌%◌, Bool, true, false, Bytes, get_or, ◌==◌, ◌||◌, not, if◌then◌else◌,
}
use scsiswap.Kernel.{read_6, write_6, read_10, write_10, read_12, write_12, read_16, write_16}
use scsiswap.State.{World}
use scsiswap.Sim.{scsi_swap_sim_hit}

-- `(u32)cdb[i]`
abbrev byte : Bytes → ℕ → ℕ
byte cdb i = get_or cdb i 0

abbrev be_word : Bytes → ℕ → ℕ
be_word cdb i =
    byte cdb i * 2 ^ 24 + byte cdb (i + 1) * 2 ^ 16 + byte cdb (i + 2) * 2 ^ 8 + byte cdb (i + 3)

abbrev is_either : ℕ → ℕ → ℕ → Bool
is_either op a b = (op == a) || (op == b)

-- `sector_from_scmd`: the sector and the count.
unfoldable pub sector_from_scmd : Bytes → ℕ × ℕ
sector_from_scmd cdb =
    let op = byte cdb 0 in
    if is_either op read_6 write_6
    then (byte cdb 1 % 32 * 2 ^ 16 + byte cdb 2 * 2 ^ 8 + byte cdb 3, byte cdb 4)
    else (if is_either op read_10 write_10
        then (be_word cdb 2, byte cdb 7 * 2 ^ 8 + byte cdb 8)
        else (if is_either op read_12 write_12
            then (be_word cdb 2, be_word cdb 6)
            else (if is_either op read_16 write_16
                then (be_word cdb 2 * 2 ^ 32 + be_word cdb 6, be_word cdb 10)
                else (0, 0))))

-- SCSI_ACTION_UNKNOWN, SCSI_ACTION_READ, SCSI_ACTION_WRITE
pub data Action : Type 0 where
  unknown_action read_action write_action : Action

unfoldable pub scmd_get_action : Bytes → Action
scmd_get_action cdb =
    let op = byte cdb 0 in
    if is_either op read_6 read_10 || is_either op read_12 read_16
    then read_action
    else (if is_either op write_6 write_10 || is_either op write_12 write_16
        then write_action
        else unknown_action)

abbrev pub is_write_action : Action → Bool
is_write_action write_action = true
is_write_action _ = false

module _ {E : Type 0} where
  unfoldable pub scmd_should_be_bad : Bytes → World E → Bool
  unfolding sector_from_scmd scmd_get_action
  scmd_should_be_bad cdb w =
      let (sector, num) = sector_from_scmd cdb in
      if not w.enable
      then false
      else (if not (is_write_action (scmd_get_action cdb))
          then false
          else scsi_swap_sim_hit sector num w)
