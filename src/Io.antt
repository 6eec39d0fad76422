-- ===== src/Io.antt =====
-- drivers/scsi/swap/utils.c: sector reads and writes as SCSI commands (the branch for kernels
-- from 2.6.29 on). A null `sdev` does not occur: the world is the device.
pub mod Effects
pub mod Outcomes
use scsiswap.Base.{
  ℕ, zero, suc, ◌+◌, ◌-◌, ◌*◌, ◌/◌, ◌%◌, ◌^◌, Bool, true, false, ◌&&◌, ◌||◌, Option, none, some, [],
  ◌∷◌, ◌++◌, Bytes, ltb, ◌==◌, ◌!=◌, if◌then◌else◌, replicate, u32, not,
}
use scsiswap.Kernel.{
  Kernel, Command, Reply, Direction, from_device, to_device, no_data, read_10, write_10,
  reassign_blocks, test_unit_ready, synchronize_cache, driver_sense, did_no_connect, did_bad_target,
  sam_stat_check_condition, unit_attention, not_ready,
}
use scsiswap.Layout.{sector_size}
use scsiswap.State.{World, S, Status, ok, fail, eio, enodev, mark_dead}

-- `(x >> n) & 0xff`
abbrev pub byte_at : ℕ → ℕ → ℕ
byte_at x n = x / 2 ^ n % 256

-- `cdb[32]` of READ_10 and WRITE_10: byte 1 to 9 as the code fills them, the rest 0.
unfoldable pub rw_cdb : ℕ → ℕ → ℕ → Bytes
rw_cdb opcode sector sec_num =
    opcode
    ∷ 0
    ∷ byte_at sector 24
    ∷ byte_at sector 16
    ∷ byte_at sector 8
    ∷ (sector % 256)
    ∷ byte_at sec_num 16
    ∷ byte_at sec_num 8
    ∷ (sec_num % 256)
    ∷ 0
    ∷ replicate 22 0

abbrev pub driver_byte : ℕ → ℕ
driver_byte ret = ret / 2 ^ 24 % 256

abbrev pub host_byte : ℕ → ℕ
host_byte ret = ret / 2 ^ 16 % 256

-- The result word after the filter: sense data alone is no error, and neither is a check
-- condition whose sense data is all zero.
unfoldable pub filter_result : Reply → ℕ
filter_result r =
    if driver_byte r.result == driver_sense
    then (let ret = r.result % 2 ^ 24 in
        if (ret / sam_stat_check_condition % 2 == 1)
          && (r.sense_key == 0 && (r.asc == 0 && r.ascq == 0))
        then ret - sam_stat_check_condition
        else ret)
    else r.result

-- The end of the three commands: a device that is gone is marked dead.
unfoldable pub finish : {E : Type 0} → Reply → World E → Status × World E
unfolding filter_result
finish r w =
    let ret = filter_result r in
    if ret == 0
    then (ok, w)
    else (if (host_byte ret == did_no_connect) || (host_byte ret == did_bad_target)
        then (fail, mark_dead w)
        else (fail, w))

module _ {E : Type 0} (k : Kernel E) where
  -- `scsi_execute`
  unfoldable pub execute : Command → World E → Reply × World E
  execute c w = let (r, e) = k.scsi_execute c w.env in (r, record w { env = e })

  -- The status, and the buffer's contents after the call.
  unfoldable pub hd_read_sector :
      ℕ → ℕ → Option Bytes → ℕ → ℕ → ℕ → World E → (Status × Bytes) × World E
  unfolding execute finish rw_cdb
  hd_read_sector sector sec_num none len timeout retries w = ((fail, []), w)
  hd_read_sector sector sec_num (some buf) len timeout retries w =
      if ltb (u32 len) (u32 (sector_size * sec_num))
      then ((fail, buf), w)
      else (let (r, w') =
            execute
              (record {
                cdb = rw_cdb read_10 sector sec_num;
                direction = from_device;
                buf = buf;
                len = len;
                timeout = timeout;
                retries = retries;
              })
              w in
          let (s, w'') = finish r w' in ((s, r.buf), w''))

  unfoldable pub hd_read_sector_retry :
      ℕ → ℕ → Option Bytes → ℕ → World E → (Status × Bytes) × World E
  hd_read_sector_retry sector sec_num buf len = hd_read_sector sector sec_num buf len 10 5

  unfoldable pub hd_read_sector_no_retry :
      ℕ → ℕ → Option Bytes → ℕ → World E → (Status × Bytes) × World E
  hd_read_sector_no_retry sector sec_num buf len = hd_read_sector sector sec_num buf len 5 0

  unfoldable pub hd_write_sector : ℕ → ℕ → Option Bytes → ℕ → ℕ → ℕ → World E → Status × World E
  unfolding execute finish rw_cdb
  hd_write_sector sector sec_num none len timeout retries w = (fail, w)
  hd_write_sector sector sec_num (some buf) len timeout retries w =
      if ltb (u32 len) (u32 (sector_size * sec_num))
      then (fail, w)
      else (let (r, w') =
            execute
              (record {
                cdb = rw_cdb write_10 sector sec_num;
                direction = to_device;
                buf = buf;
                len = len;
                timeout = timeout;
                retries = retries;
              })
              w in
          finish r w')

  unfoldable pub hd_write_sector_retry : ℕ → ℕ → Option Bytes → ℕ → World E → Status × World E
  hd_write_sector_retry sector sec_num buf len = hd_write_sector sector sec_num buf len 10 5

  unfoldable pub hd_write_sector_no_retry : ℕ → ℕ → Option Bytes → ℕ → World E → Status × World E
  hd_write_sector_no_retry sector sec_num buf len = hd_write_sector sector sec_num buf len 5 0

  unfoldable pub hd_reassign_blocks : ℕ → ℕ → Option Bytes → ℕ → ℕ → ℕ → World E → Status × World E
  unfolding execute finish
  hd_reassign_blocks longlba longlist none param_len timeout retries w = (fail, w)
  hd_reassign_blocks longlba longlist (some paramp) param_len timeout retries w =
      let (r, w') =
        execute
          (record {
            cdb = reassign_blocks ∷ (longlba % 2 * 2 + longlist % 2) ∷ 0 ∷ 0 ∷ 0 ∷ 0 ∷ [];
            direction = to_device;
            buf = paramp;
            len = param_len;
            timeout = timeout;
            retries = retries;
          })
          w in
      finish r w'

-- The eight bytes of a sector, most significant first; `sector + j` for `count` values of `j`.
unfoldable pub reassign_sectors : ℕ → ℕ → Bytes
reassign_sectors zero sector = []
reassign_sectors (suc count) sector =
    byte_at sector 56
    ∷ byte_at sector 48
    ∷ byte_at sector 40
    ∷ byte_at sector 32
    ∷ byte_at sector 24
    ∷ byte_at sector 16
    ∷ byte_at sector 8
    ∷ (sector % 256)
    ∷ reassign_sectors count ((sector + 1) % 2 ^ 64)

-- The parameter list: the length of what follows, and the sectors.
unfoldable pub reassign_params : ℕ → ℕ → Bytes
unfolding reassign_sectors
reassign_params sector count =
    byte_at (8 * count) 24
    ∷ byte_at (8 * count) 16
    ∷ byte_at (8 * count) 8
    ∷ (8 * count % 256)
    ∷ reassign_sectors count sector

module _ {E : Type 0} (k : Kernel E) where
  unfoldable pub hd_reassign_successive_sectors : ℕ → ℕ → World E → Status × World E
  unfolding hd_reassign_blocks reassign_params
  hd_reassign_successive_sectors sector count w =
      if ltb 1024 count
      then (fail, w)
      else (let (got, e) = k.kmalloc (4 + 8 * count) w.env in
          let w' = record w { env = e } in
          if got
          then hd_reassign_blocks k 1 1 (some (reassign_params sector count)) (4 + 8 * count) 10 0
              w'
          else (fail, w'))

  -- One round of the `do … while` loop: whether it saw a unit attention. The sense data is there
  -- only if its buffer was allocated.
  unfoldable pub test_unit_round : Bool → World E → Bool × Reply × World E
  unfolding execute
  test_unit_round got w =
      let (r, w') =
        execute k
          (record {
            cdb = test_unit_ready ∷ 0 ∷ 0 ∷ 0 ∷ 0 ∷ 0 ∷ [];
            direction = no_data;
            buf = [];
            len = 0;
            timeout = 10;
            retries = 0;
          })
          w in
      let attention = got && (r.sense_valid && (r.sense_key == unit_attention)) in
      (attention, r, if w.removable && attention then record w' { changed = true } else w')

  -- The loop on the value of `retries`: it goes round again where `--retries` is not 0.
  unfoldable pub test_unit_loop : Bool → ℕ → World E → Reply × World E
  unfolding test_unit_round
  test_unit_loop got zero w = let (attention, r, w') = test_unit_round got w in (r, w')
  test_unit_loop got (suc n) w =
      let (attention, r, w') = test_unit_round got w in
      elim (attention && (n != 0)) [ true ↦ test_unit_loop got n w' | false ↦ (r, w') ]

  -- What stands behind the loop: a removable device that is not ready or has changed is no error.
  unfoldable pub test_unit_end : Bool → Reply → World E → ℕ × World E
  test_unit_end got r w =
      if got
        && (w.removable
            && (r.sense_valid && ((r.sense_key == unit_attention) || (r.sense_key == not_ready))))
      then (0, record w { changed = true })
      else (r.result, w)

  -- `hd_test_unit_ready`: the result word. `sizeof(struct scsi_sense_hdr)` is 8.
  unfoldable pub hd_test_unit_ready : World E → ℕ × World E
  unfolding test_unit_loop test_unit_end
  hd_test_unit_ready w =
      let (got, e) = k.kmalloc 8 w.env in
      let (r, w') = test_unit_loop got 3 (record w { env = e }) in test_unit_end got r w'

  -- The `for` loop of `hd_sync_cache`: the result of its last command.
  unfoldable pub sync_loop : ℕ → ℕ → World E → ℕ × World E
  unfolding execute
  sync_loop zero res w = (res, w)
  sync_loop (suc n) res w =
      let (r, w') =
        execute k
          (record {
            cdb = synchronize_cache ∷ replicate 9 0;
            direction = no_data;
            buf = [];
            len = 0;
            timeout = 60;
            retries = 2;
          })
          w in
      elim (r.result == 0) [ true ↦ (0, w') | false ↦ sync_loop n r.result w' ]

  unfoldable pub hd_sync_cache : World E → Status × World E
  unfolding sync_loop
  hd_sync_cache w =
      if not (k.scsi_device_online w.env)
      then (enodev, w)
      else (let (res, w') = sync_loop 3 0 w in if res == 0 then (ok, w') else (eio, w'))
