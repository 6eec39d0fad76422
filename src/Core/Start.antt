-- ===== src/Core/Start.antt =====
-- core.c: loading the swaps at start, and the life of the core.
pub mod Stored
pub mod Cycle
pub mod Sealing
pub mod Boot
pub mod Reboot
pub mod Restored
pub mod Taking
pub mod Loading
pub mod Counting
use scsiswap.Base.{
  ℕ, zero, suc, ◌+◌, ◌-◌, ◌*◌, Bool, true, false, Option, none, some, [], ◌∷◌, ◌++◌, Bytes, ◌==◌,
  ◌!=◌, ◌||◌, not, ltb, if◌then◌else◌, replicate, overwrite, slice, u32,
}
use scsiswap.Kernel.{Kernel}
use scsiswap.Layout.{
  sector_size, sector_num_per_swap_block, swap_table_n_sector, swap_table_backup_offset,
  swap_head_offset, swap_data_offset, swap_table_offset,
}
use scsiswap.Format.{Table, table_bytes, table_of}
use scsiswap.State.{
  World, Info, Status, ok, fail, is_ok, M, pure, lift, gets, modify, on_core, atomic_inc, ◌>>=◌,
  ◌>>◌,
}
use scsiswap.Io.{hd_read_sector_retry, hd_sync_cache}
use scsiswap.Core.Flush.{table_checksum, write_until}
use scsiswap.Core.Alloc.{kmalloc}
use scsiswap.Core.Create.{swap_recreate}
use scsiswap.Core.Header.{init_swap_head}

-- The tables of a sector that count, from slot `j` on, `n` slots left: how many, and whether the
-- count ended.
unfoldable pub count_tables : ℕ → ℕ → Bytes → ℕ × Bool
count_tables zero j buffer = (0, false)
count_tables (suc n) j buffer =
    let t = table_of (slice buffer (j * 64) 64) in
    let (more, ended) = count_tables n (j + 1) buffer in
    if t.sec_size != sector_num_per_swap_block
    then (0, true)
    else (if table_checksum t != t.checksum then (0, true) else (more + 1, ended))

-- `swap_table_sync_e`
pub data TableSync : Type 0 where
  no_need_sync master_need_sync backup_need_sync : TableSync

-- How the tables of one sector end: all eight taken, the end found, or a failure.
pub data Taken : Type 0 where
  all_taken end_found refused : Taken

module _ {E : Type 0} (k : Kernel E) where
  -- `calc_swap_info_num`, `n` sectors left.
  unfoldable pub calc_swap_info_num : ℕ → ℕ → ℕ → World E → ℕ × World E
  unfolding count_tables
  calc_swap_info_num zero start total w = (total, w)
  calc_swap_info_num (suc n) start total w =
      let ((s, buffer), w') =
        hd_read_sector_retry k start 1 (some (replicate sector_size 0)) sector_size w in
      let (found, ended) = count_tables 8 0 buffer in
      elim (is_ok s) [
        | false ↦ calc_swap_info_num n (start + 1) total w'
        | true ↦ elim ended [
          | true ↦ (total + found, w')
          | false ↦ calc_swap_info_num n (start + 1) (total + found) w'
        ]
      ]

  -- none is NULL
  unfoldable pub alloc_swap_info_data : ℕ → ℕ → World E → Option Bytes × World E
  alloc_swap_info_data start num w =
      let nbytes = u32 (num * sector_size) in
      let (got, w1) = kmalloc k nbytes w in
      let ((s, buffer), w2) =
        hd_read_sector_retry k start num (some (replicate nbytes 0)) nbytes w1 in
      if got then (if is_ok s then some buffer else none, w2) else (none, w1)

  abbrev pub append_info : Info → World E → World E
  append_info info w =
      on_core
        (λ c. record c { info_list = c.info_list ++ info ∷ []; info_num = atomic_inc c.info_num }) w

  -- A table that passed the checks: it is listed with its data, or, where that could not be read,
  -- gets a new block. The sector's buffer, or none on failure.
  unfoldable pub list_table : ℕ → Table → Bytes → Option Bytes → M E (Option Bytes)
  list_table j t buffer (some bytes) = do
    modify (append_info (record { table = t; buf = some bytes }))
    pure (some buffer)
  list_table j t buffer none = do
    (s, info) ← swap_recreate k none (record { table = t; buf = none })
    let added = do
      modify (append_info info)
      pure (some (overwrite buffer (j * 64) (table_bytes info.table)))
    if is_ok s then added else pure none

  unfoldable pub take_table : ℕ → Table → Bytes → M E (Option Bytes)
  unfolding alloc_swap_info_data list_table
  take_table j t buffer = do
    found ← lift (alloc_swap_info_data t.swap_sec t.sec_size)
    list_table j t buffer found

  -- The loop over the slots of a sector.
  unfoldable pub take_tables : ℕ → ℕ → Bytes → M E (Taken × Bytes)
  unfolding take_table
  take_tables zero j buffer w = some ((all_taken, buffer), w)
  take_tables (suc n) j buffer w =
      let (got, w1) = kmalloc k 112 w in
      let t = table_of (slice buffer (j * 64) 64) in
      let outside =
        ltb t.swap_sec w1.core.sector_data || ltb w1.core.sector_reserve_start t.src_sec in
      if not got
      then some ((refused, buffer), w1)
      else (if t.sec_size != sector_num_per_swap_block
          then some ((end_found, buffer), w1)
          else (if outside || (table_checksum t != t.checksum)
              then some ((refused, buffer), w1)
              else (elim (take_table j t buffer w1) [
                | none ↦ none
                | some (none, w2) ↦ some ((refused, buffer), w2)
                | some (some buffer', w2) ↦ take_tables n (j + 1) buffer' w2
              ])))

  -- One sector goes to the copy that needs it: the places reached in master and backup.
  unfoldable pub sync_sector : TableSync → ℕ → ℕ → Bytes → World E → ℕ × ℕ × World E
  sync_sector no_need_sync master back buffer w = (master, back, w)
  sync_sector master_need_sync master back buffer w =
      let limit = w.core.sector_table + swap_table_n_sector in
      let (master', w') = write_until k (suc (limit - master)) limit master buffer w in
      (master', back, w')
  sync_sector backup_need_sync master back buffer w =
      let limit = w.core.sector_reserve_start + swap_table_backup_offset + swap_table_n_sector in
      let (back', w') = write_until k (suc (limit - back)) limit back buffer w in
      (master, back', w')

  -- The loop over the sectors of the table that is loaded.
  unfoldable pub load_tables : ℕ → ℕ → TableSync → ℕ → ℕ → M E Status
  unfolding take_tables sync_sector
  load_tables zero start sync master back w = some (ok, w)
  load_tables (suc n) start sync master back w =
      let ((s, buffer), w1) =
        hd_read_sector_retry k start 1 (some (replicate sector_size 0)) sector_size w in
      elim (is_ok s) [
        | false ↦ load_tables n (start + 1) sync master back w1
        | true ↦ elim (take_tables 8 0 buffer w1) [
          | none ↦ none
          | some ((taken, buffer'), w2) ↦
              (let (master', back', w3) = sync_sector sync master back buffer' w2 in
                elim taken [
                  | refused ↦ some (fail, w2)
                  | end_found ↦ some (ok, w3)
                  | all_taken ↦ load_tables n (start + 1) sync master' back' w3
                ])
        ]
      ]

  -- The copy with more tables is loaded, and the other one synchronised.
  unfoldable pub init_swap_info : M E Status
  init_swap_info = do
    modify (on_core (λ c. record c { info_list = []; info_num = 0 }))
    start_master ← gets (λ w. w.core.sector_table)
    start_back ← gets (λ w. w.core.sector_reserve_start + swap_table_backup_offset)
    table_num ← lift (calc_swap_info_num swap_table_n_sector start_master 0)
    table_num_back ← lift (calc_swap_info_num swap_table_n_sector start_back 0)
    let load = λ (start : ℕ) (sync : TableSync).
        load_tables swap_table_n_sector start sync start_master start_back
    if ltb table_num table_num_back
        then load start_back master_need_sync
        else if ltb table_num_back table_num
        then load start_master backup_need_sync
        else if table_num == 0
        then pure ok
        else load start_master no_need_sync

  unfoldable pub swap_info_destroy : World E → Status × World E
  swap_info_destroy w = (ok, on_core (λ c. record c { info_list = [] }) w)

  unfoldable pub scsi_swap_core_init : ℕ → M E Status
  unfolding init_swap_info swap_info_destroy
  scsi_swap_core_init reserve_sector = do
    modify (
        on_core (λ c. record c {
          sector_reserve_start = reserve_sector;
          sector_head = reserve_sector + swap_head_offset;
          sector_data = reserve_sector + swap_data_offset;
          sector_table = reserve_sector + swap_table_offset;
        }))
    s ← lift (init_swap_head k (reserve_sector + swap_head_offset))
    let load = do
      s' ← init_swap_info
      let undo = do d ← lift swap_info_destroy; pure fail
      let done = do modify (on_core (λ c. record c { device_dead = 0; user = 0 })); pure ok
      if is_ok s' then done else undo
    if is_ok s then load else pure fail

  -- The loop that waits for the users: the rounds left, and the users seen last.
  unfoldable pub wait_loop : ℕ → ℕ → World E → World E
  wait_loop zero users w = w
  wait_loop (suc n) users w =
      let (users', e) = k.msleep 300 w.env in
      let w' = on_core (λ c. record c { user = users' }) (record w { env = e }) in
      elim (users == 0) [ true ↦ w | false ↦ wait_loop n users' w' ]

  unfoldable pub scsi_swap_core_destroy : World E → Status × World E
  unfolding wait_loop swap_info_destroy
  scsi_swap_core_destroy w =
      let w1 = on_core (λ c. record c { device_dead = atomic_inc c.device_dead }) w in
      let users = w1.core.user in
      let w2 = if users == 0 then w1 else (hd_sync_cache k w1).1 in
      swap_info_destroy (wait_loop 100 users w2)
