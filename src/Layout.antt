-- ===== src/Layout.antt =====
-- drivers/scsi/swap/core.h: where the parts of the reserved area stand. Offsets are in sectors,
-- from the start of the reserved area.
use scsiswap.Base.{ℕ, ◌*◌, ◌/◌, ◌+◌, ◌-◌}

abbrev pub sector_size : ℕ
sector_size = 512

abbrev pub sector_1m : ℕ
sector_1m = 2 * 1024

abbrev pub sector_8m : ℕ
sector_8m = 16 * 1024

abbrev pub sector_num_per_swap_block : ℕ
sector_num_per_swap_block = 128

abbrev pub max_reserved_sector : ℕ
max_reserved_sector = sector_1m * 1024

abbrev pub data_sector : ℕ
data_sector = sector_1m * 64

abbrev pub data_block_num : ℕ
data_block_num = data_sector / sector_num_per_swap_block

abbrev pub swap_head_string_len : ℕ
swap_head_string_len = 16

abbrev pub swap_head_status_len : ℕ
swap_head_status_len = 16

abbrev pub swap_head_version_len : ℕ
swap_head_version_len = 4

abbrev pub swap_head_bitmap_len : ℕ
swap_head_bitmap_len = data_block_num / 32

abbrev pub swap_head_reserve_len : ℕ
swap_head_reserve_len =
    sector_size
    - swap_head_string_len
    - swap_head_status_len
    - swap_head_version_len
    - 4 * swap_head_bitmap_len
    - 4

abbrev pub max_swap_block_for_use : ℕ
max_swap_block_for_use = 128

abbrev pub swap_head_offset : ℕ
swap_head_offset = sector_8m

abbrev pub swap_head_n_sector : ℕ
swap_head_n_sector = 8

abbrev pub swap_table_offset : ℕ
swap_table_offset = 2 * sector_8m

abbrev pub swap_table_n_sector : ℕ
swap_table_n_sector = 32

abbrev pub swap_data_offset : ℕ
swap_data_offset = 3 * sector_8m

abbrev pub swap_head_backup_offset : ℕ
swap_head_backup_offset = 64

abbrev pub swap_table_backup_offset : ℕ
swap_table_backup_offset = max_reserved_sector - sector_8m

abbrev pub max_swap_head_block_num : ℕ
max_swap_head_block_num = 8 * sector_num_per_swap_block

abbrev pub swap_log_total_sector : ℕ
swap_log_total_sector = sector_8m

abbrev pub swap_log_head_offset : ℕ
swap_log_head_offset = swap_table_backup_offset - swap_log_total_sector

abbrev pub swap_log_data_offset : ℕ
swap_log_data_offset = swap_log_head_offset + sector_1m

-- `SWAP_BLOCK_INDEX`, `SWAP_BLOCK_SECTOR`, `SWAP_SECTOR_ALIGN` on a `sector_t`.
abbrev pub swap_block_index : ℕ → ℕ
swap_block_index sector = sector / sector_num_per_swap_block

abbrev pub swap_block_sector : ℕ → ℕ
swap_block_sector i = i * sector_num_per_swap_block

abbrev pub swap_sector_align : ℕ → ℕ
swap_sector_align sector = swap_block_sector (swap_block_index sector)

abbrev pub swap_block_size : ℕ
swap_block_size = sector_num_per_swap_block * sector_size
