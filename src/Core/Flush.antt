-- ===== src/Core/Flush.antt =====
-- core.c: looking up a swap, and writing data, table and head of the swaps to disk.
pub mod Rounds
pub mod Lookup
pub mod Renew
pub mod Tables
pub mod Placed
pub mod Filled
pub mod Stores
pub mod Slots
use scsiswap.Base.{
  ℕ, zero, suc, ◌+◌, ◌-◌, ◌*◌, true, false, Option, none, some, List, [], ◌∷◌, Bytes, leb, ◌==◌,
  if◌then◌else◌, replicate, overwrite, take,
}
use scsiswap.Kernel.{Kernel}
use scsiswap.Crc32.{swap_crc32}
use scsiswap.Layout.{
  sector_size, swap_table_n_sector, swap_table_backup_offset, swap_head_backup_offset,
}
use scsiswap.Format.{Head, Table, head_bytes, table_bytes}
use scsiswap.State.{World, Info, Status, ok, fail, is_ok, on_core}
use scsiswap.Io.{hd_write_sector_retry}

-- `swap_find_swap_info`: the entry's place in the list, and the entry.
unfoldable pub find_info : List Info → ℕ → Option (ℕ × Info)
find_info [] sector = none
find_info (info ∷ infos) sector =
    if info.table.src_sec == sector
    then some (0, info)
    else (elim (find_info infos sector) [ none ↦ none | some (n, i) ↦ some (suc n, i) ])

-- `swap_crc32(~0, table, 52)`: without the checksum and the save sector.
unfoldable pub table_checksum : Table → ℕ
table_checksum t = swap_crc32 0xffffffff (take 52 (table_bytes t))

-- `swap_crc32(~0, head, SECTOR_SIZE - sizeof(u32))`, also `scsi_swap_check`.
unfoldable pub head_checksum : Head → ℕ
head_checksum h = swap_crc32 0xffffffff (take 508 (head_bytes h))

module _ {E : Type 0} where
  unfoldable pub swap_find_swap_info : ℕ → World E → Option (ℕ × Info)
  unfolding find_info
  swap_find_swap_info sector w = find_info w.core.info_list sector

module _ {E : Type 0} (k : Kernel E) where
  unfoldable pub flush_swap_info_data : Info → World E → Status × World E
  flush_swap_info_data info =
      hd_write_sector_retry k info.table.swap_sec info.table.sec_size info.buf
        (info.table.sec_size * sector_size)

  -- `while (0 != hd_write_sector_retry(device, at++, 1, buffer, SECTOR_SIZE))` with its break at
  -- `limit`: the value of `at` behind the loop. The rounds left are `limit - at` and one.
  unfoldable pub write_until : ℕ → ℕ → ℕ → Bytes → World E → ℕ × World E
  write_until zero limit at buffer w = (at, w)
  write_until (suc n) limit at buffer w =
      let (s, w') = hd_write_sector_retry k at 1 (some buffer) sector_size w in
      elim (is_ok s) [
        | true ↦ (at + 1, w')
        | false ↦ elim (leb limit (at + 1)) [
          | true ↦ (at + 1, w')
          | false ↦ write_until n limit (at + 1) buffer w'
        ]
      ]

  -- One sector of tables goes to the master and to the backup.
  unfoldable pub write_copies : ℕ → ℕ → Bytes → World E → ℕ × ℕ × World E
  unfolding write_until
  write_copies at back buffer w =
      let limit = w.core.sector_table + swap_table_n_sector in
      let limit_back =
        w.core.sector_reserve_start + swap_table_backup_offset + swap_table_n_sector in
      let (at', w') = write_until (suc (limit - at)) limit at buffer w in
      let (back', w'') = write_until (suc (limit_back - back)) limit_back back buffer w' in
      (at', back', w'')

  -- The loop over the list with `sect_index`, `sect_back_index`, the slot `i` and the buffer;
  -- each entry notes its save sector. Behind it, what is left in the buffer goes out.
  unfoldable pub flush_entries : List Info → ℕ → ℕ → ℕ → Bytes → World E → List Info × World E
  unfolding write_copies
  flush_entries [] at back i buffer w =
      let (at', back', w') = write_copies at back buffer w in ([], if i == 0 then w else w')
  flush_entries (info ∷ infos) at back i buffer w =
      let fresh = if i == 0 then replicate sector_size 0 else buffer in
      let t = info.table in
      let t' = record t { save_sec = at } in
      let filled = overwrite fresh (i * 64) (table_bytes t') in
      elim (i == 7) [
        | true ↦
            (let (at', back', w') = write_copies at back filled w in
              let (rest, w'') = flush_entries infos at' back' 0 filled w' in
              (record info { table = t' } ∷ rest, w''))
        | false ↦
            (let (rest, w') = flush_entries infos at back (i + 1) filled w in
              (record info { table = t' } ∷ rest, w'))
      ]

  unfoldable pub flush_swap_info_table : World E → Status × World E
  unfolding flush_entries
  flush_swap_info_table w =
      let (infos, w') =
        flush_entries w.core.info_list w.core.sector_table
          (w.core.sector_reserve_start + swap_table_backup_offset) 0 (replicate sector_size 0) w in
      (ok, on_core (λ c. record c { info_list = infos }) w')

  -- The master's failure is only logged.
  unfoldable pub flush_swap_head : World E → Status × World E
  unfolding head_checksum
  flush_swap_head w =
      let h = w.core.head in
      let h' = record h { checksum = head_checksum h } in
      let w0 = on_core (λ c. record c { head = h' }) w in
      let (s, w1) =
        hd_write_sector_retry k w0.core.sector_head 1 (some (head_bytes h')) sector_size w0 in
      let (s', w2) =
        hd_write_sector_retry k (w1.core.sector_head + swap_head_backup_offset) 1
          (some (head_bytes h')) sector_size w1 in
      (if is_ok s' then ok else fail, w2)
