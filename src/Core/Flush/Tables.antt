-- ===== src/Core/Flush/Tables.antt =====
-- core.c: writing the tables keeps the blocks of the swaps, and their order.
use scsiswap.Base.{
  ℕ, zero, suc, ◌+◌, ◌-◌, ◌*◌, ◌≡◌, refl, ap, Bool, true, false, some, List, [], ◌∷◌, Bytes, ◌==◌,
  replicate, overwrite, leb, if◌then◌else◌,
}
use scsiswap.Kernel.{Kernel}
use scsiswap.State.{World, Info, is_ok}
use scsiswap.Format.{table_bytes}
use scsiswap.Layout.{sector_size, swap_table_n_sector, swap_table_backup_offset}
use scsiswap.Io.{hd_write_sector_retry}
use scsiswap.Io.Effects.{IsCalm, IsCalm-refl, IsCalm-trans, hd_write_sector-IsCalm, on_elim}
use scsiswap.Core.Bitmap.Laws.{Grows-refl}
use scsiswap.Core.Quiet.{IsQuiet-of_calm}
use scsiswap.Core.Flush.{
  flush_swap_info_data, write_until, write_copies, flush_entries, flush_swap_info_table,
}
use scsiswap.Core.Invariant.{indexes, Grown}
use scsiswap.Core.Alloc.Fresh.{bits_of}

-- The two cases of a test.
either : {A : Type 0} (P : A → Type 0) (b : Bool) (x y : A) → P x → P y → P (if b then x else y)
either P true x y p q = p
either P false x y p q = q

pub on_cases :
    {A : Type 0} (P : A → Type 0) (b : Bool) (x y : A)
    → P x
    → P y
    → P (let r : A = elim b [ true ↦ x | false ↦ y ] in r)
on_cases P true x y p q = p
on_cases P false x y p q = q

module _ {E : Type 0} (k : Kernel E) where
  write_until-IsCalm :
      (n limit at : ℕ) (buffer : Bytes) (w : World E)
      → IsCalm w (write_until k n limit at buffer w).1
  unfolding write_until hd_write_sector_retry
  write_until-IsCalm zero limit at buffer w = IsCalm-refl w
  write_until-IsCalm (suc n) limit at buffer w =
      let (s, w') = hd_write_sector_retry k at 1 (some buffer) sector_size w in
      let c = hd_write_sector-IsCalm k at 1 (some buffer) sector_size 10 5 w in
      on_elim w (is_ok s) (at + 1, w') _ c
        (on_elim w (leb limit (at + 1)) (at + 1, w') (write_until k n limit (at + 1) buffer w') c
          (IsCalm-trans c (write_until-IsCalm n limit (at + 1) buffer w')))

  write_copies-IsCalm :
      (at back : ℕ) (buffer : Bytes) (w : World E) → IsCalm w (write_copies k at back buffer w).2
  unfolding write_copies
  write_copies-IsCalm at back buffer w =
      let limit = w.core.sector_table + swap_table_n_sector in
      let limit_back =
        w.core.sector_reserve_start + swap_table_backup_offset + swap_table_n_sector in
      let (at', w') = write_until k (suc (limit - at)) limit at buffer w in
      IsCalm-trans (write_until-IsCalm (suc (limit - at)) limit at buffer w)
        (write_until-IsCalm (suc (limit_back - back)) limit_back back buffer w')

  -- The list that comes back has the same blocks in the same order, and the writes are calm.
  pub flush_entries_lem :
      (infos : List Info) (at back i : ℕ) (buffer : Bytes) (w : World E)
      → (let (infos', w') = flush_entries k infos at back i buffer w in
          (indexes infos' ≡ indexes infos) × IsCalm w w')
  unfolding flush_entries
  flush_entries_lem [] at back i buffer w = (refl, written)
    where
      written :
          IsCalm w
            (if i == 0 then w else (let (at', back', w') = write_copies k at back buffer w in w'))
      written =
          either (IsCalm w) (i == 0) _ _ (IsCalm-refl w) (write_copies-IsCalm at back buffer w)
  flush_entries_lem (info ∷ infos) at back i buffer w =
      let fresh = if i == 0 then replicate sector_size 0 else buffer in
      let t = info.table in
      let t' = record t { save_sec = at } in
      let filled = overwrite fresh (i * 64) (table_bytes t') in
      let (at', back', w') = write_copies k at back filled w in
      let ih = flush_entries_lem infos at' back' 0 filled w' in
      let next = flush_entries_lem infos at back (i + 1) filled w in
      on_cases
        (λ (r : List Info × World E).
          (indexes r.0 ≡ info.table.index ∷ indexes infos) × IsCalm w r.1)
        (i == 7) _ _
        (
          ap (λ is. info.table.index ∷ is) ih.0,
          IsCalm-trans (write_copies-IsCalm at back filled w) ih.1,
        )
        (ap (λ is. info.table.index ∷ is) next.0, next.1)

  pub flush_swap_info_table-Grown : (w : World E) → Grown w (flush_swap_info_table k w).1
  unfolding flush_swap_info_table
  flush_swap_info_table-Grown w =
      let (same, c) =
        flush_entries_lem w.core.info_list w.core.sector_table
          (w.core.sector_reserve_start + swap_table_backup_offset) 0 (replicate sector_size 0) w in
      record {
        user = c.user;
        blocks = same;
        grows = rw (IsQuiet-of_calm c).bits (Grows-refl (bits_of w));
        logs = c.logs;
      }

  pub flush_swap_info_data-IsCalm :
      (info : Info) (w : World E) → IsCalm w (flush_swap_info_data k info w).1
  unfolding flush_swap_info_data hd_write_sector_retry
  flush_swap_info_data-IsCalm info w = hd_write_sector-IsCalm k _ _ info.buf _ 10 5 w
