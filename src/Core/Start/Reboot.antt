-- ===== src/Core/Start/Reboot.antt =====
-- core.c: the tables that `flush_swap_info_table` wrote are the swaps of the next start.
use scsiswap.Core.Flush.Tables.{on_cases}
use scsiswap.Format.{Table}
use scsiswap.Core.Start.{init_swap_info}
use mathlib.Core.Path.{subst}
use scsiswap.Core.Flush.Placed.{Flushed, flush_entries-Flushed}
use scsiswap.Core.Start.Restored.{Restores, init_swap_info-Restores}
use scsiswap.Layout.{swap_table_backup_offset}
use scsiswap.Core.Start.Stored.{IsStored}
use scsiswap.Disk.{Disk}
use scsiswap.State.{Info, World}
use scsiswap.Core.Flush.{write_copies, flush_entries, flush_swap_info_table}
use scsiswap.Base.{
  List, [], ap, refl, ◌==◌, ◌∷◌, arith, length-replicate, Bytes, length, map, ℕ, ◌*◌, ◌+◌, ◌<◌, ◌≡◌,
  ◌≤◌,
}
use scsiswap.Core.Flush.Stores.{backup-IsCopy, filled, master-IsCopy, EachLive, IsCopy}
use scsiswap.Core.Flush.Slots.{zeros, table_in}
use scsiswap.Kernel.{Kernel}

-- The sectors of a copy that `total` tables leave free begin with no table.
abbrev pub Vacant : (ℕ → Bytes) → (at total : ℕ) → Type 0
Vacant f at total = (x : ℕ) → total ≤ 8 * x → x < 32 → ¬ ((table_in (f (at + x)) 0).sec_size ≡ 128)

-- The table of a swap, but for its save sector.
abbrev pub unsaved : Info → Table
unsaved info = record info.table { save_sec = 0 }

module _ {E : Type 0} {k : Kernel E} (d : Disk k) where
  abbrev pub backup_of : World E → ℕ
  backup_of w = w.core.sector_reserve_start + swap_table_backup_offset

  -- The swaps can be flushed: they have room in a copy of the table, each can be taken by a start,
  -- the copies are apart and in reach of a command, and what is free of them is vacant.
  pub record IsDurable (w : World E) : Type 0 where
    pub room : length w.core.info_list ≤ 256
    pub live : EachLive w.core.sector_data w.core.sector_reserve_start w.core.info_list
    pub apart : w.core.sector_table + 32 ≤ backup_of w
    pub small : backup_of w + 32 < 4294967296
    pub master : Vacant (d.content w.env) w.core.sector_table (length w.core.info_list)
    pub backup : Vacant (d.content w.env) (backup_of w) (length w.core.info_list)

  -- A later world: the disk is the one that `v` left, and the reserved area where it was in `w`.
  pub record IsLater (w v u : World E) : Type 0 where
    pub content : d.content u.env ≡ d.content v.env
    pub sector_table : u.core.sector_table ≡ w.core.sector_table
    pub sector_data : u.core.sector_data ≡ w.core.sector_data
    pub sector_reserve_start : u.core.sector_reserve_start ≡ w.core.sector_reserve_start

  -- What a copy holds behind a flush.
  pub flushed_copy :
      (w : World E) (h : IsDurable w) (at : ℕ)
      → IsCopy d w.core.sector_table
          (backup_of w)
          w.core.sector_data
          w.core.sector_reserve_start
          h.apart
          h.small
          at
      → Vacant (d.content w.env) at (length w.core.info_list)
      → let v = (flush_swap_info_table k w).1 in
        IsStored
          (d.content v.env)
          at
          w.core.sector_data
          w.core.sector_reserve_start
          0
          (map (λ x. x.table) v.core.info_list)
  unfolding flush_swap_info_table
  flushed_copy w h at copy vacant =
      let infos = w.core.info_list in
      let master = w.core.sector_table in
      let backup = backup_of w in
      let run =
        flush_entries-Flushed d master backup w.core.sector_data w.core.sector_reserve_start h.apart
          h.small at copy infos 0 0 (zeros 512) w (omega arith) (omega (arith, h.room))
          (length-replicate 512 0) (λ pos. absurd (omega arith)) (λ x le. vacant x (omega arith))
          h.live in
      let from_start =
        subst
          (λ x.
            Flushed d master backup w.core.sector_data w.core.sector_reserve_start h.apart h.small
              at copy 0 0 (zeros 512) (d.content w.env)
              (flush_entries k infos x (backup + 0) 0 (zeros 512) w))
          {x = master + 0} {y = master} (omega arith) run in
      (subst
        (λ x.
          Flushed d master backup w.core.sector_data w.core.sector_reserve_start h.apart h.small at
            copy 0 0 (zeros 512) (d.content w.env) (flush_entries k infos master x 0 (zeros 512) w))
        {x = backup + 0} {y = backup} (omega arith) from_start).stored

  -- The list that a flush leaves differs in the save sectors only.
  entries_same :
      (infos : List Info) (at back i : ℕ) (buffer : Bytes) (w : World E)
      → map unsaved (flush_entries k infos at back i buffer w).0 ≡ map unsaved infos
  unfolding flush_entries write_copies
  entries_same [] at back i buffer w = refl
  entries_same (info ∷ infos) at back i buffer w =
      let b = filled at i info buffer in
      let (at', back', w') = write_copies k at back b w in
      on_cases (λ (infos', w''). map unsaved infos' ≡ map unsaved (info ∷ infos)) (i == 7) _ _
        (ap (λ l. unsaved info ∷ l) (entries_same infos at' back' 0 b w'))
        (ap (λ l. unsaved info ∷ l) (entries_same infos at back (i + 1) b w))

  pub flush_same :
      (w : World E)
      → map unsaved (flush_swap_info_table k w).1.core.info_list ≡ map unsaved w.core.info_list
  unfolding flush_swap_info_table
  flush_same w = entries_same w.core.info_list w.core.sector_table (backup_of w) 0 (zeros 512) w

  -- Swaps that were flushed are the swaps of the next start. On a working disk, in a world that can
  -- flush its swaps, let `flush_swap_info_table` write them; the list it leaves differs in the save
  -- sectors of its tables only. In any later world whose disk is the one left behind and whose
  -- reserved area is where it was, `init_swap_info` succeeds, and its list is the flushed one, table
  -- by table and in order, each swap with the data that its block holds on the disk.
  pub flush-init :
      (w u : World E)
      → IsDurable w
      → let v = (flush_swap_info_table k w).1 in
        IsLater w v u
        → (map unsaved v.core.info_list ≡ map unsaved w.core.info_list)
          × Restores d u (map (λ x. x.table) v.core.info_list) (init_swap_info k u)
  flush-init w u h later =
      let v = (flush_swap_info_table k w).1 in
      let ts = map (λ x. x.table) v.core.info_list in
      (
        flush_same w,
        init_swap_info-Restores d u ts
            (record {
              master = rw later.sector_table (omega (arith, h.apart, h.small));
              backup = rw later.sector_reserve_start h.small;
            })
            (record {
              master =
                  rw
                    (
                      later.content, later.sector_table, later.sector_data,
                      later.sector_reserve_start,
                    )
                    (flushed_copy w h w.core.sector_table (master-IsCopy d _ _ _ _ h.apart h.small)
                      h.master);
              backup =
                  rw (later.content, later.sector_data, later.sector_reserve_start)
                    (flushed_copy w h (backup_of w) (backup-IsCopy d _ _ _ _ h.apart h.small)
                      h.backup);
            }),
      )
