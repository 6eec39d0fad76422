-- ===== src/Core/Start/Restored.antt =====
-- core.c: what `init_swap_info` finds on a working disk that holds the same tables twice.
use scsiswap.Core.Start.Taking.{load_lem}
use scsiswap.Core.Start.{
  TableSync, backup_need_sync, calc_swap_info_num, load_tables, master_need_sync, no_need_sync,
  init_swap_info,
}
use scsiswap.Disk.{Disk}
use scsiswap.Layout.{swap_table_n_sector, swap_table_backup_offset}
use mathlib.Core.Path.{subst}
use scsiswap.Core.Start.Loading.{rest_of, loaded}
use scsiswap.Core.Start.Counting.{calc_lem}
use scsiswap.Core.Start.Stored.{IsStored}
use scsiswap.Format.{Table}
use scsiswap.State.{pure, Status, World, ok, on_core}
use scsiswap.Base.{
  ne→==_false, suc, ◌++◌, ap, length, ◌∙◌, ◌∷◌, Bool-cases, arith, false, if◌then◌else◌, inl, inr,
  ltb, ℕ, ◌==◌, List, Option, [], map, none, refl, some, sym, ◌+◌, ◌<◌, ◌≡◌,
}
use scsiswap.Kernel.{Kernel}

module _ {E : Type 0} {k : Kernel E} (d : Disk k) where
  -- The core's places lie below the sectors that a command can name.
  pub record InReach (w : World E) : Type 0 where
    pub master : w.core.sector_table + 32 < 4294967296
    pub backup : w.core.sector_reserve_start + swap_table_backup_offset + 32 < 4294967296

  -- The master holds these tables, and so does the backup.
  pub record HoldsTables (w : World E) (ts : List Table) : Type 0 where
    pub master :
        IsStored
          (d.content w.env)
          w.core.sector_table
          w.core.sector_data
          w.core.sector_reserve_start
          0
          ts
    pub backup :
        IsStored
          (d.content w.env)
          (w.core.sector_reserve_start + swap_table_backup_offset)
          w.core.sector_data
          w.core.sector_reserve_start
          0
          ts

  -- The start returns, and the list is just the tables' swaps, in order, each with what its block
  -- holds; the rest of the core and the disk are as they were.
  unfoldable pub Restores : World E → List Table → Option (Status × World E) → Type 0
  Restores w ts none = ⊥
  Restores w ts (some (s, v)) =
      (s ≡ ok)
      × (v.core.info_list ≡ map (loaded (d.content w.env)) ts)
      × (rest_of v.core ≡ rest_of w.core)
      × (d.content v.env ≡ d.content w.env)

  abbrev cleared : World E → World E
  cleared w = on_core (λ c. record c { info_list = []; info_num = 0 }) w

  -- The choice between the copies, by their counts.
  abbrev chosen : World E → ℕ × World E → ℕ × World E → Option (Status × World E)
  chosen w master back =
      let start = w.core.sector_table in
      let start_back = w.core.sector_reserve_start + swap_table_backup_offset in
      let load =
        λ (at : ℕ) (sync : TableSync). load_tables k swap_table_n_sector at sync start start_back in
      (if ltb master.0 back.0
          then load start_back master_need_sync
          else if ltb back.0 master.0
          then load start backup_need_sync
          else if master.0 == 0
          then pure ok
          else load start no_need_sync)
        back.1

  -- The counts are the same.
  same_counts :
      (w v u : World E) (n : ℕ)
      → chosen w (n, v) (n, u) ≡ (
          if n == 0
          then some (ok, u)
          else load_tables k 32
              (w.core.sector_table)
              no_need_sync
              w.core.sector_table
              (w.core.sector_reserve_start + swap_table_backup_offset)
              u)
  same_counts w v u n = elim (Bool-cases (n == 0)) [
    | inl empty ↦ rw (not_below n, empty) refl
    | inr full ↦ rw (not_below n, full) refl
  ]
    where
      not_below : (n : ℕ) → ltb n n ≡ false
      not_below n = ground arith

  init_step :
      (w : World E)
      → let master = calc_swap_info_num k 32 w.core.sector_table 0 (cleared w) in
        init_swap_info k w
        ≡ chosen w master (
            calc_swap_info_num k 32
              (w.core.sector_reserve_start + swap_table_backup_offset)
              0
              master.1)
  unfolding init_swap_info
  init_step w = refl

  -- The count of a copy that holds these tables.
  count_lem :
      (base first_data reserve : ℕ) (ts : List Table) (w : World E)
      → base + 32 < 4294967296
      → IsStored (d.content w.env) base first_data reserve 0 ts
      → (e : E) × (calc_swap_info_num k 32 base 0 w ≡ (length ts, record w { env = e }))
        × (d.content e ≡ d.content w.env)
  count_lem base first_data reserve ts w small h =
      let (e, run, same) = calc_lem d base first_data reserve small 32 0 0 ts w refl h in
      (
        e,
        ap (λ x. calc_swap_info_num k 32 x 0 w) {x = base} {y = base + 0} (omega arith)
            ∙ run
            ∙ ap (λ x. (x, record w { env = e })) {x = 0 + length ts} {y = length ts} (omega arith),
        same,
      )

  -- The load of the tables, where there are some.
  load_all :
      (w u : World E) (ts : List Table)
      → w.core.sector_table + 32 < 4294967296
      → IsStored
          (d.content w.env)
          w.core.sector_table
          w.core.sector_data
          w.core.sector_reserve_start
          0
          ts
      → u.core ≡ (cleared w).core
      → d.content u.env ≡ d.content w.env
      → let back = w.core.sector_reserve_start + swap_table_backup_offset in
        Restores w ts (
          if length ts == 0
          then some (ok, u)
          else load_tables k 32 w.core.sector_table no_need_sync w.core.sector_table back u)
  unfolding Restores
  load_all w u [] small h core same = (refl, ap (λ c. c.info_list) core, ap rest_of core, same)
  load_all w u (t ∷ ts) small h core same =
      let base = w.core.sector_table in
      let back = w.core.sector_reserve_start + swap_table_backup_offset in
      let (v, run, g) =
        load_lem d (d.content w.env) base w.core.sector_data w.core.sector_reserve_start small 32 0
          base back (t ∷ ts) u refl
          (record {
            content = same;
            sector_data = ap (λ c. c.sector_data) core;
            sector_reserve_start = ap (λ c. c.sector_reserve_start) core;
          })
          h in
      let some_left : (suc (length ts) == 0) ≡ false =
        ne→==_false (suc (length ts)) 0 (omega arith) in
      let loads =
        ap (λ x. load_tables k 32 x no_need_sync base back u) {x = base} {y = base + 0}
          (omega arith)
        ∙ run in
      rw (some_left, loads)
        (
          refl,
          g.info_list ∙ ap (λ c. c.info_list ++ map (loaded (d.content w.env)) (t ∷ ts)) core,
          g.rest ∙ ap rest_of core,
          g.content ∙ same,
        )

  -- On a working disk whose two copies of the table hold the same tables, each of them of a whole
  -- block, with its checksum, from a sector in front of the reserved area to a block of the data,
  -- `init_swap_info` succeeds, whatever the list was before: behind it the list is just these
  -- tables' swaps, in order, each with the data that its block holds, and the rest of the core and
  -- the disk are unchanged.
  pub init_swap_info-Restores :
      (w : World E) (ts : List Table)
      → InReach w
      → HoldsTables w ts
      → Restores w ts (init_swap_info k w)
  unfolding Restores
  init_swap_info-Restores w ts reach h =
      let back = w.core.sector_reserve_start + swap_table_backup_offset in
      let (e2, run2, same2) =
        count_lem w.core.sector_table _ _ ts (cleared w) reach.master h.master in
      let w2 : World E = record (cleared w) { env = e2 } in
      let (e3, run3, same3) = count_lem back _ _ ts w2 reach.backup (
        subst (λ f. IsStored f back w.core.sector_data w.core.sector_reserve_start 0 ts) (sym same2)
          h.backup) in
      let w3 : World E = record w2 { env = e3 } in
      let run =
        init_step w
        ∙ ap (λ m. chosen w m (calc_swap_info_num k 32 back 0 m.1)) run2
        ∙ ap (chosen w (length ts, w2)) run3
        ∙ same_counts w w2 w3 (length ts) in
      subst (Restores w ts) (sym run) (load_all w w3 ts reach.master h.master refl (same3 ∙ same2))
