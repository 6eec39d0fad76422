-- ===== src/Core/Start/Loading.antt =====
-- core.c: the start takes the tables of a working disk, with the data of their blocks.
use scsiswap.Core.Flush.{table_checksum}
use scsiswap.Core.Start.Stored.{IsLive}
use scsiswap.State.{Core, Info, World}
use scsiswap.Core.Start.{
  Taken, refused, end_found, take_tables, list_table, append_info, alloc_swap_info_data, take_table,
}
use scsiswap.Base.{
  ◌≤◌, Option, none, false, ltb, slice, suc, ◌!=◌, ◌*◌, append_assoc, Bytes, List, [], ap,
  append-nil, arith, refl, some, sym, true, ℕ, ◌++◌, ◌+◌, ◌<◌, ◌∙◌, ◌≡◌,
}
use scsiswap.Format.{table_of, Table}
use scsiswap.Disk.{Disk, sectors, read_lem}
use scsiswap.Kernel.{Kernel}

-- The swap of a table, with the data that its block holds on the disk.
abbrev pub loaded : (ℕ → Bytes) → Table → Info
loaded disk t = record { table = t; buf = some (sectors disk t.swap_sec 128) }

-- The core without its list.
abbrev pub rest_of : Core → Core
rest_of c = record c { info_list = []; info_num = 0 }

differs_not : {a b : ℕ} → a ≡ b → (a != b) ≡ false
differs_not e = ground arith

ltb_of_le : {a b : ℕ} → a ≤ b → ltb b a ≡ false
ltb_of_le h = ground arith

module _ {E : Type 0} {k : Kernel E} (d : Disk k) where
  -- The swaps at the end of the list are new; the rest of the core and the disk are as they were.
  pub record Appended (w v : World E) (infos : List Info) : Type 0 where
    pub info_list : v.core.info_list ≡ w.core.info_list ++ infos
    pub rest : rest_of v.core ≡ rest_of w.core
    pub content : d.content v.env ≡ d.content w.env

  pub Appended-trans :
      {u v w : World E} {xs ys : List Info}
      → Appended u v xs
      → Appended v w ys
      → Appended u w (xs ++ ys)
  Appended-trans {u} {v} {w} {xs} {ys} g h = record {
    info_list = h.info_list ∙ ap (λ l. l ++ ys) g.info_list ∙ append_assoc u.core.info_list xs ys;
    rest = h.rest ∙ g.rest;
    content = h.content ∙ g.content;
  }

  pub Appended-none :
      (w : World E) (e : E) → d.content e ≡ d.content w.env → Appended w (record w { env = e }) []
  Appended-none w e same = record {
    info_list = sym (append-nil w.core.info_list);
    rest = refl;
    content = same;
  }

  pub alloc_lem :
      (start : ℕ) (w : World E)
      → start + 128 < 4294967296
      → (e : E) × (alloc_swap_info_data k start 128 w
          ≡ (some (sectors (d.content w.env) start 128), record w { env = e }))
        × (d.content e ≡ d.content w.env)
  unfolding alloc_swap_info_data
  alloc_lem start w small =
      let (got, same1) = d.alloc 65536 w.env in
      let w1 : World E = record w { env = (k.kmalloc 65536 w.env).1 } in
      let (e2, read, same2) = read_lem d start 128 w1 small (omega arith) in
      (e2, rw (got, read, same1) refl, same2 ∙ same1)

  take_table_lem :
      (j : ℕ) (t : Table) (buffer bytes : Bytes) (w v : World E)
      → alloc_swap_info_data k t.swap_sec t.sec_size w ≡ (some bytes, v)
      → take_table k j t buffer w
        ≡ some (some buffer, append_info k (record { table = t; buf = some bytes }) v)
  unfolding take_table list_table
  take_table_lem j t buffer bytes w v e = ap (λ r. list_table k j t buffer r.0 r.1) e

  -- The slot of the sector that is read next holds no table.
  pub take_end :
      (n j : ℕ) (buffer : Bytes) (w : World E)
      → ¬ ((table_of (slice buffer (j * 64) 64)).sec_size ≡ 128)
      → take_tables k (suc n) j buffer w
        ≡ some ((end_found, buffer), record w { env = (k.kmalloc 112 w.env).1 })
  unfolding take_tables
  take_end n j buffer w h =
      let differs : ((table_of (slice buffer (j * 64) 64)).sec_size != 128) ≡ true = ground arith in
      rw ((d.alloc 112 w.env).0, differs) refl

  -- What follows on a table that was taken.
  abbrev after_table :
      ℕ → ℕ → Bytes → Option (Option Bytes × World E) → Option ((Taken × Bytes) × World E)
  after_table n j buffer none = none
  after_table n j buffer (some (none, w)) = some ((refused, buffer), w)
  after_table n j buffer (some (some buffer', w)) = take_tables k n (j + 1) buffer' w

  -- It holds a table.
  pub take_more :
      (n j : ℕ) (buffer bytes : Bytes) (w v : World E)
      → let t = table_of (slice buffer (j * 64) 64) in
        IsLive w.core.sector_data w.core.sector_reserve_start t
        → alloc_swap_info_data k t.swap_sec t.sec_size (record w { env = (k.kmalloc 112 w.env).1 })
          ≡ (some bytes, v)
        → take_tables k (suc n) j buffer w
          ≡ take_tables k n
              (j + 1)
              buffer
              (append_info k (record { table = t; buf = some bytes }) v)
  unfolding take_tables
  take_more n j buffer bytes w v live found =
      let t = table_of (slice buffer (j * 64) 64) in
      let size : (t.sec_size != 128) ≡ false = differs_not live.size in
      let inside : ltb t.swap_sec w.core.sector_data ≡ false = ltb_of_le live.inside in
      let source : ltb w.core.sector_reserve_start t.src_sec ≡ false = ltb_of_le live.source in
      let sum : (table_checksum t != t.checksum) ≡ false = differs_not live.sum in
      let w1 : World E = record w { env = (k.kmalloc 112 w.env).1 } in
      let step : take_tables k (suc n) j buffer w
          ≡ after_table n j buffer (take_table k j t buffer w1) =
        rw ((d.alloc 112 w.env).0, size, inside, source, sum) refl in
      step ∙ ap (after_table n j buffer) (take_table_lem j t buffer bytes w1 v found)
