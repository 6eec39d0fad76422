-- ===== src/Core/Flush/Stores.antt =====
-- core.c: the tables that are flushed stand on a working disk, in order, in both copies.
use scsiswap.Layout.{swap_table_backup_offset}
use scsiswap.Core.Start.Stored.{IsLive}
use scsiswap.Format.RoundTrip.{FitsTable}
use scsiswap.Core.Flush.Slots.{table_in, with_slot, zeros}
use scsiswap.Disk.{put_other, put_same, Disk, put, write_lem}
use scsiswap.State.{Status, is_ok, Info, World}
use scsiswap.Core.Flush.{flush_entries, write_copies, write_until}
use scsiswap.Base.{
  arith, leb, ◌≢◌, Bytes, List, [], ap, false, if◌then◌else◌, length, refl, suc, true, ℕ, ◌+◌, ◌-◌,
  ◌<◌, ◌==◌, ◌∙◌, ◌∷◌, ◌≡◌, ◌≤◌,
}
use scsiswap.Kernel.{Kernel}

-- Swaps with tables that the start takes.
abbrev pub EachLive : (first_data reserve : ℕ) → List Info → Type 0
EachLive first_data reserve [] = Unit
EachLive first_data reserve (info ∷ infos) =
    FitsTable info.table × IsLive first_data reserve info.table × EachLive first_data reserve infos

-- The sector that the next entry goes to, and the entry with its save sector.
abbrev pub fresh : ℕ → Bytes → Bytes
fresh i buffer = if i == 0 then zeros 512 else buffer

abbrev pub saved : ℕ → Info → Info
saved at info = record info { table = record info.table { save_sec = at } }

abbrev pub filled : ℕ → ℕ → Info → Bytes → Bytes
filled at i info buffer = with_slot (fresh i buffer) i (saved at info).table

-- From slot `i` on the sector holds no table.
abbrev pub Clear : Bytes → ℕ → Type 0
Clear buffer i = (j : ℕ) → i ≤ j → (table_in buffer j).sec_size ≡ 0

module _ {E : Type 0} {k : Kernel E} (d : Disk k) where
  after_write : ℕ → ℕ → ℕ → Bytes → Status × World E → ℕ × World E
  after_write n limit at buffer r = elim (is_ok r.0) [
    | true ↦ (at + 1, r.1)
    | false ↦ elim (leb limit (at + 1)) [
      | true ↦ (at + 1, r.1)
      | false ↦ write_until k n limit (at + 1) buffer r.1
    ]
  ]

  until_lem :
      (n limit at : ℕ) (buffer : Bytes) (w : World E)
      → at + 1 < 4294967296
      → length buffer ≡ 512
      → (e : E) × (write_until k (suc n) limit at buffer w ≡ (at + 1, record w { env = e }))
        × (d.content e ≡ put (d.content w.env) at buffer)
  unfolding write_until after_write
  until_lem n limit at buffer w small sized =
      let (e, run, same) = write_lem d at buffer w small sized in
      (e, ap (after_write n limit at buffer) run, same)

  pub copies_lem :
      (at back : ℕ) (buffer : Bytes) (w : World E)
      → at + 1 < 4294967296
      → back + 1 < 4294967296
      → length buffer ≡ 512
      → (e : E) × (write_copies k at back buffer w ≡ (at + 1, back + 1, record w { env = e }))
        × (d.content e ≡ put (put (d.content w.env) at buffer) back buffer)
  unfolding write_copies
  copies_lem at back buffer w small small' sized =
      let limit = w.core.sector_table + 32 in
      let limit_back = w.core.sector_reserve_start + swap_table_backup_offset + 32 in
      let (e1, run1, same1) = until_lem (limit - at) limit at buffer w small sized in
      let w1 : World E = record w { env = e1 } in
      let (e2, run2, same2) =
        until_lem (limit_back - back) limit_back back buffer w1 small' sized in
      (e2, rw (run1, run2) refl, same2 ∙ ap (λ f. put f back buffer) same1)

  -- The step of the loop that fills a sector, and the one that does not.
  unfoldable pub after_copies : ℕ → Info → List Info → Bytes → ℕ × ℕ × World E → List Info × World E
  after_copies at info infos bytes r =
      let (rest, w') = flush_entries k infos r.0 r.1 0 bytes r.2 in (saved at info ∷ rest, w')

  pub flush_full :
      (info : Info) (infos : List Info) (at back i : ℕ) (buffer : Bytes) (w : World E)
      → (i == 7) ≡ true
      → flush_entries k (info ∷ infos) at back i buffer w
        ≡ after_copies at info infos
            (filled at i info buffer)
            (write_copies k at back (filled at i info buffer) w)
  unfolding flush_entries after_copies
  flush_full info infos at back i buffer w h = rw (h, flush_entries) refl

  pub flush_more :
      (info : Info) (infos : List Info) (at back i : ℕ) (buffer : Bytes) (w : World E)
      → (i == 7) ≡ false
      → flush_entries k (info ∷ infos) at back i buffer w ≡ (
          let (rest, w') = flush_entries k infos at back (i + 1) (filled at i info buffer) w in
          (saved at info ∷ rest, w'))
  unfolding flush_entries
  flush_more info infos at back i buffer w h = rw (h, flush_entries) refl

  pub flush_last :
      (at back i : ℕ) (buffer : Bytes) (w : World E)
      → (i == 0) ≡ false
      → flush_entries k [] at back i buffer w ≡ ([], (write_copies k at back buffer w).2)
  unfolding flush_entries
  flush_last at back i buffer w h = rw (h, flush_entries) refl

  module _ (master backup first_data reserve : ℕ) (apart : master + 32 ≤ backup)
      (small : backup + 32 < 4294967296) where
    -- Both copies get a sector, and keep the others.
    abbrev pub copied : (ℕ → Bytes) → ℕ → Bytes → ℕ → Bytes
    copied f s buffer = put (put f (master + s) buffer) (backup + s) buffer

    -- One of the two copies, from sector `at` on.
    pub record IsCopy (at : ℕ) : Type 0 where
      pub got : (f : ℕ → Bytes) (s : ℕ) (b : Bytes) → s < 32 → copied f s b (at + s) ≡ b
      pub kept :
          (f : ℕ → Bytes) (s x : ℕ) (b : Bytes)
          → s < 32
          → x < 32
          → x ≢ s
          → copied f s b (at + x) ≡ f (at + x)

    pub master-IsCopy : IsCopy master
    master-IsCopy = record {
      got = λ f s b lt.
          put_other _ (backup + s) (master + s) b (λ e. omega arith) ∙ put_same f (master + s) b;
      kept = λ f s x b lt lt' ne.
          put_other _ (backup + s) (master + x) b (λ e. omega arith)
          ∙ put_other f (master + s) (master + x) b (λ e. ne (omega arith));
    }

    pub backup-IsCopy : IsCopy backup
    backup-IsCopy = record {
      got = λ f s b lt. put_same _ (backup + s) b;
      kept = λ f s x b lt lt' ne.
          put_other _ (backup + s) (backup + x) b (λ e. ne (omega arith))
          ∙ put_other f (master + s) (backup + x) b (λ e. omega arith);
    }
