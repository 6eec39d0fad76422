-- ===== src/Core/Flush/Filled.antt =====
-- core.c: the sector buffer that the next table entry is copied to.
use scsiswap.State.{Info}
use scsiswap.Core.Flush.Stores.{Clear, filled, fresh, saved}
use scsiswap.Format.RoundTrip.{FitsTable}
use scsiswap.Core.Start.Stored.{IsLive}
use scsiswap.Base.{
  Bool-cases, Bytes, ap, arith, false, inl, inr, length, length-overwrite, length-replicate,
  ne→==_false, refl, true, ℕ, ◌*◌, ◌+◌, ◌<◌, ◌==◌, ◌∙◌, ◌≡◌, ◌≢◌,
}
use scsiswap.Core.Flush.Slots.{
  table_checksum_save, table_in-with_slot, table_in-with_slot_other, table_in-zeros, table_in,
}

saved-FitsTable :
    (info : Info) (at : ℕ)
    → at < 4294967296
    → FitsTable info.table
    → FitsTable (saved at info).table
saved-FitsTable info at small f = record {
  src_sec = f.src_sec;
  swap_sec = f.swap_sec;
  sec_size = f.sec_size;
  retrys = f.retrys;
  index = f.index;
  reserverd = f.reserverd;
  checksum = f.checksum;
  save_sec = omega arith;
}

pub saved-IsLive :
    (info : Info) (at : ℕ) {first_data reserve : ℕ}
    → at < 4294967296
    → FitsTable info.table
    → IsLive first_data reserve info.table
    → IsLive first_data reserve (saved at info).table
saved-IsLive info at small f live = record {
  size = live.size;
  sum = table_checksum_save info.table at f (saved-FitsTable info at small f) ∙ live.sum;
  inside = live.inside;
  source = live.source;
  small = live.small;
}

pub not_last : (i : ℕ) → i < 8 → (i == 7) ≡ false → i + 1 < 8
not_last i lt more = ground arith

pub is_seven : (i : ℕ) → (i == 7) ≡ true → i ≡ 7
is_seven i h = ground arith

positive : (i : ℕ) → (i == 0) ≡ false → 0 < i
positive i h = ground arith

-- The sector that an entry goes to.
module _ (i : ℕ) (buffer : Bytes) (sized : length buffer ≡ 512) where
  fresh-length : length (fresh i buffer) ≡ 512
  fresh-length = elim (Bool-cases (i == 0)) [
    | inl first ↦ rw first (length-replicate 512 0)
    | inr later ↦ rw later sized
  ]

  fresh-table : (j : ℕ) → j < i → table_in (fresh i buffer) j ≡ table_in buffer j
  fresh-table j lt =
      let later : (i == 0) ≡ false = ne→==_false i 0 (λ e. omega arith) in rw later refl

  fresh-Clear : (0 < i → Clear buffer i) → Clear (fresh i buffer) i
  fresh-Clear clear j le = elim (Bool-cases (i == 0)) [
    | inl first ↦ rw first (table_in-zeros 512 j)
    | inr later ↦ rw later (clear (positive i later) j le)
  ]

  module _ (info : Info) (at : ℕ) (small : at < 4294967296) (f : FitsTable info.table)
      (in_sector : i < 8) where
    pub filled-length : length (filled at i info buffer) ≡ 512
    filled-length = length-overwrite (fresh i buffer) (i * 64) _ ∙ fresh-length

    pub filled-at : table_in (filled at i info buffer) i ≡ (saved at info).table
    filled-at =
        table_in-with_slot (fresh i buffer) fresh-length i in_sector (saved at info).table
          (saved-FitsTable info at small f)

    filled-other :
        (j : ℕ) → j ≢ i → table_in (filled at i info buffer) j ≡ table_in (fresh i buffer) j
    filled-other =
        table_in-with_slot_other (fresh i buffer) fresh-length i in_sector (saved at info).table
          (saved-FitsTable info at small f)

    pub filled-before : (j : ℕ) → j < i → table_in (filled at i info buffer) j ≡ table_in buffer j
    filled-before j lt = filled-other j (λ e. omega arith) ∙ fresh-table j lt

    pub filled-Clear : (0 < i → Clear buffer i) → Clear (filled at i info buffer) (i + 1)
    filled-Clear clear j le =
        ap (λ t. t.sec_size) (filled-other j (λ e. omega arith)) ∙ fresh-Clear clear j (omega arith)
