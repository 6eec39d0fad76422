-- ===== src/Core/Start/Stored.antt =====
-- core.c: tables that stand on the disk, eight in a sector, and how many of them the start counts.
use scsiswap.Format.{Table, table_of}
use scsiswap.Core.Flush.{table_checksum}
use scsiswap.Core.Start.{count_tables}
use mathlib.Core.Path.{subst}
use scsiswap.Base.{
  Bool, Bytes, List, [], ap, arith, false, inl, inr, length, refl, slice, suc, sym, true, zero, ℕ,
  ◌%◌, ◌*◌, ◌+◌, ◌/◌, ◌<◌, ◌∙◌, ◌∷◌, ◌≡◌, ◌≤◌, ◌⊎◌,
}

-- The table in place `i` of the disk's tables from sector `base` on.
abbrev pub entry : (ℕ → Bytes) → ℕ → ℕ → Table
entry disk base i = table_of (slice (disk (base + i / 8)) (i % 8 * 64) 64)

-- A table that the start takes: of a whole block, with its checksum, from a sector in front of the
-- reserved area to a block of the data, within the 32 bits of a sector in a command.
pub record IsLive (first_data reserve : ℕ) (t : Table) : Type 0 where
  pub size : t.sec_size ≡ 128
  pub sum : table_checksum t ≡ t.checksum
  pub inside : first_data ≤ t.swap_sec
  pub source : t.src_sec ≤ reserve
  pub small : t.swap_sec + 128 < 4294967296

-- From place `i` on, the disk holds just these tables: behind them there is no room, or no table.
unfoldable pub IsStored : (ℕ → Bytes) → (base first_data reserve : ℕ) → ℕ → List Table → Type 0
IsStored disk base first_data reserve i [] = (i ≡ 256) ⊎ (¬ ((entry disk base i).sec_size ≡ 128))
IsStored disk base first_data reserve i (t ∷ ts) =
    (i < 256)
    × (entry disk base i ≡ t)
    × IsLive first_data reserve t
    × IsStored disk base first_data reserve (suc i) ts

pub entry_at :
    (disk : ℕ → Bytes) (base s j : ℕ)
    → j < 8
    → entry disk base (8 * s + j) ≡ table_of (slice (disk (base + s)) (j * 64) 64)
entry_at disk base s j small =
    ap (λ x. table_of (slice (disk (base + x)) ((8 * s + j) % 8 * 64) 64)) {x = (8 * s + j) / 8}
      {y = s} (omega arith)
    ∙ ap (λ x. table_of (slice (disk (base + s)) (x * 64) 64)) {x = (8 * s + j) % 8} {y = j}
        (omega arith)

-- The count meets the end in the first slot left, or it has a table there.
count_end :
    (n j : ℕ) (buffer : Bytes)
    → ¬ ((table_of (slice buffer (j * 64) 64)).sec_size ≡ 128)
    → count_tables (suc n) j buffer ≡ (0, true)
unfolding count_tables
count_end n j buffer h = ground arith

count_more :
    (n j : ℕ) (buffer : Bytes)
    → (table_of (slice buffer (j * 64) 64)).sec_size ≡ 128
    → table_checksum (table_of (slice buffer (j * 64) 64))
      ≡ (table_of (slice buffer (j * 64) 64)).checksum
    → count_tables (suc n) j buffer
      ≡ ((count_tables n (j + 1) buffer).0 + 1, (count_tables n (j + 1) buffer).1)
unfolding count_tables
count_more n j buffer size sum = ground arith

module _ (disk : ℕ → Bytes) (base first_data reserve : ℕ) where
  -- What a count of one sector says of the tables from there on.
  unfoldable pub Counted : ℕ → List Table → ℕ × Bool → Type 0
  Counted s ts (found, true) = length ts ≡ found
  Counted s ts (found, false) =
      (rest : List Table) × (length ts ≡ found + length rest)
      × IsStored disk base first_data reserve (8 * s + 8) rest

  pub count_slots :
      (n j s : ℕ) (ts : List Table)
      → n + j ≡ 8
      → s < 32
      → IsStored disk base first_data reserve (8 * s + j) ts
      → Counted s ts (count_tables n j (disk (base + s)))
  unfolding IsStored Counted count_tables
  count_slots zero j s ts full in_range h = (
    ts,
    omega arith,
    subst (λ x. IsStored disk base first_data reserve (8 * s + x) ts) {x = j} {y = 8}
        (omega (arith, full)) h,
  )
  count_slots (suc n) j s [] full in_range (inl at_end) = absurd (omega arith)
  count_slots (suc n) j s [] full in_range (inr no_table) =
      rw
        (count_end n j (disk (base + s))
          (λ e. no_table (ap (λ t. t.sec_size) (entry_at disk base s j (omega arith)) ∙ e)))
        refl
  count_slots (suc n) j s (t ∷ ts) full in_range (lt, at, live, rest) =
      let same : table_of (slice (disk (base + s)) (j * 64) 64) ≡ t =
        sym (entry_at disk base s j (omega arith)) ∙ at in
      let more =
        count_more n j (disk (base + s)) (ap (λ t. t.sec_size) same ∙ live.size)
          (ap table_checksum same ∙ live.sum ∙ sym (ap (λ t. t.checksum) same)) in
      let below = count_slots n (j + 1) s ts (omega arith) in_range (
        subst (λ x. IsStored disk base first_data reserve x ts) {x = suc (8 * s + j)}
          {y = 8 * s + (j + 1)} (omega arith) rest) in
      subst (Counted s (t ∷ ts)) (sym more)
        (one_more (count_tables n (j + 1) (disk (base + s))) below)
    where
      one_more : (p : ℕ × Bool) → Counted s ts p → Counted s (t ∷ ts) (p.0 + 1, p.1)
      one_more (found, true) h = omega arith
      one_more (found, false) (rest, e, h) = (rest, omega arith, h)
