-- ===== src/Core/Start/Sealing.antt =====
-- core.c: the head that is flushed to a working disk, beside the tables.
use scsiswap.Core.Flush.{flush_swap_head, flush_swap_info_table, head_checksum}
use scsiswap.Core.Start.Reboot.{backup_of}
use scsiswap.Core.Flush.Slots.{zeros}
use scsiswap.Core.Flush.Tables.{flush_entries_lem}
use scsiswap.Format.{Head, Table, head_bytes, table_of}
use scsiswap.Core.Start.Stored.{IsStored}
use scsiswap.State.{World, ok, on_core}
use scsiswap.Base.{
  Bool-cases, Bytes, List, [], ap, arith, false, inl, inr, length, ltb, ltb→lt, refl, slice, suc,
  sym, ℕ, ◌%◌, ◌*◌, ◌+◌, ◌/◌, ◌<◌, ◌∙◌, ◌∷◌, ◌≡◌, ◌≤◌,
}
use scsiswap.Disk.{Disk, put, write_lem}
use scsiswap.Kernel.{Kernel}

-- The tables on a disk depend on the copy's sectors only.
pub stored_elsewhere :
    (f g : ℕ → Bytes) (at first_data reserve i : ℕ) (ts : List Table)
    → i ≤ 256
    → ((x : ℕ) → x < 32 → g (at + x) ≡ f (at + x))
    → IsStored f at first_data reserve i ts
    → IsStored g at first_data reserve i ts
unfolding IsStored
stored_elsewhere f g at first_data reserve i [] small same (inl full) = inl full
stored_elsewhere f g at first_data reserve i [] small same (inr over) =
    elim (Bool-cases (ltb i 256)) [
      | inl inside ↦
          (let lt = ltb→lt i 256 inside in
            inr (λ e. over (
              sym (
                ap (λ l. (table_of (slice l (i % 8 * 64) 64)).sec_size)
                  (same (i / 8) (omega arith)))
              ∙ e)))
      | inr outside ↦ inl (at_limit i small outside)
    ]
  where
    at_limit : (i : ℕ) → i ≤ 256 → ltb i 256 ≡ false → i ≡ 256
    at_limit i le h = ground arith
stored_elsewhere f g at first_data reserve i (t ∷ ts) small same (lt, here_now, live, rest) = (
  lt,
  ap (λ l. table_of (slice l (i % 8 * 64) 64)) (same (i / 8) (omega arith)) ∙ here_now,
  live,
  stored_elsewhere f g at first_data reserve (suc i) ts (omega arith) same rest,
)

-- The head with its checksum.
abbrev pub sealed : Head → Head
sealed h = record h { checksum = head_checksum h }

module _ {E : Type 0} {k : Kernel E} (d : Disk k) where
  -- What `flush_swap_head` does on a working disk.
  pub head_flush :
      (w : World E)
      → w.core.sector_head + 65 < 4294967296
      → length (head_bytes (sealed w.core.head)) ≡ 512
      → (e : E) × (flush_swap_head k w
          ≡ (ok, record (on_core (λ c. record c { head = sealed c.head }) w) { env = e }))
        × (d.content e
            ≡ put
                (put (d.content w.env) w.core.sector_head (head_bytes (sealed w.core.head)))
                (w.core.sector_head + 64)
                (head_bytes (sealed w.core.head)))
  unfolding flush_swap_head
  head_flush w small sized =
      let bytes = head_bytes (sealed w.core.head) in
      let w0 : World E = on_core (λ c. record c { head = sealed c.head }) w in
      let (e1, run1, same1) = write_lem d w.core.sector_head bytes w0 (omega arith) sized in
      let w1 : World E = record w0 { env = e1 } in
      let (e2, run2, same2) = write_lem d (w.core.sector_head + 64) bytes w1 (omega arith) sized in
      (e2, rw (run1, run2) refl, same2 ∙ ap (λ f. put f (w.core.sector_head + 64) bytes) same1)

  -- A flush of the table leaves the head alone.
  pub table_flush-head :
      (w : World E)
      → let v = (flush_swap_info_table k w).1 in
        (v.core.head ≡ w.core.head) × (v.core.sector_head ≡ w.core.sector_head)
  unfolding flush_swap_info_table
  table_flush-head w =
      let calm =
        (flush_entries_lem k w.core.info_list w.core.sector_table (backup_of d w) 0 (zeros 512)
          w).1 in
      (calm.head, calm.head_at)
