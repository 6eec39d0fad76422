-- ===== src/Core/Flush/Placed.antt =====
-- core.c: the place of every table that is flushed to a working disk.
use mathlib.Core.Path.{subst}
use scsiswap.Core.Start.Stored.{IsLive, IsStored, entry_at}
use scsiswap.Core.Flush.Filled.{
  filled-Clear, filled-at, filled-before, filled-length, is_seven, not_last, saved-IsLive,
}
use scsiswap.Format.RoundTrip.{FitsTable}
use scsiswap.State.{Info, World}
use scsiswap.Core.Flush.{flush_entries}
use scsiswap.Core.Flush.Stores.{
  Clear, EachLive, IsCopy, after_copies, copied, copies_lem, filled, flush_full, flush_last,
  flush_more, saved,
}
use scsiswap.Disk.{Disk}
use scsiswap.Base.{
  Bool-cases, Bytes, List, [], ap, arith, false, inl, inr, length, ltb, ltb→lt, map, ne→==_false,
  refl, suc, sym, zero, ℕ, ◌*◌, ◌+◌, ◌<◌, ◌==◌, ◌∙◌, ◌∷◌, ◌≡◌, ◌≤◌,
}
use scsiswap.Core.Flush.Slots.{table_in}
use scsiswap.Kernel.{Kernel}

module _ {E : Type 0} {k : Kernel E} (d : Disk k) (master backup first_data reserve : ℕ)
    (apart : master + 32 ≤ backup) (small : backup + 32 < 4294967296) (at : ℕ)
    (copy : IsCopy d master backup first_data reserve apart small at) where
  -- The sectors behind those of `total` tables begin with no table.
  abbrev pub Blank : ℕ → (ℕ → Bytes) → Type 0
  Blank total f = (x : ℕ) → total ≤ 8 * x → x < 32 → ¬ ((table_in (f (at + x)) 0).sec_size ≡ 128)

  -- What the loop leaves from slot `i` of sector `s` on, with `buffer` in hand.
  pub record Flushed (s i : ℕ) (buffer : Bytes) (f : ℕ → Bytes) (r : List Info × World E)
      : Type 0 where
    pub kept : (x : ℕ) → x < s → d.content r.1.env (at + x) ≡ f (at + x)
    pub slots : (j : ℕ) → j < i → table_in (d.content r.1.env (at + s)) j ≡ table_in buffer j
    pub stored :
        IsStored (d.content r.1.env) at first_data reserve (8 * s + i) (map (λ x. x.table) r.0)

  subst-Blank : (f : ℕ → Bytes) {x y : ℕ} → Blank x f → x ≡ y → Blank y f
  subst-Blank f h e x le in_range = h x (omega arith) in_range

  Blank-copied :
      (total : ℕ) (f : ℕ → Bytes) (s : ℕ) (b : Bytes)
      → 8 * s < total
      → total ≤ 256
      → Blank total f
      → Blank total (copied d master backup first_data reserve apart small f s b)
  Blank-copied total f s b lt fits blank x le in_range e = blank x le in_range (
      sym (
        ap (λ l. (table_in l 0).sec_size)
          (copy.kept f s x b (omega arith) in_range (λ e. omega arith)))
      ∙ e)

  -- The end of the list.
  flush_end :
      (s i : ℕ) (buffer : Bytes) (w : World E)
      → i < 8
      → 8 * s + i ≤ 256
      → length buffer ≡ 512
      → (0 < i → Clear buffer i)
      → Blank (8 * s + i) (d.content w.env)
      → Flushed s i buffer
          (d.content w.env)
          (flush_entries k [] (master + s) (backup + s) i buffer w)
  unfolding flush_entries IsStored
  flush_end s zero buffer w in_sector room sized clear blank = record {
    kept = λ x lt. refl;
    slots = λ j lt. absurd (omega arith);
    stored = elim (Bool-cases (ltb s 32)) [
      | inl inside ↦ inr (λ e.
          blank s (omega arith) (ltb→lt s 32 inside)
            (sym (ap (λ t. t.sec_size) (entry_at (d.content w.env) at s 0 (omega arith))) ∙ e))
      | inr full ↦ inl (at_limit full)
    ];
  }
    where
      at_limit : ltb s 32 ≡ false → 8 * s + 0 ≡ 256
      at_limit full = ground arith
  flush_end s (suc i) buffer w in_sector room sized clear blank =
      let (e, run, same) =
        copies_lem d (master + s) (backup + s) buffer w (omega arith) (omega arith) sized in
      let at_end =
        flush_last d (master + s) (backup + s) (suc i) buffer w
          (ne→==_false (suc i) 0 (λ e. omega arith))
        ∙ ap (λ r. ([], r.2)) run in
      let here_now : d.content e (at + s) ≡ buffer =
        ap (λ f. f (at + s)) same ∙ copy.got (d.content w.env) s buffer (omega arith) in
      subst (Flushed s (suc i) buffer (d.content w.env)) (sym at_end) (record {
        kept = λ x lt.
            ap (λ f. f (at + x)) same
            ∙ copy.kept (d.content w.env) s x buffer (omega arith) (omega arith) (λ e. omega arith);
        slots = λ j lt. ap (λ l. table_in l j) here_now;
        stored = inr (λ e'. omega (
          arith,
          clear (omega arith) (suc i) (omega arith),
          e',
          ap (λ t. t.sec_size) (entry_at (d.content e) at s (suc i) in_sector),
          ap (λ l. (table_in l (suc i)).sec_size) here_now,
        ));
      })

  module _ (info : Info) (infos : List Info) (s i : ℕ) (buffer : Bytes) (w : World E)
      (in_sector : i < 8) (room : 8 * s + (i + length (info ∷ infos)) ≤ 256)
      (sized : length buffer ≡ 512) (fits : FitsTable info.table)
      (live : IsLive first_data reserve info.table) where
    abbrev bytes : Bytes
    bytes = filled (master + s) i info buffer

    bytes-length : length bytes ≡ 512
    bytes-length = filled-length i buffer sized info (master + s) (omega arith) fits in_sector

    bytes-at : table_in bytes i ≡ (saved (master + s) info).table
    bytes-at = filled-at i buffer sized info (master + s) (omega arith) fits in_sector

    bytes-before : (j : ℕ) → j < i → table_in bytes j ≡ table_in buffer j
    bytes-before = filled-before i buffer sized info (master + s) (omega arith) fits in_sector

    -- The entry, and what follows on it.
    with_entry :
        (disk : ℕ → Bytes) (rest : List Info)
        → table_in (disk (at + s)) i ≡ (saved (master + s) info).table
        → IsStored disk at first_data reserve (8 * s + (i + 1)) (map (λ x. x.table) rest)
        → IsStored disk at first_data reserve
            (8 * s + i)
            (map (λ x. x.table) (saved (master + s) info ∷ rest))
    unfolding IsStored
    with_entry disk rest same more = (
      omega arith,
      entry_at disk at s i in_sector ∙ same,
      saved-IsLive info (master + s) (omega arith) fits live,
      subst (λ x. IsStored disk at first_data reserve x (map (λ x. x.table) rest))
          {x = 8 * s + (i + 1)} {y = suc (8 * s + i)} (omega arith) more,
    )

    -- The entry is not the sector's last.
    flush_more_lem :
        ((0 < i → Clear buffer i))
        → (r : List Info × World E) → Flushed s (i + 1) bytes (d.content w.env) r
        → Flushed s i buffer (d.content w.env) (saved (master + s) info ∷ r.0, r.1)
    flush_more_lem clear r h = record {
      kept = h.kept;
      slots = λ j lt. h.slots j (omega arith) ∙ bytes-before j lt;
      stored = with_entry (d.content r.1.env) r.0 (h.slots i (omega arith) ∙ bytes-at) h.stored;
    }

    -- It is the last one, and the sector went out to both copies.
    flush_full_lem :
        i ≡ 7
        → (e : E) (r : List Info × World E)
        → d.content e
          ≡ copied d master backup first_data reserve apart small (d.content w.env) s bytes
        → Flushed (s + 1) 0 bytes (d.content e) r
        → Flushed s i buffer (d.content w.env) (saved (master + s) info ∷ r.0, r.1)
    flush_full_lem last e r same h =
        let now : d.content r.1.env (at + s) ≡ bytes =
          h.kept s (omega arith)
          ∙ ap (λ f. f (at + s)) same
          ∙ copy.got (d.content w.env) s bytes (omega arith) in
        record {
          kept = λ x lt.
              h.kept x (omega arith)
              ∙ ap (λ f. f (at + x)) same
              ∙ copy.kept (d.content w.env) s x bytes (omega arith) (omega arith)
                  (λ e. omega arith);
          slots = λ j lt. ap (λ l. table_in l j) now ∙ bytes-before j lt;
          stored = with_entry (d.content r.1.env) r.0 (ap (λ l. table_in l i) now ∙ bytes-at) (
              subst
                (λ x. IsStored (d.content r.1.env) at first_data reserve x (map (λ x. x.table) r.0))
                {x = 8 * (s + 1) + 0} {y = 8 * s + (i + 1)} (omega arith) h.stored);
        }

  -- The loop at equal places.
  equal_places :
      (infos : List Info) (s : ℕ) (b : Bytes) (f : ℕ → Bytes) (w : World E) {x x' y y' : ℕ}
      → x ≡ x'
      → y ≡ y'
      → Flushed s 0 b f (flush_entries k infos x y 0 b w)
      → Flushed s 0 b f (flush_entries k infos x' y' 0 b w)
  equal_places infos s b f w {x' = x'} {y = y} p q h =
      subst (λ z. Flushed s 0 b f (flush_entries k infos x' z 0 b w)) q
        (subst (λ z. Flushed s 0 b f (flush_entries k infos z y 0 b w)) p h)

  -- Wherever the loop stands, it leaves the entries that are left in their places.
  pub flush_entries-Flushed :
      (infos : List Info) (s i : ℕ) (buffer : Bytes) (w : World E)
      → i < 8
      → 8 * s + (i + length infos) ≤ 256
      → length buffer ≡ 512
      → (0 < i → Clear buffer i)
      → Blank (8 * s + (i + length infos)) (d.content w.env)
      → EachLive first_data reserve infos
      → Flushed s i buffer
          (d.content w.env)
          (flush_entries k infos (master + s) (backup + s) i buffer w)
  unfolding after_copies
  flush_entries-Flushed [] s i buffer w in_sector room sized clear blank live =
      flush_end s i buffer w in_sector (omega arith) sized clear
        (subst-Blank (d.content w.env) {x = 8 * s + (i + 0)} blank (omega arith))
  flush_entries-Flushed (info ∷ infos) s i buffer w in_sector room sized clear blank
        (fits, live, rest) =
      let b = bytes info infos s i buffer w in_sector room sized fits live in
      let b_sized = bytes-length info infos s i buffer w in_sector room sized fits live in
      elim (Bool-cases (i == 7)) [
        | inl last ↦
            (let (e, run, same) =
                copies_lem d (master + s) (backup + s) b w (omega arith) (omega arith) b_sized in
              let w1 : World E = record w { env = e } in
              let step =
                flush_full d info infos (master + s) (backup + s) i buffer w last
                ∙ ap (after_copies d (master + s) info infos b) run in
              let below =
                flush_entries-Flushed infos (s + 1) 0 b w1 (omega arith)
                  (omega (arith, is_seven i last)) b_sized (λ pos. absurd (omega arith))
                  (subst-Blank (d.content e) {x = 8 * s + (i + suc (length infos))}
                    (subst (Blank _) (sym same)
                      (Blank-copied _ (d.content w.env) s b (omega arith) room blank))
                    (omega (arith, is_seven i last)))
                  rest in
              let next_places =
                equal_places infos (s + 1) b (d.content e) w1 {x = master + (s + 1)}
                  {x' = master + s + 1} {y = backup + (s + 1)} {y' = backup + s + 1} (omega arith)
                  (omega arith) below in
              subst (Flushed s i buffer (d.content w.env)) (sym step) (
                flush_full_lem info infos s i buffer w in_sector room sized fits live
                  (is_seven i last) e _ same next_places))
        | inr more ↦
            subst (Flushed s i buffer (d.content w.env))
              (sym (flush_more d info infos (master + s) (backup + s) i buffer w more))
              (flush_more_lem info infos s i buffer w in_sector room sized fits live clear _ (
                flush_entries-Flushed infos s (i + 1) b w (not_last i in_sector more) (omega arith)
                  b_sized
                  (λ _.
                    filled-Clear i buffer sized info (master + s) (omega arith) fits in_sector
                      clear)
                  (subst-Blank (d.content w.env) {x = 8 * s + (i + suc (length infos))} blank
                    (omega arith))
                  rest))
      ]
