-- ===== src/Core/Start/Counting.antt =====
-- core.c: the count of the tables on a working disk.
use mathlib.Core.Path.{subst}
use scsiswap.Format.{Table}
use scsiswap.Core.Start.{calc_swap_info_num, count_tables}
use scsiswap.Io.{hd_read_sector_retry}
use scsiswap.Core.Start.Stored.{Counted, count_slots, IsStored}
use scsiswap.Disk.{sectors_one, Disk, read_lem}
use scsiswap.State.{Status, is_ok, World, ok}
use scsiswap.Base.{
  sym, Bool, Bytes, List, [], ap, arith, false, length, refl, replicate, some, suc, true, zero, ℕ,
  ◌*◌, ◌+◌, ◌<◌, ◌∙◌, ◌∷◌, ◌≡◌,
}
use scsiswap.Disk.{read_lem}
use scsiswap.Kernel.{Kernel}

module _ {E : Type 0} {k : Kernel E} (d : Disk k) where
  -- The world, but for what is outside, where the disk is as it was.
  pub read_one :
      (sector : ℕ) (w : World E)
      → sector + 1 < 4294967296
      → (e : E) × (hd_read_sector_retry k sector 1 (some (replicate 512 0)) 512 w
          ≡ ((ok, d.content w.env sector), record w { env = e }))
        × (d.content e ≡ d.content w.env)
  read_one sector w small =
      let (e, got, same) = read_lem d sector 1 w small (omega arith) in
      (
        e,
        got ∙ ap (λ b. ((ok, b), record w { env = e })) (sectors_one (d.content w.env) sector),
        same,
      )

  -- What follows on a count of one sector, and on its read.
  abbrev after_count : ℕ → ℕ → ℕ → World E → ℕ × Bool → ℕ × World E
  after_count n start total w p = elim p.1 [
    | true ↦ (total + p.0, w)
    | false ↦ calc_swap_info_num k n (start + 1) (total + p.0) w
  ]

  abbrev after_read : ℕ → ℕ → ℕ → (Status × Bytes) × World E → ℕ × World E
  after_read n start total r = elim (is_ok r.0.0) [
    | false ↦ calc_swap_info_num k n (start + 1) total r.1
    | true ↦ after_count n start total r.1 (count_tables 8 0 r.0.1)
  ]

  calc_step :
      (n start total : ℕ) (w v : World E) (bytes : Bytes)
      → hd_read_sector_retry k start 1 (some (replicate 512 0)) 512 w ≡ ((ok, bytes), v)
      → calc_swap_info_num k (suc n) start total w
        ≡ after_count n start total v (count_tables 8 0 bytes)
  unfolding calc_swap_info_num
  calc_step n start total w v bytes read = ap (after_read n start total) read

  module _ (base first_data reserve : ℕ) (small : base + 32 < 4294967296) where
    -- The count goes on, or is done.
    abbrev Total : ℕ → List Table → World E → ℕ × World E → Type 0
    Total total ts w r =
        (e : E) × (r ≡ (total + length ts, record w { env = e })) × (d.content e ≡ d.content w.env)

    counted :
        (n s total : ℕ) (ts : List Table) (w v : World E) (disk : ℕ → Bytes) (p : ℕ × Bool)
        → Counted disk base first_data reserve s ts p
        → ((rest : List Table)
            → IsStored disk base first_data reserve (8 * s + 8) rest
            → Total (total + p.0) rest v (calc_swap_info_num k n (base + s + 1) (total + p.0) v))
        → Total total ts v (after_count n (base + s) total v p)
    unfolding Counted
    counted n s total ts w v disk (found, true) e later =
        (v.env, ap (λ x. (x, v)) {x = total + found} {y = total + length ts} (omega arith), refl)
    counted n s total ts w v disk (found, false) (rest, e, h) later =
        let (e', run, same) = later rest h in
        (
          e',
          run
              ∙ ap (λ x. (x, record v { env = e' })) {x = total + found + length rest}
                  {y = total + length ts} (omega arith),
          same,
        )

    pub calc_lem :
        (n s total : ℕ) (ts : List Table) (w : World E)
        → n + s ≡ 32
        → IsStored (d.content w.env) base first_data reserve (8 * s) ts
        → Total total ts w (calc_swap_info_num k n (base + s) total w)
    unfolding IsStored calc_swap_info_num
    calc_lem zero s total [] w ends h =
        (w.env, ap (λ x. (x, w)) {x = total} {y = total + 0} (omega arith), refl)
    calc_lem zero s total (t ∷ ts) w ends h = absurd (omega (arith, h.0))
    calc_lem (suc n) s total ts w ends h =
        let disk = d.content w.env in
        let (e, read, same) = read_one (base + s) w (omega arith) in
        let v : World E = record w { env = e } in
        let slots = count_slots disk base first_data reserve 8 0 s ts refl (omega arith) (
          subst (λ i. IsStored disk base first_data reserve i ts) {x = 8 * s} {y = 8 * s + 0}
            (omega arith) h) in
        let (e', run, same') : Total total ts v _ =
          counted n s total ts w v disk (count_tables 8 0 (disk (base + s))) slots (λ rest stored.
            subst
              (λ x.
                Total (total + (count_tables 8 0 (disk (base + s))).0) rest v
                  (calc_swap_info_num k n x (total + (count_tables 8 0 (disk (base + s))).0) v))
              {x = base + (s + 1)} {y = base + s + 1} (omega arith)
              (calc_lem n (s + 1) (total + (count_tables 8 0 (disk (base + s))).0) rest v
                (omega arith)
                (subst (λ f. IsStored f base first_data reserve (8 * (s + 1)) rest) (sym same)
                  (subst (λ i. IsStored disk base first_data reserve i rest) {x = 8 * s + 8}
                    {y = 8 * (s + 1)} (omega arith) stored)))) in
        (e', calc_step n (base + s) total w v (disk (base + s)) read ∙ run, same' ∙ same)
