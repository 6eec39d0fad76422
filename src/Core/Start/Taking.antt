-- ===== src/Core/Start/Taking.antt =====
-- core.c: the start takes the tables of a working disk, one sector after the other.
use scsiswap.Core.Start.Counting.{read_one}
use scsiswap.Io.{hd_read_sector_retry}
use mathlib.Core.Path.{subst}
use scsiswap.Format.{Table, table_of}
use scsiswap.Core.Start.Loading.{
  Appended, Appended-trans, Appended-none, alloc_lem, take_end, take_more, loaded,
}
use scsiswap.Disk.{sectors, Disk}
use scsiswap.Core.Start.{
  load_tables, no_need_sync, refused, sync_sector, alloc_swap_info_data, append_info, Taken,
  all_taken, end_found, take_tables,
}
use scsiswap.Core.Start.Stored.{entry_at, IsLive, IsStored}
use scsiswap.Base.{
  false, none, replicate, true, arith, refl, sym, zero, ◌<◌, Bytes, List, Option, [], ap, inl, inr,
  map, slice, some, suc, ℕ, ◌*◌, ◌++◌, ◌+◌, ◌∙◌, ◌∷◌, ◌≡◌, ◌⊎◌,
}
use scsiswap.State.{Status, fail, is_ok, ok, Info, World}
use scsiswap.Kernel.{Kernel}

map-append : (f : Table → Info) (xs ys : List Table) → map f (xs ++ ys) ≡ map f xs ++ map f ys
map-append f [] ys = refl
map-append f (x ∷ xs) ys = ap (λ l. f x ∷ l) (map-append f xs ys)

module _ {E : Type 0} {k : Kernel E} (d : Disk k) (disk : ℕ → Bytes)
    (base first_data reserve : ℕ) where
  -- The world has this disk, and its core these places.
  pub record Sees (w : World E) : Type 0 where
    pub content : d.content w.env ≡ disk
    pub sector_data : w.core.sector_data ≡ first_data
    pub sector_reserve_start : w.core.sector_reserve_start ≡ reserve

  Appended-Sees : {w v : World E} {infos : List Info} → Appended d w v infos → Sees w → Sees v
  Appended-Sees g h = record {
    content = g.content ∙ h.content;
    sector_data = ap (λ c. c.sector_data) g.rest ∙ h.sector_data;
    sector_reserve_start = ap (λ c. c.sector_reserve_start) g.rest ∙ h.sector_reserve_start;
  }

  -- All the tables are taken and the end was met, or the sector's are and some may be left.
  abbrev Took : ℕ → List Table → World E → Option ((Taken × Bytes) × World E) → Type 0
  Took s ts w r =
      ((v : World E) × (r ≡ some ((end_found, disk (base + s)), v))
        × Appended d w v (map (loaded disk) ts))
      ⊎ ((now : List Table) × (rest : List Table) × (v : World E) × (ts ≡ now ++ rest)
          × (r ≡ some ((all_taken, disk (base + s)), v))
          × Appended d w v (map (loaded disk) now)
          × IsStored disk base first_data reserve (8 * s + 8) rest)

  -- One table is taken, and the others are in what follows.
  one_more :
      (s : ℕ) (t : Table) (ts : List Table) {w v : World E} (r : Option ((Taken × Bytes) × World E))
      → Appended d w v (loaded disk t ∷ [])
      → Took s ts v r
      → Took s (t ∷ ts) w r
  one_more s t ts r g (inl (u, e, h)) = inl (u, e, Appended-trans d g h)
  one_more s t ts r g (inr (now, rest, u, split, e, h, more)) =
      inr (t ∷ now, rest, u, ap (λ l. t ∷ l) split, e, Appended-trans d g h, more)

  -- One slot that holds a table.
  take_one :
      (n j s : ℕ) (w : World E)
      → Sees w
      → let t = table_of (slice (disk (base + s)) (j * 64) 64) in
        IsLive first_data reserve t
        → (v : World E) × (take_tables k (suc n) j (disk (base + s)) w
            ≡ take_tables k n (j + 1) (disk (base + s)) v)
          × Appended d w v (loaded disk t ∷ [])
  take_one n j s w sees live =
      let t = table_of (slice (disk (base + s)) (j * 64) 64) in
      let w1 : World E = record w { env = (k.kmalloc 112 w.env).1 } in
      let same1 : d.content w1.env ≡ disk = (d.alloc 112 w.env).1 ∙ sees.content in
      let bytes = sectors (d.content w1.env) t.swap_sec 128 in
      let (e2, found, same2) = alloc_lem d t.swap_sec w1 live.small in
      let v : World E = record w1 { env = e2 } in
      (
        append_info k (record { table = t; buf = some bytes }) v,
        take_more d n j (disk (base + s)) bytes w v
            (subst (λ a. IsLive a w.core.sector_reserve_start t) (sym sees.sector_data)
              (subst (λ b. IsLive first_data b t) (sym sees.sector_reserve_start) live))
            (subst (λ n. alloc_swap_info_data k t.swap_sec n w1 ≡ (some bytes, v)) (sym live.size)
              found),
        record {
          info_list = ap (λ f. w.core.info_list ++ loaded f t ∷ []) same1;
          rest = refl;
          content = same2 ∙ (d.alloc 112 w.env).1;
        },
      )

  pub take_slots :
      (n j s : ℕ) (ts : List Table) (w : World E)
      → n + j ≡ 8
      → s < 32
      → Sees w
      → IsStored disk base first_data reserve (8 * s + j) ts
      → Took s ts w (take_tables k n j (disk (base + s)) w)
  unfolding IsStored take_tables
  take_slots zero j s ts w full in_range sees h = inr (
    [],
    ts,
    w,
    refl,
    refl,
    Appended-none d w w.env refl,
    subst (λ x. IsStored disk base first_data reserve (8 * s + x) ts) {x = j} {y = 8}
        (omega (arith, full)) h,
  )
  take_slots (suc n) j s [] w full in_range sees (inl at_end) = absurd (omega arith)
  take_slots (suc n) j s [] w full in_range sees (inr no_table) = inl (
    record w { env = (k.kmalloc 112 w.env).1 },
    take_end d n j (disk (base + s)) w
        (λ e. no_table (ap (λ t. t.sec_size) (entry_at disk base s j (omega arith)) ∙ e)),
    Appended-none d w _ (d.alloc 112 w.env).1,
  )
  take_slots (suc n) j s (t ∷ ts) w full in_range sees (lt, at, live, rest) =
      let same : table_of (slice (disk (base + s)) (j * 64) 64) ≡ t =
        sym (entry_at disk base s j (omega arith)) ∙ at in
      let (v, run, g) = take_one n j s w sees (subst (IsLive first_data reserve) (sym same) live) in
      let g' = subst (λ x. Appended d w v (loaded disk x ∷ [])) same g in
      let later = take_slots n (j + 1) s ts v (omega arith) in_range (Appended-Sees g sees) (
        subst (λ x. IsStored disk base first_data reserve x ts) {x = suc (8 * s + j)}
          {y = 8 * s + (j + 1)} (omega arith) rest) in
      subst (Took s (t ∷ ts) w) (sym run) (one_more s t ts _ g' later)

  -- What follows on the tables of a sector where neither copy needs the other's, and on its read.
  abbrev after_took : ℕ → ℕ → ℕ → ℕ → Option ((Taken × Bytes) × World E) → Option (Status × World E)
  after_took n start master back r = elim r [
    | none ↦ none
    | some ((taken, buffer), w2) ↦
        (let (master', back', w3) = sync_sector k no_need_sync master back buffer w2 in
          elim taken [
            | refused ↦ some (fail, w2)
            | end_found ↦ some (ok, w3)
            | all_taken ↦ load_tables k n (start + 1) no_need_sync master' back' w3
          ])
  ]

  abbrev after_read : ℕ → ℕ → ℕ → ℕ → (Status × Bytes) × World E → Option (Status × World E)
  after_read n start master back r = elim (is_ok r.0.0) [
    | false ↦ load_tables k n (start + 1) no_need_sync master back r.1
    | true ↦ after_took n start master back (take_tables k 8 0 r.0.1 r.1)
  ]

  load_step :
      (n start master back : ℕ) (w v : World E) (bytes : Bytes)
      → hd_read_sector_retry k start 1 (some (replicate 512 0)) 512 w ≡ ((ok, bytes), v)
      → load_tables k (suc n) start no_need_sync master back w
        ≡ after_took n start master back (take_tables k 8 0 bytes v)
  unfolding load_tables
  load_step n start master back w v bytes read = ap (after_read n start master back) read

  -- The run ends well, with the swaps of the tables behind those that were there.
  abbrev Loads : List Table → World E → Option (Status × World E) → Type 0
  Loads ts w r = (v : World E) × (r ≡ some (ok, v)) × Appended d w v (map (loaded disk) ts)

  module _ (small : base + 32 < 4294967296) where
    finish_sector :
        (n s master back : ℕ) (ts : List Table) {w v : World E}
        (r : Option ((Taken × Bytes) × World E))
        → Appended d w v []
        → Sees v
        → Took s ts v r
        → ((rest : List Table) (u : World E)
            → Sees u
            → IsStored disk base first_data reserve (8 * s + 8) rest
            → Loads rest u (load_tables k n (base + s + 1) no_need_sync master back u))
        → Loads ts w (after_took n (base + s) master back r)
    unfolding sync_sector
    finish_sector n s master back ts r g sees (inl (u, e, h)) later =
        (u, ap (after_took n (base + s) master back) e, Appended-trans d g h)
    finish_sector n s master back ts r g sees (inr (now, rest, u, split, e, h, more)) later =
        let (x, run, h') = later rest u (Appended-Sees h sees) more in
        (
          x,
          ap (after_took n (base + s) master back) e ∙ run,
          subst (Appended d _ x)
              (sym (ap (map (loaded disk)) split ∙ map-append (loaded disk) now rest))
              (Appended-trans d g (Appended-trans d h h')),
        )

    pub load_lem :
        (n s master back : ℕ) (ts : List Table) (w : World E)
        → n + s ≡ 32
        → Sees w
        → IsStored disk base first_data reserve (8 * s) ts
        → Loads ts w (load_tables k n (base + s) no_need_sync master back w)
    unfolding IsStored load_tables
    load_lem zero s master back [] w ends sees h = (w, refl, Appended-none d w w.env refl)
    load_lem zero s master back (t ∷ ts) w ends sees h = absurd (omega (arith, h.0))
    load_lem (suc n) s master back ts w ends sees h =
        let (e, read, same) = read_one d (base + s) w (omega arith) in
        let v : World E = record w { env = e } in
        let g = Appended-none d w e same in
        let slots = take_slots 8 0 s ts v refl (omega arith) (Appended-Sees g sees) (
          subst (λ i. IsStored disk base first_data reserve i ts) {x = 8 * s} {y = 8 * s + 0}
            (omega arith) h) in
        let run =
          load_step n (base + s) master back w v (disk (base + s))
            (read ∙ ap (λ f. ((ok, f (base + s)), v)) sees.content) in
        subst (Loads ts w) (sym run) (
          finish_sector n s master back ts _ g (Appended-Sees g sees) slots (λ rest u sees' more.
            subst (λ x. Loads rest u (load_tables k n x no_need_sync master back u))
              {x = base + (s + 1)} {y = base + s + 1} (omega arith)
              (load_lem n (s + 1) master back rest u (omega arith) sees' (
                subst (λ i. IsStored disk base first_data reserve i rest) {x = 8 * s + 8}
                  {y = 8 * (s + 1)} (omega arith) more))))
