-- ===== src/Core/Start/Boot.antt =====
-- core.c: `scsi_swap_core_init` on a working disk with a head and tables.
use mathlib.Core.Path.{subst}
use scsiswap.Core.Start.Restored.{init_swap_info-Restores, Restores}
use scsiswap.Core.Start.{init_swap_info, scsi_swap_core_init, swap_info_destroy}
use scsiswap.State.{fail, is_ok, Status, ok, on_core, World}
use scsiswap.Core.Start.Loading.{rest_of, loaded}
use scsiswap.Format.Heads.{FitsHead, head_of-head_bytes}
use scsiswap.Layout.{
  max_reserved_sector, swap_data_offset, swap_head_offset, swap_table_backup_offset,
  swap_table_offset,
}
use scsiswap.Core.Header.{
  init_swap_head, HeadState, is_invalid, is_skipped, init_head_loop, settle_head, classify, head_ok,
  swap_get_head_state,
}
use scsiswap.Format.{bitmap_bytes, head_prefix, zero_head, Head, Table, head_bytes}
use scsiswap.Disk.{sectors_one, Disk, read_sized, sectors}
use scsiswap.Base.{
  le_bytes, replicate, sym, Option, if◌then◌else◌, none, some, ap, false, true, suc, List, arith,
  length, map, refl, ℕ, ◌+◌, ◌<◌, ◌∙◌, ◌≡◌,
}
use scsiswap.Core.Start.Stored.{IsStored}
use scsiswap.Kernel.{Kernel}

pub zero_head-length : length (head_bytes zero_head) ≡ 512
unfolding head_bytes head_prefix zero_head bitmap_bytes le_bytes replicate
zero_head-length = refl

module _ {E : Type 0} {k : Kernel E} (d : Disk k) where
  -- The reserved area from `reserve` on holds the head in its first place and the tables, each twice.
  pub record IsBootable (reserve : ℕ) (h : Head) (ts : List Table) (w : World E) : Type 0 where
    pub memory : length (head_bytes w.core.head) ≡ 512
    pub small : reserve + max_reserved_sector < 4294967296
    pub fits : FitsHead h
    pub good : classify h ≡ head_ok
    pub head : d.content w.env (reserve + swap_head_offset) ≡ head_bytes h
    pub head_backup : d.content w.env (reserve + swap_head_offset + 64) ≡ head_bytes h
    pub tables :
        IsStored
          (d.content w.env)
          (reserve + swap_table_offset)
          (reserve + swap_data_offset)
          reserve
          0
          ts
    pub tables_backup :
        IsStored
          (d.content w.env)
          (reserve + swap_table_backup_offset)
          (reserve + swap_data_offset)
          reserve
          0
          ts

  -- The start returns 0, with this head, the swaps of the tables with their data, a live device
  -- without users, and the places of the reserved area; the disk is as it was.
  pub record IsBooted (reserve : ℕ) (h : Head) (ts : List Table) (w v : World E) : Type 0 where
    pub head : v.core.head ≡ h
    pub info_list : v.core.info_list ≡ map (loaded (d.content w.env)) ts
    pub alive : v.core.device_dead ≡ 0
    pub unused : v.core.user ≡ 0
    pub sector_head : v.core.sector_head ≡ reserve + swap_head_offset
    pub sector_reserve_start : v.core.sector_reserve_start ≡ reserve
    pub sector_data : v.core.sector_data ≡ reserve + swap_data_offset
    pub content : d.content v.env ≡ d.content w.env

  head_lem :
      (sector : ℕ) (old h : Head) (w : World E)
      → sector + 1 < 4294967296
      → length (head_bytes old) ≡ 512
      → FitsHead h
      → classify h ≡ head_ok
      → d.content w.env sector ≡ head_bytes h
      → (e : E) × (swap_get_head_state k sector old w ≡ (head_ok, h, record w { env = e }))
        × (d.content e ≡ d.content w.env)
  unfolding swap_get_head_state
  head_lem sector old h w small memory fits good at =
      let (e, read, same) =
        read_sized d sector 1 512 (head_bytes old) w small (omega arith) refl memory in
      let bytes : sectors (d.content w.env) sector 1 ≡ head_bytes h =
        sectors_one (d.content w.env) sector ∙ at in
      (e, rw (read, bytes, head_of-head_bytes h fits, good) refl, same)

  abbrev with_head : Head → World E → World E
  with_head h w = on_core (λ c. record c { head = h }) w

  -- What the loop does on the two states of a block.
  abbrev on_states :
      ℕ → ℕ → Head → HeadState × Head × World E → HeadState × Head × World E → Status × World E
  on_states n start back r r' = elim (is_invalid k r.0) [
    | true ↦ init_head_loop k n (start + 128) back (with_head r.1 r.2)
    | false ↦ elim (is_skipped k r.0 r'.0) [
      | true ↦ init_head_loop k n (start + 128) r'.1 r'.2
      | false ↦ settle_head k r.0 r'.0 r'.1 start r'.2
    ]
  ]

  -- The first block of heads is good: it is taken, and nothing is written.
  found_head :
      (n start : ℕ) (back h : Head) (w v u : World E)
      → swap_get_head_state k start w.core.head w ≡ (head_ok, h, v)
      → swap_get_head_state k (start + 64) back (with_head h v) ≡ (head_ok, h, u)
      → init_head_loop k (suc n) start back w
        ≡ (ok, on_core (λ c. record c { sector_head = start }) u)
  unfolding init_head_loop settle_head
  found_head n start back h w v u first second =
      ap
        (λ r.
          on_states n start back r (swap_get_head_state k (start + 64) back (with_head r.1 r.2)))
        first
      ∙ ap (on_states n start back (head_ok, h, v)) second

  -- The core with the places of the reserved area.
  abbrev placed : ℕ → World E → World E
  placed reserve w =
      on_core
        (λ c. record c {
          sector_reserve_start = reserve;
          sector_head = reserve + swap_head_offset;
          sector_data = reserve + swap_data_offset;
          sector_table = reserve + swap_table_offset;
        })
        w

  -- What the start does behind the load, and behind the search for the head.
  abbrev finished : Status → World E → Option (Status × World E)
  finished s =
      if is_ok s
      then (λ v. some (ok, on_core (λ c. record c { device_dead = 0; user = 0 }) v))
      else (λ v. some (fail, (swap_info_destroy k v).1))

  abbrev on_load : Option (Status × World E) → Option (Status × World E)
  on_load r = elim r [ none ↦ none | some (s, v) ↦ finished s v ]

  abbrev found : Status → World E → Option (Status × World E)
  found s = if is_ok s then (λ w. on_load (init_swap_info k w)) else (λ w. some (fail, w))

  init_parts :
      (reserve : ℕ) (w : World E)
      → scsi_swap_core_init k reserve w ≡ (
          let (s, v) = init_swap_head k (reserve + swap_head_offset) (placed reserve w) in
          found s v)
  unfolding scsi_swap_core_init init_swap_info swap_info_destroy
  init_parts reserve w = refl

  unfoldable pub Boots : ℕ → Head → List Table → World E → Option (Status × World E) → Type 0
  Boots reserve h ts w none = ⊥
  Boots reserve h ts w (some (s, v)) = (s ≡ ok) × IsBooted reserve h ts w v

  after_load :
      (reserve : ℕ) (h : Head) (ts : List Table) (w u : World E) (r : Option (Status × World E))
      → rest_of u.core ≡ rest_of (record (placed reserve w).core { head = h })
      → d.content u.env ≡ d.content w.env
      → Restores d u ts r
      → Boots reserve h ts w (on_load r)
  unfolding Restores Boots
  after_load reserve h ts w u none core same x = elim x [ ]
  after_load reserve h ts w u (some (s, v)) core same (good, list, rest, kept) =
      let frame = rest ∙ core in
      rw good (
        refl,
        record {
          head = ap (λ c. c.head) frame;
          info_list = list ∙ ap (λ f. map (loaded f) ts) same;
          alive = refl;
          unused = refl;
          sector_head = ap (λ c. c.sector_head) frame;
          sector_reserve_start = ap (λ c. c.sector_reserve_start) frame;
          sector_data = ap (λ c. c.sector_data) frame;
          content = kept ∙ same;
        },
      )

  -- A start on a working disk whose reserved area holds a good head in its first place and tables
  -- that a start takes, both twice: `scsi_swap_core_init` returns 0, and the core has that head, with
  -- its bitmap, and just these tables' swaps, in order, each with the data that its block holds; the
  -- device counts as alive and unused, and the disk is unchanged.
  pub scsi_swap_core_init-Boots :
      (reserve : ℕ) (h : Head) (ts : List Table) (w : World E)
      → IsBootable reserve h ts w
      → Boots reserve h ts w (scsi_swap_core_init k reserve w)
  unfolding init_swap_head
  scsi_swap_core_init-Boots reserve h ts w b =
      let start = reserve + swap_head_offset in
      let w1 = placed reserve w in
      let (e1, first, same1) =
        head_lem start w.core.head h w1 (omega (arith, b.small)) b.memory b.fits b.good b.head in
      let v : World E = record w1 { env = e1 } in
      let (e2, second, same2) =
        head_lem (start + 64) zero_head h (with_head h v) (omega (arith, b.small)) zero_head-length
          b.fits b.good (ap (λ f. f (start + 64)) same1 ∙ b.head_backup) in
      let u : World E =
        on_core (λ c. record c { sector_head = start }) (record (with_head h v) { env = e2 }) in
      let same : d.content u.env ≡ d.content w.env = same2 ∙ same1 in
      let search =
        found_head 1023 start zero_head h w1 v (record (with_head h v) { env = e2 }) first second in
      let load =
        init_swap_info-Restores d u ts
          (record { master = omega (arith, b.small); backup = omega (arith, b.small) })
          (record { master = rw same b.tables; backup = rw same b.tables_backup }) in
      let run = init_parts reserve w ∙ ap (λ r. found r.0 r.1) search in
      subst (Boots reserve h ts w) (sym run)
        (after_load reserve h ts w u (init_swap_info k u) refl same load)
