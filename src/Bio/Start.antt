-- ===== src/Bio/Start.antt =====
-- swap.c: the start of a device whose swaps were saved, up to the first request.
use scsiswap.Log.{scsi_swap_log_init}
use scsiswap.Core.Flush.Stores.{fresh, saved}
use scsiswap.Layout.{swap_log_data_offset, swap_log_head_offset}
use scsiswap.Bio.Life.{clear_handler, scsi_device_can_swap, scsi_swap_init}
use scsiswap.Core.Start.{scsi_swap_core_init}
use mathlib.Core.Path.{subst}
use scsiswap.Core.Invariant.{Owned, IsSound, indexes}
use scsiswap.Sim.{scsi_swap_sim_init}
use scsiswap.Requests.{IsServing}
use scsiswap.Disk.{Disk, length-sectors, sectors}
use scsiswap.Core.Start.Cycle.{IsSaved, flush_both-Boots, flush_both}
use scsiswap.Core.Start.Reboot.{unsaved}
use scsiswap.Core.Ready.{AllFull}
use scsiswap.Format.{log_head_of, Head, Table}
use scsiswap.Core.Start.Boot.{zero_head-length, Boots, IsBooted}
use scsiswap.Core.Start.Loading.{loaded}
use scsiswap.Base.{
  arith, ◌+◌, Bool, Bytes, List, Option, [], ap, length, map, none, refl, some, sym, true, ℕ, ◌∙◌,
  ◌∷◌, ◌≡◌,
}
use scsiswap.Yields.{yield_bind, Yields}
use scsiswap.Log.Start.{scsi_swap_log_init-Logged, HasCounters, Logged}
use scsiswap.State.{Info, Status, World, ok}
use scsiswap.Kernel.{Kernel}

-- The blocks of a list of swaps, by its tables.
indexes-unsaved : (xs ys : List Info) → map unsaved xs ≡ map unsaved ys → indexes xs ≡ indexes ys
indexes-unsaved xs ys e = of_tables xs ∙ ap (map (λ t. t.index)) e ∙ sym (of_tables ys)
  where
    of_tables : (infos : List Info) → indexes infos ≡ map (λ t. t.index) (map unsaved infos)
    of_tables [] = refl
    of_tables (x ∷ infos) = ap (λ l. x.table.index ∷ l) (of_tables infos)

indexes-loaded :
    (disk : ℕ → Bytes) (infos : List Info)
    → indexes (map (loaded disk) (map (λ x. x.table) infos)) ≡ indexes infos
indexes-loaded disk [] = refl
indexes-loaded disk (x ∷ infos) = ap (λ l. x.table.index ∷ l) (indexes-loaded disk infos)

loaded-AllFull :
    (disk : ℕ → Bytes) (ts : List Table)
    → ((x : ℕ) → length (disk x) ≡ 512)
    → AllFull (map (loaded disk) ts)
loaded-AllFull disk [] whole = tt
loaded-AllFull disk (t ∷ ts) whole = (
  record {
    buffer = sectors disk t.swap_sec 128;
    held = refl;
    full = length-sectors disk t.swap_sec 128 whole;
  },
  loaded-AllFull disk ts whole,
)

-- The device serves: its swaps are on, sound and equipped, none uses it, and its bitmap is this.
pub record Serves {E : Type 0} (bitmap : List Bool) (s : Status) (v : World E) : Type 0 where
  pub done : s ≡ ok
  pub enabled : v.enable ≡ true
  pub serving : IsServing 0 v
  pub bitmap_kept : v.core.head.bitmap ≡ bitmap

module _ {E : Type 0} {k : Kernel E} (d : Disk k) where
  Boots-Yields :
      (reserve : ℕ) (h : Head) (ts : List Table) (w : World E) (r : Option (Status × World E))
      → Boots d reserve h ts w r
      → Yields (λ s v. (s ≡ ok) × IsBooted d reserve h ts w v) r
  unfolding Boots
  Boots-Yields reserve h ts w none b = b
  Boots-Yields reserve h ts w (some (s, v)) b = b

  -- A booted core with its log.
  booted-Serves :
      (reserve : ℕ) (w u v x : World E)
      → IsSound w
      → let l = flush_both d w in
        l.core.head.bitmap ≡ w.core.head.bitmap
        → map unsaved l.core.info_list ≡ map unsaved w.core.info_list
        → IsBooted d reserve l.core.head (map (λ i. i.table) l.core.info_list) u v
        → Logged d v x
        → Serves w.core.head.bitmap ok (record (scsi_swap_sim_init x) { enable = true })
  unfolding scsi_swap_sim_init
  booted-Serves reserve w u v x sound bits list b g =
      let infos = (flush_both d w).core.info_list in
      let tables : x.core.info_list ≡ map (loaded (d.content u.env)) (map (λ i. i.table) infos) =
        ap (λ c. c.info_list) g.core ∙ b.info_list in
      let bitmap : x.core.head.bitmap ≡ w.core.head.bitmap =
        ap (λ c. c.head.bitmap) g.core ∙ ap (λ h. h.bitmap) b.head ∙ bits in
      let blocks : indexes x.core.info_list ≡ indexes w.core.info_list =
        ap indexes tables
        ∙ indexes-loaded (d.content u.env) infos
        ∙ indexes-unsaved infos w.core.info_list list in
      record {
        done = refl;
        enabled = refl;
        serving = record {
          ready = record {
            log = g.log;
            buffers =
                subst AllFull (sym tables) (loaded-AllFull (d.content u.env) _ (d.size u.env));
          };
          sound =
              subst (λ bits. Owned bits (indexes x.core.info_list)) (sym bitmap)
                (subst (Owned w.core.head.bitmap) (sym blocks) sound);
          same = ap (λ c. c.user) g.core ∙ b.unused;
        };
        bitmap_kept = bitmap;
      }

  -- A device whose swaps were saved serves again. On a working disk let
  -- a world whose swaps each own a marked block save its table and its head, and take any world
  -- with that disk whose log head, if its checksum is right, has counters of the ring. There
  -- `scsi_swap_init` of an adapter that can swap, for the same reserved area, returns 0: the swaps
  -- are enabled, with the bitmap that was saved, and every condition of a history of requests holds,
  -- with no user: each swap is the only owner of a marked block and has its buffer, and the log can
  -- be pushed to. Memory from `kmalloc` has the size asked for.
  pub scsi_swap_init-Serves :
      (proc_name : Option Bytes) (reserve : ℕ) (w u : World E)
      → ((n : ℕ) (e : E) → length (k.fresh_memory n e) ≡ n)
      → scsi_device_can_swap proc_name ≡ true
      → IsSaved d reserve w
      → IsSound w
      → d.content u.env ≡ d.content (flush_both d w).env
      → HasCounters (log_head_of (d.content u.env (reserve + swap_log_head_offset)))
      → Yields (Serves w.core.head.bitmap) (scsi_swap_init k proc_name reserve u)
  unfolding scsi_swap_init
  scsi_swap_init-Serves proc_name reserve w u fresh can saved sound same counters =
      let u1 : World E = clear_handler k (record u { env = (k.kmalloc 1024 u.env).1 }) in
      let same1 : d.content u1.env ≡ d.content u.env = (d.alloc 1024 u.env).1 in
      let (bits, list, boots) =
        flush_both-Boots d reserve w u1 saved (same1 ∙ same) zero_head-length in
      let l = flush_both d w in
      rw (can, (d.alloc 1024 u.env).0)
        (yield_bind (scsi_swap_core_init k reserve) _ _ (Serves w.core.head.bitmap) u1
          (Boots-Yields reserve l.core.head (map (λ i. i.table) l.core.info_list) u1 _ boots)
          (λ s v (good, b).
            let disk : d.content v.env ≡ d.content u.env = b.content ∙ same1 in
            rw good (
              yield_bind
                (scsi_swap_log_init k (reserve + swap_log_head_offset)
                  (reserve + swap_log_data_offset))
                _ (λ _ x. Logged d v x) (Serves w.core.head.bitmap) v
                (scsi_swap_log_init-Logged d (reserve + swap_log_head_offset)
                  (reserve + swap_log_data_offset) v fresh (omega (arith, saved.small))
                  (omega (arith, saved.small)) (rw disk counters))
                (λ _ x g. booted-Serves reserve w u1 v x sound bits list b g))))
