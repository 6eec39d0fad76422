-- ===== src/Requests.antt =====
-- swap.c and sysfs.c: a device's history, the worker's items and the writes to "simulate" in any
-- order, with the world outside changing in between.
use scsiswap.Yields.{Yields}
use scsiswap.Core.Invariant.{Owned, indexes, IsSound}
use scsiswap.Bio.{Bio, BioItem, swap_bio_work_handler}
use scsiswap.Core.Ready.{IsReady, IsReady-on_core}
use mathlib.Core.Path.{subst}
use scsiswap.Ensures.{Ensures}
use scsiswap.Bio.Pages.{AreMapped, bytes_of}
use scsiswap.Bio.Settled.{IsSoundBehind, Settled, swap_bio_work_handler-Settled}
use scsiswap.Bio.Handler.{Handled, swap_bio_work_handler-Handled}
use scsiswap.Sim.{scsi_swap_sim_add, scsi_swap_sim_remove}
use scsiswap.Base.{
  length, ◌<◌, Bool, Option, if◌then◌else◌, inl, inr, none, refl, true, u32, u64, Bytes, ap, false,
  some, sym, ℕ, ◌∙◌, ◌≡◌, ◌⊎◌,
}
use scsiswap.Sysfs.{add_format, remove_format, two_of, sim_command, swap_sim_store, taken}
use scsiswap.State.{Status, World, ok}
use scsiswap.Kernel.{Kernel}

-- One call. A write that the handler reports with -EIO is left out: behind it a block may be shared.
pub data Step {E : Type 0} (k : Kernel E) (w v : World E) : Type 0 where
  served :
      (item : BioItem) (bio : Bio) (s : Status)
      → swap_bio_work_handler k item w ≡ some ((bio, s), v)
      → (item.bio.is_write ≡ false) ⊎ (s ≡ ok)
      → Step k w v
  stored :
      (page : Bytes) (count : ℕ)
      → swap_sim_store k page count w ≡ some (taken count, v)
      → Step k w v
  waited : (e : E) → v ≡ record w { env = e } → Step k w v

pub data Reach {E : Type 0} (k : Kernel E) (w : World E) : World E → Type 0 where
  here : Reach k w w
  next : {u v : World E} → Reach k w u → Step k u v → Reach k w v

-- What a history keeps.
pub record IsServing {E : Type 0} (user : ℕ) (w : World E) : Type 0 where
  pub ready : IsReady w
  pub sound : IsSound w
  pub same : w.core.user ≡ user

module _ {E : Type 0} (k : Kernel E) where
  -- What stays: the core and the log.
  abbrev Rest : World E → World E → Type 0
  Rest w v = (v.core ≡ w.core) × (v.log ≡ w.log)

  add-Rest : (sector num : ℕ) (w : World E) → Rest w (scsi_swap_sim_add k sector num w).1
  unfolding scsi_swap_sim_add
  add-Rest sector num w = by_answer (k.kmalloc 32 w.env).0 _ _ (refl, refl) (refl, refl)
    where
      by_answer :
          (b : Bool) (x y : Status × World E)
          → Rest w x.1
          → Rest w y.1
          → Rest w (if b then x else y).1
      by_answer true x y p q = p
      by_answer false x y p q = q

  sim_command-Rest : (page : Bytes) (w : World E) → Rest w (sim_command k page w)
  unfolding sim_command scsi_swap_sim_remove
  sim_command-Rest page w =
      by_numbers (two_of (k.sscanf page add_format)) (two_of (k.sscanf page remove_format))
    where
      by_numbers :
          (a b : Option (ℕ × ℕ))
          → Rest w (
              let r : World E = elim a [
                | some (sector, num) ↦ (scsi_swap_sim_add k (u64 sector) (u32 num) w).1
                | none ↦ elim b [
                  | some (sector, num) ↦ (scsi_swap_sim_remove (u64 sector) (u32 num) w).1
                  | none ↦ w
                ]
              ] in
              r)
      by_numbers (some (sector, num)) b = add-Rest (u64 sector) (u32 num) w
      by_numbers none (some (sector, num)) = (refl, refl)
      by_numbers none none = (refl, refl)

  stored-IsServing :
      (page : Bytes) (count : ℕ) {user : ℕ} {w v : World E}
      → swap_sim_store k page count w ≡ some (taken count, v)
      → IsServing user w
      → IsServing user v
  unfolding swap_sim_store
  stored-IsServing page count {user} {w} {v} e h =
      let same : sim_command k page w ≡ v = cc in
      let (core, log) = sim_command-Rest page w in
      subst (IsServing user) same (record {
        ready = IsReady-on_core (ap (λ c. c.info_list) core) log h.ready;
        sound = subst (λ c. Owned c.head.bitmap (indexes c.info_list)) (sym core) h.sound;
        same = ap (λ c. c.user) core ∙ h.same;
      })

  -- A read, or a write that was done.
  counted :
      (b : Bool) (s : Status) (v : World E)
      → IsSoundBehind b s v
      → (b ≡ false) ⊎ (s ≡ ok)
      → IsSound v
  counted b s v h (inl e) = subst (λ c. IsSoundBehind c s v) e h
  counted true s v h (inr e) = subst (λ t. IsSoundBehind true t v) e h
  counted false s v h (inr e) = h

  module _ (sized : (n : ℕ) (e : E) → length (k.fresh_memory n e) ≡ n) where
    Step-IsServing :
        {user : ℕ} {w v : World E}
        → user < 4294967296
        → Step k w v
        → IsServing user w
        → IsServing user v
    Step-IsServing {user} {w} {v} small (served item bio s e kind) h =
        let left : Settled item w bio s v =
          subst (Ensures (λ (bio, s) u. Settled item w bio s u)) e
            (swap_bio_work_handler-Settled k sized item w (rw h.same small) h.ready h.sound) in
        record {
          ready = left.ready;
          sound = counted item.bio.is_write s v left.sound kind;
          same = left.user ∙ h.same;
        }
    Step-IsServing small (stored page count e) h = stored-IsServing page count e h
    Step-IsServing {user} {w} {v} small (waited env e) h = subst (IsServing user) (sym e) (record {
      ready = record { log = h.ready.log; buffers = h.ready.buffers };
      sound = h.sound;
      same = h.same;
    })

    -- Whatever items the worker serves, what is written to "simulate" and what happens outside in
    -- between: from a world whose swaps each own a marked block and have their buffers, whose log
    -- has its ring and whose count of users is `user`, below 2^32, every history leads to such a
    -- world. A write that was reported with -EIO is no step of a history; memory from `kmalloc` has
    -- the size asked for.
    pub Reach-IsServing :
        {user : ℕ} {w v : World E}
        → user < 4294967296
        → IsServing user w
        → Reach k w v
        → IsServing user v
    Reach-IsServing small h here = h
    Reach-IsServing small h (next r step) = Step-IsServing small step (Reach-IsServing small h r)

    -- The worker can always go on: behind every history of worker's items, writes to "simulate" and
    -- changes outside that begins in a world whose swaps each own a marked block and have their
    -- buffers, whose log has its ring and whose count of users is below 2^32, the handler returns
    -- for any item whose pages have addresses and, together, the item's size, and ends the bio with
    -- 0 or -EIO as the core answered, with the core's bytes in the pages of a read that was done; the
    -- swaps and the log are as the next item needs them, but for a write that ends with -EIO. A write
    -- that was reported with -EIO is no step of a history; memory from `kmalloc` has the size asked
    -- for.
    pub Reach-serves :
        {user : ℕ} {w v : World E} (item : BioItem)
        → AreMapped item.bio.segments
        → length (bytes_of item.bio.segments) ≡ item.size
        → user < 4294967296
        → IsServing user w
        → Reach k w v
        → Yields (λ (bio, s) u. Handled k item v bio s u) (swap_bio_work_handler k item v)
    Reach-serves {user} {w} {v} item mapped total small h r =
        let s = Reach-IsServing small h r in
        swap_bio_work_handler-Handled k sized item v mapped total (rw s.same small) s.ready s.sound
