-- ===== src/Bio/Handler.antt =====
-- swap.c: the worker's handler, from an item to the bio that goes to `bi_end_io`.
use scsiswap.Bio.Settled.{Settled, swap_bio_work_handler-Settled}
use scsiswap.Core.Transfer.Write.{scsi_swap_core_write}
use scsiswap.Core.Transfer.Total.{scsi_swap_core_read-returns}
use scsiswap.Core.Transfer.TotalNew.{Left}
use scsiswap.Core.Transfer.TotalWrite.{scsi_swap_core_write-returns}
use scsiswap.Core.Transfer.Read.{scsi_swap_core_read}
use scsiswap.Io.Effects.{env-IsCalm}
use scsiswap.Core.Transfer.Rounds.{IsSoundIf}
use scsiswap.Core.Alloc.{kmalloc}
use scsiswap.Yields.{both, yield_weaken, yield_deref, yield_seen, yield_test, Yields}
use scsiswap.Bio.Pages.{AreMapped, bytes_of, bio_fill_buf_lem, buf_fill_bio_lem}
use scsiswap.Core.Invariant.{IsSound}
use scsiswap.State.{deref, pure, ◌>>=◌, enodev, fail, may_dirty, Status, World, eio, ok}
use scsiswap.Core.Ready.{IsReady-after, IsReady}
use scsiswap.Base.{
  some, sym, ap, arith, not, ◌/◌, ◌<◌, Bool, Bytes, false, if◌then◌else◌, length, refl, true, ℕ,
  ◌∙◌, ◌≡◌,
}
use scsiswap.Bio.{buf_fill_bio, is_done, swap_bio_work_handler, Bio, BioItem, advance, bio_fill_buf}
use scsiswap.Kernel.{Kernel}

-- The status that the bio ends with tells what the core returned: 0 just for 0 and for
-- -DATA_MAY_DIRTY.
abbrev pub Tells : Status → Status → Type 0
Tells ok s = s ≡ ok
Tells may_dirty s = s ≡ ok
Tells _ s = s ≡ eio

-- The pages of a read that was done hold what the core returned.
abbrev pub Carries : Status → Bytes → Bio → Type 0
Carries ok out bio = bytes_of bio.segments ≡ out
Carries may_dirty out bio = bytes_of bio.segments ≡ out
Carries _ out bio = Unit

-- What was done for the item: nothing for want of memory, or one call of the core, that of a write
-- with the bytes of all pages, that of a read with the whole buffer.
pub data Served {E : Type 0} (k : Kernel E) (item : BioItem) (w : World E) (bio : Bio) (s : Status)
    (v : World E) : Type 0 where
  refused :
      (k.kmalloc item.size w.env).0 ≡ false → s ≡ eio → bio ≡ item.bio → Served k item w bio s v
  wrote :
      (c : Status)
      → item.bio.is_write ≡ true
      → scsi_swap_core_write k item.start_sec
          (item.size / 512)
          item.bad_sec
          (bytes_of item.bio.segments)
          (kmalloc k item.size w).1
        ≡ some (c, v)
      → Tells c s
      → Served k item w bio s v
  fetched :
      (c : Status) (out : Bytes)
      → item.bio.is_write ≡ false
      → scsi_swap_core_read k item.start_sec
          (item.size / 512)
          item.bad_sec
          (k.fresh_memory item.size w.env)
          (kmalloc k item.size w).1
        ≡ some ((c, out), v)
      → Tells c s
      → Carries c out bio
      → Served k item w bio s v

-- Both.
pub record Handled {E : Type 0} (k : Kernel E) (item : BioItem) (w : World E) (bio : Bio)
    (s : Status) (v : World E) : Type 0 where
  pub settled : Settled item w bio s v
  pub served : Served k item w bio s v

tells : (c : Status) → Tells c (if is_done c then ok else eio)
tells ok = refl
tells may_dirty = refl
tells fail = refl
tells eio = refl
tells enodev = refl

bytes_of-advance : (size : ℕ) (bio : Bio) → (advance size bio).segments ≡ bio.segments
bytes_of-advance size bio = ground arith

not_given : (b : Bool) → not b ≡ true → b ≡ false
not_given true e = cc
not_given false e = refl

module _ {E : Type 0} (k : Kernel E)
    (sized : (n : ℕ) (e : E) → length (k.fresh_memory n e) ≡ n) where
  -- A read, behind the call of the core.
  finished :
      (item : BioItem) (c : Status) (out : Bytes) (w v : World E)
      → AreMapped item.bio.segments
      → length (bytes_of item.bio.segments) ≡ length out
      → item.bio.is_write ≡ false
      → scsi_swap_core_read k item.start_sec
          (item.size / 512)
          item.bad_sec
          (k.fresh_memory item.size w.env)
          (kmalloc k item.size w).1
        ≡ some ((c, out), v)
      → Yields
          (λ (bio, s) u. Served k item w bio s u)
          (((if is_done c then deref (buf_fill_bio item.bio out) else pure item.bio) >>= λ filled.
              pure (
                advance item.size
                    (if is_done c then record filled { uptodate = true } else item.bio),
                if is_done c then ok else eio,
              ))
            v)
  finished item ok out w v mapped total reads run =
      let (filled, e, same) = buf_fill_bio_lem item.bio out mapped total in
      yield_deref (buf_fill_bio item.bio out) filled _ (λ (bio, s) u. Served k item w bio s u) v e
        (fetched ok out reads run refl
          (ap bytes_of (bytes_of-advance item.size (record filled { uptodate = true })) ∙ same))
  finished item may_dirty out w v mapped total reads run =
      let (filled, e, same) = buf_fill_bio_lem item.bio out mapped total in
      yield_deref (buf_fill_bio item.bio out) filled _ (λ (bio, s) u. Served k item w bio s u) v e
        (fetched may_dirty out reads run refl
          (ap bytes_of (bytes_of-advance item.size (record filled { uptodate = true })) ∙ same))
  finished item fail out w v mapped total reads run = fetched fail out reads run refl tt
  finished item eio out w v mapped total reads run = fetched eio out reads run refl tt
  finished item enodev out w v mapped total reads run = fetched enodev out reads run refl tt

  handler-Served :
      (item : BioItem) (w : World E)
      → AreMapped item.bio.segments
      → length (bytes_of item.bio.segments) ≡ item.size
      → w.core.user < 4294967296
      → IsReady w
      → IsSound w
      → Yields (λ (bio, s) v. Served k item w bio s v) (swap_bio_work_handler k item w)
  unfolding swap_bio_work_handler
  handler-Served item w mapped total small ready sound =
      let num = item.size / 512 in
      let buf = k.fresh_memory item.size w.env in
      let bytes = bytes_of item.bio.segments in
      let (got, u) = kmalloc k item.size w in
      let r = IsReady-after (env-IsCalm k w (k.kmalloc item.size w.env).1) ready in
      yield_test (not got) _ _ (λ b. not got ≡ b) Q u refl
        (λ none_left. refused (not_given got none_left) refl refl)
        (λ _.
          yield_test item.bio.is_write _ _ (λ b. item.bio.is_write ≡ b) Q u refl
            (λ writes.
              yield_deref (bio_fill_buf item.bio buf) bytes _ Q u
                (bio_fill_buf_lem item.bio buf mapped (total ∙ sym (sized item.size w.env)))
                (yield_seen (scsi_swap_core_write k item.start_sec num item.bad_sec bytes) _
                  (λ s v. IsReady v × (v.core.user ≡ u.core.user) × IsSoundIf s v) Q u
                  (scsi_swap_core_write-returns k item.start_sec num item.bad_sec bytes u
                    (omega (arith, total)) small r sound)
                  (λ c v run _. wrote c writes run (tells c))))
            (λ reads.
              yield_seen (scsi_swap_core_read k item.start_sec num item.bad_sec buf) _
                (λ (c, out) v. Left buf (c, out) v × IsSound v × (v.core.user ≡ u.core.user)) Q u
                (scsi_swap_core_read-returns k item.start_sec num item.bad_sec buf u
                  (omega (arith, sized item.size w.env)) small r sound)
                (λ (c, out) v run (left, _, _).
                  finished item c out w v mapped (total ∙ sym (left.1 ∙ sized item.size w.env))
                    reads run)))
    where
      Q : Bio × Status → World E → Type 0
      Q (bio, s) v = Served k item w bio s v

  pub swap_bio_work_handler-Handled :
      (item : BioItem) (w : World E)
      → AreMapped item.bio.segments
      → length (bytes_of item.bio.segments) ≡ item.size
      → w.core.user < 4294967296
      → IsReady w
      → IsSound w
      → Yields (λ (bio, s) v. Handled k item w bio s v) (swap_bio_work_handler k item w)
  swap_bio_work_handler-Handled item w mapped total small ready sound =
      yield_weaken (swap_bio_work_handler k item w) _ _
        (both (swap_bio_work_handler k item w) (λ (bio, s) v. Served k item w bio s v)
          (λ (bio, s) v. Settled item w bio s v)
          (handler-Served item w mapped total small ready sound)
          (swap_bio_work_handler-Settled k sized item w small ready sound))
        (λ (bio, s) v (served, settled). record { settled = settled; served = served })
