-- ===== src/Bio/Settled.antt =====
-- swap.c: what the worker's handler leaves, whatever pages the bio has.
use scsiswap.Core.Transfer.Write.{scsi_swap_core_write}
use scsiswap.Core.Transfer.Total.{scsi_swap_core_read-returns}
use scsiswap.Core.Transfer.TotalNew.{Left}
use scsiswap.Core.Transfer.TotalWrite.{scsi_swap_core_write-returns}
use scsiswap.Core.Transfer.Read.{scsi_swap_core_read}
use scsiswap.Io.Effects.{env-IsCalm}
use scsiswap.Core.Transfer.Rounds.{IsSoundIf}
use scsiswap.Core.Alloc.{kmalloc}
use scsiswap.Yields.{ensure}
use scsiswap.Ensures.{Ensures, if_rule, test_rule, deref_rule, bind_rule}
use mathlib.Core.Path.{subst}
use scsiswap.Core.Invariant.{IsSound}
use scsiswap.State.{deref, pure, ◌>>=◌, enodev, fail, may_dirty, Status, World, eio, ok}
use scsiswap.Core.Ready.{IsReady-after, IsReady}
use scsiswap.Base.{
  Option, none, some, leb, sym, arith, not, ◌/◌, ◌<◌, Bool, Bytes, List, [], false, if◌then◌else◌,
  length, length-overwrite, overwrite, refl, true, ℕ, ◌+◌, ◌∷◌, ◌≡◌,
}
use scsiswap.Bio.{
  copies_page, place_behind, page_to_buf, buf_fill_bio, is_done, swap_bio_work_handler, Bio,
  BioItem, Segment, advance, bio_fill_buf, gather_segments,
}
use scsiswap.Kernel.{Kernel}

-- What the bio says behind the handler. With 0 it is up to date, and is advanced by the item's
-- size; with -EIO its pages and its flag are untouched; nothing else is reported.
abbrev pub Reported : BioItem → Bio → Status → Type 0
Reported item bio ok =
    (bio.uptodate ≡ true)
    × (bio.bi_sector ≡ (advance item.size item.bio).bi_sector)
    × (bio.bi_size ≡ (advance item.size item.bio).bi_size)
Reported item bio eio = (bio.uptodate ≡ item.bio.uptodate) × (bio.segments ≡ item.bio.segments)
Reported item bio _ = ⊥

-- The swaps are sound behind a read, and behind a write that was done.
abbrev pub IsSoundBehind : {E : Type 0} → Bool → Status → World E → Type 0
IsSoundBehind true ok v = IsSound v
IsSoundBehind true _ v = Unit
IsSoundBehind false _ v = IsSound v

-- What any call of the handler leaves that does not fault.
pub record Settled {E : Type 0} (item : BioItem) (w : World E) (bio : Bio) (s : Status)
    (v : World E) : Type 0 where
  pub reported : Reported item bio s
  pub ready : IsReady v
  pub user : v.core.user ≡ w.core.user
  pub sound : IsSoundBehind item.bio.is_write s v

-- The worker's buffer keeps its size.
abbrev Sized : ℕ → Option Bytes → Type 0
Sized n none = Unit
Sized n (some buf) = length buf ≡ n

page_to_buf-Sized :
    (buf : Bytes) (pos : ℕ) (s : Segment) → Sized (length buf) (page_to_buf buf pos s)
unfolding page_to_buf
page_to_buf-Sized buf pos s =
    by_test (copies_page buf pos s) (leb (pos + length s.content) (length buf))
  where
    by_test :
        (b c : Bool)
        → Sized
            (length buf)
            (if b then (if c then some (overwrite buf pos s.content) else none) else some buf)
    by_test true true = length-overwrite buf pos s.content
    by_test true false = tt
    by_test false c = refl

gather_segments-Sized :
    (buf : Bytes) (pos : ℕ) (segments : List Segment)
    → Sized (length buf) (gather_segments buf pos segments)
unfolding gather_segments
gather_segments-Sized buf pos [] = refl
gather_segments-Sized buf pos (s ∷ segments) =
    by_page (page_to_buf buf pos s) (page_to_buf-Sized buf pos s)
      (λ b. gather_segments-Sized b (place_behind buf pos s) segments)
  where
    by_page :
        (o : Option Bytes)
        → Sized (length buf) o
        → ((b : Bytes) → Sized (length b) (gather_segments b (place_behind buf pos s) segments))
        → Sized (length buf) (
            let r : Option Bytes = elim o [
              | none ↦ none
              | some b ↦ gather_segments b (place_behind buf pos s) segments
            ] in
            r)
    by_page none h ih = tt
    by_page (some b) h ih =
        subst (λ n. Sized n (gather_segments b (place_behind buf pos s) segments)) h (ih b)

length-bio_fill_buf :
    (bio : Bio) (fresh buf : Bytes) → bio_fill_buf bio fresh ≡ some buf → length buf ≡ length fresh
unfolding bio_fill_buf
length-bio_fill_buf bio fresh buf e =
    subst (Sized (length fresh)) e (gather_segments-Sized fresh 0 bio.segments)

-- The place of a bio is the same with other pages.
same_place :
    (bio : Bio) (buf : Bytes) (filled : Bio)
    → buf_fill_bio bio buf ≡ some filled
    → (filled.bi_sector ≡ bio.bi_sector) × (filled.bi_size ≡ bio.bi_size)
unfolding buf_fill_bio
same_place bio buf filled e = ground arith

-- The end of the handler: `filled` is the bio with its pages filled.
settled :
    (item : BioItem) (filled : Bio) (s : Status)
    → filled.bi_sector ≡ item.bio.bi_sector
    → filled.bi_size ≡ item.bio.bi_size
    → Reported item
        (advance item.size (if is_done s then record filled { uptodate = true } else item.bio))
        (if is_done s then ok else eio)
settled item filled ok at size = ground arith
settled item filled may_dirty at size = ground arith
settled item filled fail at size = ground arith
settled item filled eio at size = ground arith
settled item filled enodev at size = ground arith

sound_behind :
    {E : Type 0} (s : Status) (v : World E)
    → IsSoundIf s v
    → IsSoundBehind true (if is_done s then ok else eio) v
sound_behind ok v h = h
sound_behind may_dirty v h = h
sound_behind fail v h = tt
sound_behind eio v h = tt
sound_behind enodev v h = tt

module _ {E : Type 0} (k : Kernel E)
    (sized : (n : ℕ) (e : E) → length (k.fresh_memory n e) ≡ n) where
  -- The end of a read: the pages are filled if it was done.
  fill_rule :
      (item : BioItem) (c : Status) (out : Bytes) (Q : Bio × Status → World E → Type 0)
      (v : World E)
      → ((filled : Bio)
          → (filled.bi_sector ≡ item.bio.bi_sector) × (filled.bi_size ≡ item.bio.bi_size)
          → Q
              (
                advance item.size
                    (if is_done c then record filled { uptodate = true } else item.bio),
                if is_done c then ok else eio,
              )
              v)
      → Ensures Q (
          ((if is_done c then deref (buf_fill_bio item.bio out) else pure item.bio) >>= λ filled.
          pure (
            advance item.size (if is_done c then record filled { uptodate = true } else item.bio),
            if is_done c then ok else eio,
          ))
            v)
  fill_rule item c out Q v h =
      bind_rule (if is_done c then deref (buf_fill_bio item.bio out) else pure item.bio) _
        (λ filled u.
          (filled.bi_sector ≡ item.bio.bi_sector) × (filled.bi_size ≡ item.bio.bi_size) × (u ≡ v))
        Q v
        (if_rule (is_done c) (deref (buf_fill_bio item.bio out)) (pure item.bio) _ v
          (by_fill (buf_fill_bio item.bio out) refl) (refl, refl, refl))
        (λ filled u (at, size, same).
          subst
            (Q (
              advance item.size (if is_done c then record filled { uptodate = true } else item.bio),
              if is_done c then ok else eio,
            ))
            (sym same) (h filled (at, size)))
    where
      by_fill :
          (o : Option Bio)
          → buf_fill_bio item.bio out ≡ o
          → Ensures
              (λ filled u.
                (filled.bi_sector ≡ item.bio.bi_sector)
                × (filled.bi_size ≡ item.bio.bi_size)
                × (u ≡ v))
              (deref o v)
      by_fill none e = tt
      by_fill (some filled) e =
          let (at, size) = same_place item.bio out filled e in (at, size, refl)

  -- The handler, for an item with any pages.
  pub swap_bio_work_handler-Settled :
      (item : BioItem) (w : World E)
      → w.core.user < 4294967296
      → IsReady w
      → IsSound w
      → Ensures (λ (bio, s) v. Settled item w bio s v) (swap_bio_work_handler k item w)
  unfolding swap_bio_work_handler
  swap_bio_work_handler-Settled item w small ready sound =
      let num = item.size / 512 in
      let buf = k.fresh_memory item.size w.env in
      let (got, u) = kmalloc k item.size w in
      let r = IsReady-after (env-IsCalm k w (k.kmalloc item.size w.env).1) ready in
      if_rule (not got) _ _ Q u
        (record {
          reported = (refl, refl);
          ready = r;
          user = refl;
          sound = unserved item.bio.is_write u sound;
        })
        (test_rule item.bio.is_write _ _ (λ b. item.bio.is_write ≡ b) Q u refl
          (λ writes. deref_rule (bio_fill_buf item.bio buf) _ Q u (λ bytes filled.
            bind_rule (scsi_swap_core_write k item.start_sec num item.bad_sec bytes) _
              (λ s v. IsReady v × (v.core.user ≡ u.core.user) × IsSoundIf s v) Q u
              (ensure (scsi_swap_core_write k item.start_sec num item.bad_sec bytes u) _ (
                scsi_swap_core_write-returns k item.start_sec num item.bad_sec bytes u
                  (omega
                    (arith, length-bio_fill_buf item.bio buf bytes filled, sized item.size w.env))
                  small r sound))
              (λ s v (r', same, kept). record {
                reported = settled item item.bio s refl refl;
                ready = r';
                user = same;
                sound = rw writes (sound_behind s v kept);
              })))
          (λ reads.
            bind_rule (scsi_swap_core_read k item.start_sec num item.bad_sec buf) _
              (λ (s, out) v. Left buf (s, out) v × IsSound v × (v.core.user ≡ u.core.user)) Q u
              (ensure (scsi_swap_core_read k item.start_sec num item.bad_sec buf u) _ (
                scsi_swap_core_read-returns k item.start_sec num item.bad_sec buf u
                  (omega (arith, sized item.size w.env)) small r sound))
              (λ (s, out) v (left, kept, same). fill_rule item s out Q v (λ filled (at, size).
                record {
                  reported = settled item filled s at size;
                  ready = left.0;
                  user = same;
                  sound = rw reads kept;
                }))))
    where
      Q : Bio × Status → World E → Type 0
      Q (bio, s) v = Settled item w bio s v

      unserved : (b : Bool) (u : World E) → IsSound u → IsSoundBehind b eio u
      unserved true u h = tt
      unserved false u h = h
