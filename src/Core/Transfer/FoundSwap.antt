-- ===== src/Core/Transfer/FoundSwap.antt =====
-- core.c: behind a write through a swap of the list the swap is found, with the bytes in its buffer.
use scsiswap.Io.{finish, hd_write_sector, hd_write_sector_retry}
use scsiswap.Core.Create.{store, swap_recreate}
use scsiswap.Core.Flush.Tables.{flush_swap_info_data-IsCalm}
use scsiswap.Core.Transfer.Copies.{IsPiece, write_lem, written}
use scsiswap.Layout.{sector_size, swap_block_size}
use scsiswap.State.{Info, Status, World, fail, is_ok, may_dirty, ok}
use scsiswap.Core.Flush.Renew.{find_info-set}
use mathlib.Core.Path.{subst}
use scsiswap.Ensures.{Ensures, bind_rule, if_rule, test_rule}
use scsiswap.Core.Transfer.{Outcome, proceed, swap_write, swap_write_info}
use scsiswap.Core.Flush.{find_info, flush_swap_info_data}
use scsiswap.Base.{
  Bool, Bytes, Option, arith, false, if◌then◌else◌, length, none, refl, some, sym, true, ℕ, ◌*◌,
  ◌∙◌, ◌≡◌,
}
use scsiswap.Kernel.{Reply, Kernel}

-- A write that succeeds is no death of the device.
finish-alive :
    {E : Type 0} (r : Reply) (w : World E)
    → is_ok (finish r w).0 ≡ true
    → (finish r w).1.core.device_dead ≡ w.core.device_dead
unfolding finish
finish-alive r w h = ground arith

module _ {E : Type 0} (k : Kernel E) where
  write-alive :
      (sector num : ℕ) (buf : Option Bytes) (len timeout retries : ℕ) (w : World E)
      → is_ok (hd_write_sector k sector num buf len timeout retries w).0 ≡ true
      → (hd_write_sector k sector num buf len timeout retries w).1.core.device_dead
        ≡ w.core.device_dead
  unfolding hd_write_sector finish
  write-alive sector num none len timeout retries w h = refl
  write-alive sector num (some buf) len timeout retries w h = ground arith

  data-alive :
      (info : Info) (w : World E)
      → is_ok (flush_swap_info_data k info w).0 ≡ true
      → (flush_swap_info_data k info w).1.core.device_dead ≡ w.core.device_dead
  unfolding flush_swap_info_data hd_write_sector_retry
  data-alive info w h = write-alive _ _ info.buf _ 10 5 w h

-- Behind a success the swap at place `n` is found for the block, and the device is alive.
abbrev pub Found : {E : Type 0} → ℕ → ℕ → Info → Status → World E → Type 0
Found sector n info ok v =
    (find_info v.core.info_list sector ≡ some (n, info)) × (v.core.device_dead ≡ 0)
Found sector n info _ v = Unit

abbrev pub FoundFirst : {E : Type 0} → ℕ → ℕ → Info → Outcome → World E → Type 0
FoundFirst sector n info proceed v = Found sector n info ok v
FoundFirst sector n info _ v = Unit

module _ {E : Type 0} (sector n : ℕ) (info : Info) where
  unfound :
      (s : Status) (i : Info) (v : World E) (b : Bool)
      → Found sector n info (if b then may_dirty else fail) v
  unfound s i v true = tt
  unfound s i v false = tt

module _ {E : Type 0} (k : Kernel E) where
  passed : (b : Bool) → is_ok (if b then ok else fail) ≡ true → b ≡ true
  passed true h = refl
  passed false h = h

  anything : {A : Type 0} (o : Option (A × World E)) → Ensures (λ _ _. Unit) o
  anything none = tt
  anything (some a) = tt

  -- The first write into the block has worked, or the status is another than 0.
  pub swap_write-Found :
      (sector n : ℕ) (info : Info) (buffer bytes : Bytes) (start count : ℕ) (w : World E)
      → find_info w.core.info_list sector ≡ some (n, info)
      → w.core.device_dead ≡ 0
      → info.buf ≡ some buffer
      → length buffer ≡ swap_block_size
      → length bytes ≡ count * sector_size
      → IsPiece start count
      → Ensures
          (λ (s, _) v. Found sector n (written k info buffer start bytes) s v)
          (swap_write k (some n) info start count bytes (count * sector_size) w)
  unfolding swap_write store
  swap_write-Found sector n info buffer bytes start count w found alive held full sized at =
      let info' = written k info buffer start bytes in
      let w0 = store (some n) info' w in
      let (s, v) = flush_swap_info_data k info' w0 in
      let result = write_lem k (some n) info buffer bytes start count w held full sized at in
      bind_rule (swap_write_info k (some n) info start count bytes (count * sector_size)) _
        (λ (t, i) u. (t ≡ (if is_ok s then ok else fail)) × (i ≡ info') × (u ≡ v)) Q w
        (subst (Ensures (λ (t, i) u. (t ≡ (if is_ok s then ok else fail)) × (i ≡ info') × (u ≡ v)))
          (sym result) (refl, refl, refl))
        (λ (t, i) u (same_status, same_info, same_world).
          test_rule (is_ok t) _ _ (λ b. is_ok t ≡ b) Q u refl
            (λ done.
              let is_done : is_ok s ≡ true =
                passed (is_ok s) (subst (λ x. is_ok x ≡ true) same_status done) in
              subst (λ x. Found sector n info' ok x) (sym same_world)
                (
                  rw (flush_swap_info_data-IsCalm k info' w0).infos
                      (find_info-set w.core.info_list sector n info info' found refl),
                  data-alive k info' w0 is_done ∙ alive,
                ))
            (λ failed.
              bind_rule (swap_recreate k (some n) i) _ (λ _ _. Unit) Q u (anything _)
                (λ (s', i') x _.
                  if_rule (is_ok s') _ _ Q x
                    (bind_rule
                      (swap_write_info k (some n) i' start count bytes (count * sector_size)) _
                      (λ _ _. Unit) Q x (anything _)
                      (λ (s'', i'') y _. unfound sector n info' s'' i'' y (is_ok s'')))
                    tt)))
    where
      Q : Status × Info → World E → Type 0
      Q (s, _) v = Found sector n (written k info buffer start bytes) s v
