-- ===== src/Io/Outcomes.antt =====
-- utils.c: which replies of a command count as a success, and which as the death of the device.
use native.Mathlib.Decide.{ℕ_discrete}
use scsiswap.Layout.{sector_size}
use scsiswap.State.{Status, World, fail, mark_dead, ok}
use scsiswap.Io.{execute, finish, hd_write_sector, rw_cdb, driver_byte, filter_result, host_byte}
use scsiswap.Base.{
  Bytes, false, inl, inr, ltb, some, u32, ℕ, ◌*◌, ◌≢◌, ◌≤◌, arith, ◌%◌, ◌^◌, ◌≡◌, ◌⊎◌,
}
use scsiswap.Kernel.{
  Command, to_device, write_10, Reply, did_bad_target, did_no_connect, driver_sense,
  sam_stat_check_condition, Kernel,
}

-- Without an error, with sense data alone, or with a check condition whose sense data is all zero.
abbrev pub IsClean : Reply → Type 0
IsClean r =
    (r.result ≡ 0)
    ⊎ ((driver_byte r.result ≡ driver_sense)
        × ((r.result % 2 ^ 24 ≡ 0)
            ⊎ ((r.result % 2 ^ 24 ≡ sam_stat_check_condition)
                × (r.sense_key ≡ 0)
                × (r.asc ≡ 0)
                × (r.ascq ≡ 0))))

-- The host says that the device is not there.
abbrev pub IsGone : Reply → Type 0
IsGone r = (host_byte r.result ≡ did_no_connect) ⊎ (host_byte r.result ≡ did_bad_target)

filter-IsClean : (r : Reply) → filter_result r ≡ 0 → IsClean r
unfolding filter_result
filter-IsClean r h = ground arith

IsClean-filter : (r : Reply) → IsClean r → filter_result r ≡ 0
unfolding filter_result
IsClean-filter r h = ground arith

filter-host : (r : Reply) → host_byte (filter_result r) ≡ host_byte r.result
unfolding filter_result
filter-host r = ground arith

-- The three ways in which a command that was sent ends, each with the replies that lead to it.
abbrev pub Verdict : {E : Type 0} → Reply → World E → Status × World E → Type 0
Verdict r w out =
    (IsClean r × (out ≡ (ok, w)))
    ⊎ (((¬ IsClean r) × IsGone r × (out ≡ (fail, mark_dead w)))
        ⊎ ((¬ IsClean r) × (¬ IsGone r) × (out ≡ (fail, w))))

module _ {E : Type 0} (r : Reply) (w : World E) where
  finish_clean : filter_result r ≡ 0 → finish r w ≡ (ok, w)
  unfolding finish
  finish_clean h = ground arith

  finish_gone : filter_result r ≢ 0 → IsGone r → finish r w ≡ (fail, mark_dead w)
  unfolding finish
  finish_gone h g = ground (arith, h, g, filter-host r)

  finish_failed : filter_result r ≢ 0 → ¬ IsGone r → finish r w ≡ (fail, w)
  unfolding finish
  finish_failed h g = ground (arith, h, g, filter-host r)

  finish-Verdict : Verdict r w (finish r w)
  finish-Verdict = elim (ℕ_discrete (filter_result r) 0) [
    | yes clean ↦ inl (filter-IsClean r clean, finish_clean clean)
    | no dirty ↦ elim (dec_gone) [
      | inl gone ↦ inr (inl ((λ c. dirty (IsClean-filter r c)), gone, finish_gone dirty gone))
      | inr there ↦ inr (inr ((λ c. dirty (IsClean-filter r c)), there, finish_failed dirty there))
    ]
  ]
    where
      dec_gone : IsGone r ⊎ (¬ IsGone r)
      dec_gone = elim (ℕ_discrete (host_byte r.result) did_no_connect) [
        | yes a ↦ inl (inl a)
        | no a ↦ elim (ℕ_discrete (host_byte r.result) did_bad_target) [
          | yes b ↦ inl (inr b)
          | no b ↦ inr (λ g. elim g [ inl x ↦ a x | inr y ↦ b y ])
        ]
      ]

-- The command of `hd_write_sector`.
abbrev pub write_command : ℕ → ℕ → Bytes → ℕ → ℕ → ℕ → Command
write_command sector num buf len timeout retries = record {
  cdb = rw_cdb write_10 sector num;
  direction = to_device;
  buf = buf;
  len = len;
  timeout = timeout;
  retries = retries;
}

module _ {E : Type 0} (k : Kernel E) where
  -- `hd_write_sector` of a buffer that is long enough sends one command, and its reply decides: a
  -- clean one (no error, sense data alone, or a check condition with empty sense data) is status 0;
  -- one that is not clean and says that the host has no connection or a bad target is -1, and the
  -- device counts as dead once more; any other is -1, and nothing else changes.
  pub hd_write_sector-Verdict :
      (sector num : ℕ) (buf : Bytes) (len timeout retries : ℕ) (w : World E)
      → u32 (sector_size * num) ≤ u32 len
      → (let (r, e) = k.scsi_execute (write_command sector num buf len timeout retries) w.env in
          Verdict r
            (record w { env = e })
            (hd_write_sector k sector num (some buf) len timeout retries w))
  unfolding hd_write_sector execute
  hd_write_sector-Verdict sector num buf len timeout retries w room =
      rw enough (
        finish-Verdict (k.scsi_execute (write_command sector num buf len timeout retries) w.env).0
          _)
    where
      enough : ltb (u32 len) (u32 (sector_size * num)) ≡ false
      enough = ground (arith, room)
