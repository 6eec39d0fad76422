-- ===== src/Core/Header.antt =====
-- core.c: finding the swap head on disk, and creating one.
pub mod Reopen
use scsiswap.Base.{
  ℕ, zero, suc, ◌+◌, Bool, true, false, Option, none, some, [], ◌∷◌, ◌++◌, Bytes, ◌==◌, ◌&&◌,
  if◌then◌else◌, replicate, overwrite,
}
use scsiswap.Kernel.{Kernel}
use scsiswap.Layout.{
  sector_size, sector_num_per_swap_block, swap_head_backup_offset, max_swap_head_block_num,
  swap_head_status_len,
}
use scsiswap.Format.{Head, head_bytes, head_of, zero_head}
use scsiswap.State.{World, Status, ok, fail, is_ok, mark_dead, on_core}
use scsiswap.Io.{hd_read_sector_retry, hd_write_sector_retry}
use scsiswap.Core.Flush.{head_checksum, flush_swap_head}

-- "DHSWAP", "0001", "valid" and "invalid", without their nulls.
abbrev pub swap_head_string : Bytes
swap_head_string = b'D' ∷ b'H' ∷ b'S' ∷ b'W' ∷ b'A' ∷ b'P' ∷ []

abbrev pub swap_version : Bytes
swap_version = b'0' ∷ b'0' ∷ b'0' ∷ b'1' ∷ []

abbrev pub valid_string : Bytes
valid_string = b'v' ∷ b'a' ∷ b'l' ∷ b'i' ∷ b'd' ∷ []

abbrev pub invalid_string : Bytes
invalid_string = b'i' ∷ b'n' ∷ b'v' ∷ b'a' ∷ b'l' ∷ b'i' ∷ b'd' ∷ []

-- `strncmp(s, t, length t) == 0`, where `t` holds no null.
unfoldable pub starts_as : Bytes → Bytes → Bool
starts_as s [] = true
starts_as [] (c ∷ t) = false
starts_as (x ∷ s) (c ∷ t) = x == c && starts_as s t

unfoldable pub swap_head_valid : Head → Bool
unfolding starts_as
swap_head_valid h = starts_as h.status valid_string

unfoldable pub swap_head_invalid : Head → Bool
unfolding starts_as
swap_head_invalid h = starts_as h.status invalid_string

unfoldable pub swap_head_exist : Head → Bool
unfolding starts_as
swap_head_exist h = starts_as h.head_string swap_head_string

-- `swap_head_state_e`, without `UNKNOWN`
pub data HeadState : Type 0 where
  head_ok head_empty head_broken head_invalid head_fail : HeadState

-- The tests of `swap_get_head_state` on a head that was read.
unfoldable pub classify : Head → HeadState
unfolding swap_head_exist swap_head_invalid swap_head_valid
classify h =
    if swap_head_exist h
    then (if swap_head_invalid h
        then head_invalid
        else (if swap_head_valid h
            then (if head_checksum h == h.checksum then head_ok else head_broken)
            else head_broken))
    else head_empty

module _ {E : Type 0} (k : Kernel E) where
  -- The state, and what the head's memory holds afterwards.
  unfoldable pub swap_get_head_state : ℕ → Head → World E → HeadState × Head × World E
  unfolding classify
  swap_get_head_state sector h w =
      let ((s, buf), w') = hd_read_sector_retry k sector 1 (some (head_bytes h)) sector_size w in
      let h' = head_of buf in (if is_ok s then classify h' else head_fail, h', w')

  -- `swap_check_block_by_sector`, the loop: the index of the first sector that cannot be written.
  unfoldable pub check_sectors : ℕ → ℕ → ℕ → World E → Option ℕ × World E
  check_sectors zero i sec_start w = (none, w)
  check_sectors (suc n) i sec_start w =
      let (s, w') =
        hd_write_sector_retry k (sec_start + i) 1 (some (replicate sector_size 0)) sector_size w in
      elim (is_ok s) [ true ↦ check_sectors n (i + 1) sec_start w' | false ↦ (some i, w') ]

  unfoldable pub swap_check_block_by_sector : ℕ → World E → Option ℕ × World E
  unfolding check_sectors
  swap_check_block_by_sector sec_start = check_sectors sector_num_per_swap_block 0 sec_start

  abbrev on_head : (Head → Head) → World E → World E
  on_head f w = on_core (λ c. record c { head = f c.head }) w

  -- `_swap_create_new_head`; `strncpy` fills the 16 bytes with nulls.
  unfoldable pub write_new_head : World E → Status × World E
  write_new_head w = flush_swap_head k (
      on_head
        (λ h. record h { head_string = swap_head_string ++ replicate 10 0; version = swap_version })
        w)

  -- The loop of `swap_create_new_head`: whether a block was found before the rounds ran out.
  unfoldable pub create_head_loop : ℕ → World E → Bool × World E
  unfolding swap_check_block_by_sector write_new_head
  create_head_loop zero w = (false, w)
  create_head_loop (suc n) w =
      let (bad, w1) = swap_check_block_by_sector w.core.sector_head w in
      elim bad [
        | none ↦ (true, on_head (λ h. record h { status = overwrite h.status 0 valid_string }) w1)
        | some bad_index ↦
            (let marked =
                (write_new_head (
                  on_head (λ h. record h { status = overwrite h.status 0 invalid_string }) w1)).1 in
              let w2 = if bad_index == 0 then w1 else marked in
              create_head_loop n (
                on_core (λ c. record c { sector_head = c.sector_head + sector_num_per_swap_block })
                  (on_head (λ h. record h { status = replicate swap_head_status_len 0 }) w2)))
      ]

  unfoldable pub swap_create_new_head : World E → Status × World E
  unfolding create_head_loop write_new_head
  swap_create_new_head w =
      let (found, w') = create_head_loop max_swap_head_block_num (on_head (λ h. zero_head) w) in
      if found then write_new_head w' else (fail, w')

  -- What `init_swap_head` does with the two states of a block that it does not skip.
  unfoldable pub settle_head : HeadState → HeadState → Head → ℕ → World E → Status × World E
  unfolding swap_create_new_head
  settle_head head_ok head_ok back sec_start w =
      (ok, on_core (λ c. record c { sector_head = sec_start }) w)
  settle_head head_ok _ back sec_start w =
      let (s, w') =
        hd_write_sector_retry k (sec_start + swap_head_backup_offset) 1
          (some (head_bytes w.core.head)) sector_size w in
      (ok, on_core (λ c. record c { sector_head = sec_start }) w')
  settle_head _ head_ok back sec_start w =
      let w0 = on_head (λ h. back) w in
      let (s, w') = hd_write_sector_retry k sec_start 1 (some (head_bytes back)) sector_size w0 in
      (ok, on_core (λ c. record c { sector_head = sec_start }) w')
  settle_head _ _ back sec_start w =
      let (s, w') = swap_create_new_head w in if is_ok s then (ok, w') else (fail, mark_dead w')

  -- Whether the block is passed over: a bad sector in it, or both copies unreadable.
  abbrev pub is_invalid : HeadState → Bool
  is_invalid head_invalid = true
  is_invalid _ = false

  abbrev pub is_skipped : HeadState → HeadState → Bool
  is_skipped head_fail head_fail = true
  is_skipped _ _ = false

  -- The loop of `init_swap_head`. The backup of a block that is marked invalid is not read.
  unfoldable pub init_head_loop : ℕ → ℕ → Head → World E → Status × World E
  unfolding swap_get_head_state settle_head
  init_head_loop zero sec_start back w = (fail, mark_dead w)
  init_head_loop (suc n) sec_start back w =
      let (state, h, w1) = swap_get_head_state sec_start w.core.head w in
      let w2 = on_head (λ _. h) w1 in
      let (state_back, back', w3) =
        swap_get_head_state (sec_start + swap_head_backup_offset) back w2 in
      elim (is_invalid state) [
        | true ↦ init_head_loop n (sec_start + sector_num_per_swap_block) back w2
        | false ↦ elim (is_skipped state state_back) [
          | true ↦ init_head_loop n (sec_start + sector_num_per_swap_block) back' w3
          | false ↦ settle_head state state_back back' sec_start w3
        ]
      ]

  unfoldable pub init_swap_head : ℕ → World E → Status × World E
  unfolding init_head_loop
  init_swap_head start = init_head_loop max_swap_head_block_num start zero_head
