-- ===== src/Tests/Disks.antt =====
-- A disk in memory, which is a working disk.
use scsiswap.Io.{rw_cdb}
use scsiswap.Scmd.RoundTrip.{sector_from_scmd-read, sector_from_scmd-write}
use scsiswap.Tests.Worlds.{search, search-IsSearched}
use scsiswap.Disk.{Disk, put, sectors}
use scsiswap.Base.{
  ==_iff, Bool-cases, if◌then◌else◌, inl, inr, length, length-replicate, ◌==◌, Bytes, [], ap, arith,
  false, refl, replicate, true, ℕ, ◌%◌, ◌<◌, ◌^◌, ◌∙◌, ◌≡◌,
}
use scsiswap.Scmd.{
  Action, read_action, scmd_get_action, sector_from_scmd, unknown_action, write_action,
}
use mathlib.Core.Path.{fun_ext}
use scsiswap.Kernel.{Reply, read_10, write_10, Kernel}

abbrev answer : Bytes → Reply
answer buf = record { result = 0; sense_valid = false; sense_key = 0; asc = 0; ascq = 0; buf = buf }

-- The sectors of a memory: those of 512 bytes as they are, the others zero.
pub whole : (ℕ → Bytes) → ℕ → Bytes
whole e sector = if length (e sector) == 512 then e sector else replicate 512 0

pub whole_sized : (e : ℕ → Bytes) (sector : ℕ) → length (e sector) ≡ 512 → whole e sector ≡ e sector
unfolding whole
whole_sized e sector sized = rw ((==_iff (length (e sector)) 512).1 sized) refl

length-whole : (e : ℕ → Bytes) (sector : ℕ) → length (whole e sector) ≡ 512
unfolding whole
length-whole e sector = elim (Bool-cases (length (e sector) == 512)) [
  | inl full ↦ rw full ((==_iff (length (e sector)) 512).0 full)
  | inr other ↦ rw other (length-replicate 512 0)
]

whole-put :
    (e : ℕ → Bytes) (sector : ℕ) (buf : Bytes)
    → length buf ≡ 512
    → whole (put e sector buf) ≡ put (whole e) sector buf
unfolding whole put
whole-put e sector buf sized = fun_ext λ x. elim (Bool-cases (x == sector)) [
  | inl here_now ↦ rw (here_now, (==_iff (length buf) 512).1 sized) refl
  | inr elsewhere ↦ rw elsewhere refl
]

-- Reads give the sectors that are asked for, writes store one sector; other commands do nothing.
abbrev obey : Action → ℕ × ℕ → Bytes → (ℕ → Bytes) → Reply × (ℕ → Bytes)
obey read_action (sector, n) buf e = (answer (sectors (whole e) sector n), e)
obey write_action (sector, n) buf e = (answer buf, put e sector buf)
obey unknown_action p buf e = (answer buf, e)

abbrev pub memory_disk : Kernel (ℕ → Bytes)
memory_disk = record {
  scsi_execute = λ c e. obey (scmd_get_action c.cdb) (sector_from_scmd c.cdb) c.buf e;
  kmalloc = λ n e. (true, e);
  fresh_memory = λ n e. replicate n 7;
  getnstimeofday = λ e. (1385000000, e);
  scsi_device_online = λ e. true;
  format_line = λ ns. ns;
  sscanf = λ page format. [];
  msleep = λ n e. (0, e);
  find_first_zero_bit = search;
  searches = search-IsSearched;
}

module _ (sector n : ℕ) (buf : Bytes) (e : ℕ → Bytes) (small : sector < 4294967296)
    (few : n < 65536) where
  place : ◌≡◌ {A = ℕ × ℕ} (sector % 2 ^ 32, n % 2 ^ 16) (sector, n)
  place =
      ap (λ x. (x, n % 2 ^ 16)) {x = sector % 2 ^ 32} {y = sector} (omega arith)
      ∙ ap (λ x. (sector, x)) {x = n % 2 ^ 16} {y = n} (omega arith)

  obey-read :
      obey
        (scmd_get_action (rw_cdb read_10 sector n))
        (sector_from_scmd (rw_cdb read_10 sector n))
        buf
        e
      ≡ (answer (sectors (whole e) sector n), e)
  obey-read =
      let (cdb, action) = sector_from_scmd-read sector n in
      ap (λ a. obey a (sector_from_scmd (rw_cdb read_10 sector n)) buf e) action
      ∙ ap (λ p. obey read_action p buf e) (cdb ∙ place)

  obey-write :
      obey
        (scmd_get_action (rw_cdb write_10 sector n))
        (sector_from_scmd (rw_cdb write_10 sector n))
        buf
        e
      ≡ (answer buf, put e sector buf)
  obey-write =
      let (cdb, action) = sector_from_scmd-write sector n in
      ap (λ a. obey a (sector_from_scmd (rw_cdb write_10 sector n)) buf e) action
      ∙ ap (λ p. obey write_action p buf e) (cdb ∙ place)

pub disk_in_memory : Disk memory_disk
disk_in_memory = record {
  content = whole;
  size = length-whole;
  read = λ sector n len timeout retries buf e small few sized filled.
      (let run = obey-read sector n buf e (omega (arith, small)) few in
        (ap (λ r. r.0.result) run, ap (λ r. r.0.buf) run, ap (λ r. whole r.1) run));
  write = λ sector timeout retries buf e small sized.
      (let run = obey-write sector 1 buf e (omega (arith, small)) (omega arith) in
        (ap (λ r. r.0.result) run, ap (λ r. whole r.1) run ∙ whole-put e sector buf sized));
  alloc = λ n e. (refl, refl);
}

pub content_of_memory :
    (e : ℕ → Bytes) (sector : ℕ)
    → length (e sector) ≡ 512
    → disk_in_memory.content e sector ≡ e sector
unfolding disk_in_memory
content_of_memory e sector sized = whole_sized e sector sized
