-- ===== src/Disk.antt =====
-- A working disk under drivers/scsi/swap/utils.c and core.c: what the SCSI layer and `kmalloc`
-- promise where nothing fails, and what the sector functions return then.
use scsiswap.Io.{
  hd_read_sector_no_retry, execute, filter_result, finish, hd_read_sector, hd_read_sector_retry,
  hd_write_sector, hd_write_sector_retry, rw_cdb,
}
use scsiswap.State.{World, ok}
use scsiswap.Io.Outcomes.{write_command}
use scsiswap.Base.{
  append-nil, length-append, ap, ◌∙◌, Bytes, [], arith, false, if◌then◌else◌, length,
  length-replicate, ltb, refl, replicate, some, suc, true, u32, zero, ℕ, ◌*◌, ◌++◌, ◌+◌, ◌<◌, ◌==◌,
  ◌≡◌, ◌≢◌,
}
use scsiswap.Kernel.{Command, Reply, from_device, read_10, Kernel}

-- A disk's sectors, `n` of them from `sector` on, and the disk with one sector changed.
unfoldable pub sectors : (ℕ → Bytes) → ℕ → ℕ → Bytes
sectors disk sector zero = []
sectors disk sector (suc n) = disk sector ++ sectors disk (sector + 1) n

unfoldable pub put : (ℕ → Bytes) → ℕ → Bytes → ℕ → Bytes
put disk sector bytes x = if x == sector then bytes else disk x

abbrev pub read_command : ℕ → ℕ → Bytes → ℕ → ℕ → ℕ → Command
read_command sector num buf len timeout retries = record {
  cdb = rw_cdb read_10 sector num;
  direction = from_device;
  buf = buf;
  len = len;
  timeout = timeout;
  retries = retries;
}

-- A device all of whose sectors below 2^32 can be read and written, and memory enough.
pub record Disk {E : Type 0} (k : Kernel E) : Type 0 where
  pub content : E → ℕ → Bytes
  pub size : (e : E) (sector : ℕ) → length (content e sector) ≡ 512
  pub read :
      (sector n len timeout retries : ℕ) (buf : Bytes) (e : E)
      → sector + n < 4294967296
      → n < 65536
      → len ≡ 512 * n
      → length buf ≡ len
      → let (r, e') = k.scsi_execute (read_command sector n buf len timeout retries) e in
        (r.result ≡ 0) × (r.buf ≡ sectors (content e) sector n) × (content e' ≡ content e)
  pub write :
      (sector timeout retries : ℕ) (buf : Bytes) (e : E)
      → sector + 1 < 4294967296
      → length buf ≡ 512
      → let (r, e') = k.scsi_execute (write_command sector 1 buf 512 timeout retries) e in
        (r.result ≡ 0) × (content e' ≡ put (content e) sector buf)
  pub alloc : (n : ℕ) (e : E) → ((k.kmalloc n e).0 ≡ true) × (content (k.kmalloc n e).1 ≡ content e)

ltb_irrefl : (n : ℕ) → ltb n n ≡ false
ltb_irrefl n = ground arith

clean_finish : {E : Type 0} (r : Reply) (w : World E) → r.result ≡ 0 → finish r w ≡ (ok, w)
unfolding finish filter_result
clean_finish r w clean = ground arith

pub sectors_one : (disk : ℕ → Bytes) (sector : ℕ) → sectors disk sector 1 ≡ disk sector
unfolding sectors
sectors_one disk sector = append-nil (disk sector)

-- The size of the sectors of a disk with 512 bytes in each.
pub length-sectors :
    (disk : ℕ → Bytes) (sector n : ℕ)
    → ((x : ℕ) → length (disk x) ≡ 512)
    → length (sectors disk sector n) ≡ 512 * n
unfolding sectors
length-sectors disk sector zero whole = omega arith
length-sectors disk sector (suc n) whole =
    length-append (disk sector) (sectors disk (sector + 1) n)
    ∙ omega (arith, whole sector, length-sectors disk (sector + 1) n whole)

pub put_same :
    (disk : ℕ → Bytes) (sector : ℕ) (bytes : Bytes) → put disk sector bytes sector ≡ bytes
unfolding put
put_same disk sector bytes = ground arith

pub put_other :
    (disk : ℕ → Bytes) (sector x : ℕ) (bytes : Bytes)
    → x ≢ sector
    → put disk sector bytes x ≡ disk x
unfolding put
put_other disk sector x bytes ne = ground arith

module _ {E : Type 0} {k : Kernel E} (d : Disk k) where
  -- What a read of whole sectors into memory of their size returns, with retries or without.
  read_whole :
      (sector n len timeout retries : ℕ) (buf : Bytes) (w : World E)
      → sector + n < 4294967296
      → n < 65536
      → len ≡ 512 * n
      → length buf ≡ len
      → (e : E) × (hd_read_sector k sector n (some buf) len timeout retries w
          ≡ ((ok, sectors (d.content w.env) sector n), record w { env = e }))
        × (d.content e ≡ d.content w.env)
  unfolding hd_read_sector execute rw_cdb
  read_whole sector n len timeout retries buf w small few sized filled =
      let (r, e) = k.scsi_execute (read_command sector n buf len timeout retries) w.env in
      let (clean, got, same) =
        d.read sector n len timeout retries buf w.env small few sized filled in
      let long : ltb (u32 len) (u32 (512 * n)) ≡ false =
        ap (λ x. ltb (u32 x) (u32 (512 * n))) sized ∙ ltb_irrefl (u32 (512 * n)) in
      (e, rw (long, clean_finish r (record w { env = e }) clean, got) refl, same)

  pub read_sized :
      (sector n len : ℕ) (buf : Bytes) (w : World E)
      → sector + n < 4294967296
      → n < 65536
      → len ≡ 512 * n
      → length buf ≡ len
      → (e : E) × (hd_read_sector_retry k sector n (some buf) len w
          ≡ ((ok, sectors (d.content w.env) sector n), record w { env = e }))
        × (d.content e ≡ d.content w.env)
  unfolding hd_read_sector_retry
  read_sized sector n len = read_whole sector n len 10 5

  pub read_once :
      (sector n len : ℕ) (buf : Bytes) (w : World E)
      → sector + n < 4294967296
      → n < 65536
      → len ≡ 512 * n
      → length buf ≡ len
      → (e : E) × (hd_read_sector_no_retry k sector n (some buf) len w
          ≡ ((ok, sectors (d.content w.env) sector n), record w { env = e }))
        × (d.content e ≡ d.content w.env)
  unfolding hd_read_sector_no_retry
  read_once sector n len = read_whole sector n len 5 0

  -- A read into cleared memory.
  pub read_lem :
      (sector n : ℕ) (w : World E)
      → sector + n < 4294967296
      → n < 65536
      → (e : E) × (hd_read_sector_retry k sector n (some (replicate (512 * n) 0)) (512 * n) w
          ≡ ((ok, sectors (d.content w.env) sector n), record w { env = e }))
        × (d.content e ≡ d.content w.env)
  read_lem sector n w small few =
      read_sized sector n (512 * n) (replicate (512 * n) 0) w small few refl
        (length-replicate (512 * n) 0)

  -- What a write of one sector does.
  pub write_lem :
      (sector : ℕ) (buf : Bytes) (w : World E)
      → sector + 1 < 4294967296
      → length buf ≡ 512
      → (e : E) × (hd_write_sector_retry k sector 1 (some buf) 512 w ≡ (ok, record w { env = e }))
        × (d.content e ≡ put (d.content w.env) sector buf)
  unfolding hd_write_sector_retry hd_write_sector execute rw_cdb
  write_lem sector buf w small sized =
      let (r, e) = k.scsi_execute (write_command sector 1 buf 512 10 5) w.env in
      let (clean, stored) = d.write sector 10 5 buf w.env small sized in
      (e, rw (clean_finish r (record w { env = e }) clean) refl, stored)
