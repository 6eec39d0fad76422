-- ===== src/Format.antt =====
-- The structures that drivers/scsi/swap/core.h, core.c and log.c lay out in sectors, with the
-- bytes that `memcpy` moves between memory and disk. Words are little endian.
pub mod RoundTrip
pub mod Heads
use scsiswap.Base.{
  ℕ, ◌+◌, ◌*◌, ◌/◌, ◌%◌, Bool, true, false, List, [], ◌∷◌, ◌++◌, Bytes, ◌==◌, slice, replicate,
  le_bytes, of_le,
}
use scsiswap.Layout.{
  swap_head_string_len, swap_head_status_len, swap_head_version_len, swap_head_reserve_len,
  data_block_num,
}

-- `struct swap_head`, 512 bytes. The bitmap is kept bit by bit.
pub record Head : Type 0 where
  pub head_string : Bytes
  pub status : Bytes
  pub version : Bytes
  pub bitmap : List Bool
  pub reserved : Bytes
  pub checksum : ℕ

-- `struct swap_table`, 64 bytes; `reserverd` is the bytes of its six words.
pub record Table : Type 0 where
  pub src_sec : ℕ
  pub swap_sec : ℕ
  pub sec_size : ℕ
  pub retrys : ℕ
  pub index : ℕ
  pub reserverd : Bytes
  pub checksum : ℕ
  pub save_sec : ℕ

-- `struct scsi_swap_log_head`, 8 bytes.
pub record LogHead : Type 0 where
  pub crc : ℕ
  pub item_num : ℕ
  pub item_next : ℕ

-- `struct scsi_swap_log_item`, 32 bytes.
pub record LogItem : Type 0 where
  pub crc : ℕ
  pub time : ℕ
  pub sec_src : ℕ
  pub sec_dst : ℕ
  pub sec_count : ℕ
  pub type_of : ℕ
  pub result : ℕ
  pub reboot_count : ℕ
  pub fix_count : ℕ
  pub curr_count : ℕ
  pub reserved : ℕ

abbrev pub bit : Bool → ℕ
bit true = 1
bit false = 0

-- Bit `n` of the bitmap is bit `n % 8` of byte `n / 8`.
unfoldable pub bitmap_bytes : List Bool → Bytes
bitmap_bytes (a ∷ b ∷ c ∷ d ∷ e ∷ f ∷ g ∷ h ∷ bs) =
    (bit a + 2 * bit b + 4 * bit c + 8 * bit d + 16 * bit e + 32 * bit f + 64 * bit g + 128 * bit h)
    ∷ bitmap_bytes bs
bitmap_bytes bs = []

unfoldable pub bitmap_of : Bytes → List Bool
bitmap_of [] = []
bitmap_of (x ∷ xs) =
    (x % 2 == 1)
    ∷ (x / 2 % 2 == 1)
    ∷ (x / 4 % 2 == 1)
    ∷ (x / 8 % 2 == 1)
    ∷ (x / 16 % 2 == 1)
    ∷ (x / 32 % 2 == 1)
    ∷ (x / 64 % 2 == 1)
    ∷ (x / 128 % 2 == 1)
    ∷ bitmap_of xs

-- The 508 bytes before the checksum, and the whole sector.
unfoldable pub head_prefix : Head → Bytes
unfolding bitmap_bytes
head_prefix h = h.head_string ++ (h.status ++ (h.version ++ (bitmap_bytes h.bitmap ++ h.reserved)))

unfoldable pub head_bytes : Head → Bytes
head_bytes h = head_prefix h ++ le_bytes 4 h.checksum

unfoldable pub head_of : Bytes → Head
unfolding bitmap_of
head_of bs = record {
  head_string = slice bs 0 16;
  status = slice bs 16 16;
  version = slice bs 32 4;
  bitmap = bitmap_of (slice bs 36 128);
  reserved = slice bs 164 344;
  checksum = of_le (slice bs 508 4);
}

-- The 52 bytes before the checksum, and all 64.
unfoldable pub table_prefix : Table → Bytes
table_prefix t =
    le_bytes 8 t.src_sec
    ++ (le_bytes 8 t.swap_sec
        ++ (le_bytes 4 t.sec_size ++ (le_bytes 4 t.retrys ++ (le_bytes 4 t.index ++ t.reserverd))))

unfoldable pub table_bytes : Table → Bytes
table_bytes t = table_prefix t ++ (le_bytes 4 t.checksum ++ le_bytes 8 t.save_sec)

unfoldable pub table_of : Bytes → Table
table_of bs = record {
  src_sec = of_le (slice bs 0 8);
  swap_sec = of_le (slice bs 8 8);
  sec_size = of_le (slice bs 16 4);
  retrys = of_le (slice bs 20 4);
  index = of_le (slice bs 24 4);
  reserverd = slice bs 28 24;
  checksum = of_le (slice bs 52 4);
  save_sec = of_le (slice bs 56 8);
}

unfoldable pub log_head_bytes : LogHead → Bytes
log_head_bytes h = le_bytes 4 h.crc ++ (le_bytes 2 h.item_num ++ le_bytes 2 h.item_next)

unfoldable pub log_head_of : Bytes → LogHead
log_head_of bs = record {
  crc = of_le (slice bs 0 4);
  item_num = of_le (slice bs 4 2);
  item_next = of_le (slice bs 6 2);
}

unfoldable pub log_item_bytes : LogItem → Bytes
log_item_bytes i =
    le_bytes 4 i.crc
    ++ (le_bytes 4 i.time
        ++ (le_bytes 8 i.sec_src
            ++ (le_bytes 8 i.sec_dst
                ++ (le_bytes 2 i.sec_count
                    ++ (le_bytes 1 i.type_of
                        ++ (le_bytes 1 i.result
                            ++ (le_bytes 1 i.reboot_count
                                ++ (le_bytes 1 i.fix_count
                                    ++ (le_bytes 1 i.curr_count ++ le_bytes 1 i.reserved)))))))))

unfoldable pub log_item_of : Bytes → LogItem
log_item_of bs = record {
  crc = of_le (slice bs 0 4);
  time = of_le (slice bs 4 4);
  sec_src = of_le (slice bs 8 8);
  sec_dst = of_le (slice bs 16 8);
  sec_count = of_le (slice bs 24 2);
  type_of = of_le (slice bs 26 1);
  result = of_le (slice bs 27 1);
  reboot_count = of_le (slice bs 28 1);
  fix_count = of_le (slice bs 29 1);
  curr_count = of_le (slice bs 30 1);
  reserved = of_le (slice bs 31 1);
}

-- `memset(…, 0, …)` of a structure.
unfoldable pub zero_head : Head
zero_head = record {
  head_string = replicate swap_head_string_len 0;
  status = replicate swap_head_status_len 0;
  version = replicate swap_head_version_len 0;
  bitmap = replicate data_block_num false;
  reserved = replicate swap_head_reserve_len 0;
  checksum = 0;
}

unfoldable pub zero_table : Table
zero_table = record {
  src_sec = 0;
  swap_sec = 0;
  sec_size = 0;
  retrys = 0;
  index = 0;
  reserverd = replicate 24 0;
  checksum = 0;
  save_sec = 0;
}
