-- ===== src/Tests/Worlds.antt =====
-- A device, worlds and buffers to run the code on.
use scsiswap.Ring.{Ring}
use scsiswap.Requests.{IsServing}
use scsiswap.Bio.{Bio, scsi_parent}
use scsiswap.Ring.Refine.{IsValid}
use scsiswap.Core.Ready.{IsReady}
use scsiswap.Core.Invariant.{IsSound}
use scsiswap.Format.{zero_head, zero_table}
use scsiswap.Layout.{swap_block_size}
use scsiswap.State.{Info, World}
use scsiswap.Base.{
  Bool, List, get_or, zero, suc, ◌<◌, Bytes, [], arith, false, if◌then◌else◌, length,
  length-replicate, refl, replicate, some, true, ℕ, ◌+◌, ◌==◌, ◌∷◌, ◌≡◌,
}
use scsiswap.Kernel.{Kernel, IsSearched}
use mathlib.Core.Path.{subst}

-- A search from the first bit on.
abbrev pub search : List Bool → ℕ
search [] = 0
search (false ∷ bits) = 0
search (true ∷ bits) = search bits + 1

search_suc :
    (bits : List Bool) → IsSearched bits (search bits) → IsSearched (true ∷ bits) (search bits + 1)
search_suc bits s = record {
  inside = omega (arith, s.inside);
  below = below;
  clear = λ lt. clear lt;
}
  where
    below : (j : ℕ) → j < search bits + 1 → get_or (true ∷ bits) j false ≡ true
    below zero lt = refl
    below (suc j) lt = s.below j (omega arith)

    clear :
        search bits + 1 < length (true ∷ bits)
        → get_or (true ∷ bits) (search bits + 1) false ≡ false
    clear lt =
        subst (λ n. get_or (true ∷ bits) n false ≡ false) {x = suc (search bits)}
          {y = search bits + 1} (omega arith) (s.clear (omega (arith, lt)))

pub search-IsSearched : (bits : List Bool) → IsSearched bits (search bits)
search-IsSearched [] = record {
  inside = omega arith;
  below = λ j lt. absurd (omega arith);
  clear = λ lt. refl;
}
search-IsSearched (false ∷ bits) = record {
  inside = omega arith;
  below = λ j lt. absurd (omega arith);
  clear = λ lt. refl;
}
search-IsSearched (true ∷ bits) = search_suc bits (search-IsSearched bits)

-- A device whose commands all succeed; it counts them.
abbrev pub good_device : Kernel ℕ
good_device = record {
  scsi_execute = λ c e. (
    record { result = 0; sense_valid = false; sense_key = 0; asc = 0; ascq = 0; buf = c.buf },
    e + 1,
  );
  kmalloc = λ n e. (true, e);
  fresh_memory = λ n e. replicate n 7;
  getnstimeofday = λ e. (1385000000, e);
  scsi_device_online = λ e. true;
  format_line = λ ns. ns;
  sscanf = λ page format. if length page == length format then 200 ∷ 8 ∷ [] else [];
  msleep = λ n e. (0, e);
  find_first_zero_bit = search;
  searches = search-IsSearched;
}

-- A ring of two items of two bytes, with one item in it.
abbrev pub small_ring : Ring
small_ring = record {
  item_cap = 2;
  item_size = 2;
  item_num = 1;
  item_next = 1;
  buffer = 5 ∷ 6 ∷ 0 ∷ 0 ∷ [];
}

abbrev pub small_ring-IsValid : IsValid small_ring
small_ring-IsValid = record {
  some_cap = omega arith;
  num_in = omega arith;
  next_in = omega arith;
  memory = refl;
}

abbrev pub sixty_four_kb : Bytes
sixty_four_kb = replicate swap_block_size 0

-- A swap of the block at sector 256 to block 0.
abbrev pub one_swap : Info
one_swap = record {
  table = record zero_table { src_sec = 256; swap_sec = 149152; sec_size = 128 };
  buf = some sixty_four_kb;
}

abbrev pub one_swap_world : World ℕ
one_swap_world = record {
  removable = false;
  changed = false;
  enable = true;
  core = record {
    device_dead = 0;
    info_num = 1;
    user = 3;
    head = record zero_head { bitmap = true ∷ false ∷ false ∷ [] };
    info_list = one_swap ∷ [];
    sector_reserve_start = 100000;
    sector_head = 116384;
    sector_table = 132768;
    sector_data = 149152;
  };
  log = record {
    head = record { crc = 0; item_num = 0; item_next = 0 };
    ring = some small_ring;
    sector_head = 2164384;
    sector_data = 2166432;
  };
  sim = record { start = 100; num = 4 } ∷ [];
  env = 0;
}

pub one_swap_world-IsSound : IsSound one_swap_world
unfolding zero_table
one_swap_world-IsSound = (refl, tt, tt)

pub buffer-length : length sixty_four_kb ≡ swap_block_size
buffer-length = length-replicate swap_block_size 0

-- Two sectors of data.
abbrev pub two_sectors : Bytes
two_sectors = replicate 1024 9

pub two_sectors-length : length two_sectors ≡ 1024
two_sectors-length = length-replicate 1024 9

-- A bio of two pages, of two bytes and of one.
abbrev pub two_pages : Bio
two_pages = record {
  bdev = scsi_parent;
  is_write = true;
  bi_sector = 256;
  bi_size = 3;
  uptodate = true;
  segments =
      record { content = 1 ∷ 2 ∷ []; has_address = true }
      ∷ record { content = 3 ∷ []; has_address = true }
      ∷ [];
}

-- An empty ring of two log items.
abbrev pub log_ring : Ring
log_ring = record {
  item_cap = 2;
  item_size = 32;
  item_num = 0;
  item_next = 0;
  buffer = replicate 64 0;
}

pub log_ring-IsValid : IsValid log_ring
log_ring-IsValid = record {
  some_cap = omega arith;
  num_in = omega arith;
  next_in = omega arith;
  memory = length-replicate 64 0;
}

abbrev pub logging_world : World ℕ
logging_world = record one_swap_world {
  log = record {
    head = record { crc = 0; item_num = 0; item_next = 0 };
    ring = some log_ring;
    sector_head = 2164384;
    sector_data = 2166432;
  };
}

pub logging_world-IsReady : IsReady logging_world
logging_world-IsReady = record {
  log = record { ring = log_ring; held = refl; valid = log_ring-IsValid; sized = refl };
  buffers = (record { buffer = sixty_four_kb; held = refl; full = buffer-length }, tt);
}

pub logging_world-IsServing : IsServing 3 logging_world
logging_world-IsServing = record {
  ready = logging_world-IsReady;
  sound = one_swap_world-IsSound;
  same = refl;
}

pub sized_memory : (n e : ℕ) → length (good_device.fresh_memory n e) ≡ n
sized_memory n e = length-replicate n 7
