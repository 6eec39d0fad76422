-- ===== src/Lib.antt =====
-- The bad-sector swap driver of drivers/scsi/swap: a layer between the block layer and a SCSI disk
-- that moves 64 KB blocks with bad sectors to spare blocks in a reserved area at the disk's end.
--
-- The parts, and the files that model them:
--   Layout, Format   core.h: the places of head, tables, log and data in the reserved area, and the
--                    bytes of the structures that are written there.
--   Kernel           what the driver calls and does not implement (scsi_execute, kmalloc, the clock,
--                    msleep, snprintf of a line, the search of a bitmap with what the kernel
--                    documents of it): a record of operations over a state E of the outside world, which every model of an operation takes as a parameter.
--   State, Ensures,  the handler's state (struct swap_handler of swap.h) as a record World, and two
--   Yields           ways to write an operation: S E A passes the world on, M E A may fault as well
--                    (none is a null pointer followed or a copy out of a buffer's bounds). Ensures
--                    holds the rules for what is true behind a call that does not fault, Yields
--                    those that say as well that it does not.
--   Crc32, Ring, Log crc32.c, ring.h and log.c: the checksum, the ring of log items and its copy on
--                    disk.
--   Io               utils.c: reads and writes as SCSI commands, the filter of their results, the
--                    count of a device's deaths; test-unit-ready, cache synchronisation, reassign.
--   Core             core.c. Bitmap (used blocks), Flush (swap_find_swap_info, flush_swap_*), Alloc
--                    (_swap_alloc_*, _swap_create), Create (swap_create, swap_recreate), Transfer
--                    (_swap_read, _swap_write, scsi_swap_core_read, scsi_swap_core_write), Header
--                    (init_swap_head), Start (init_swap_info, scsi_swap_core_init,
--                    scsi_swap_core_destroy), Query (scsi_swap_core_swapped, _can_swap, _show).
--                    Steady, Quiet, Ready and Invariant say what an operation leaves alone. Of the
--                    children, Transfer/Read and Transfer/Write hold the two request functions,
--                    Create/Fresh, Create/Moves, Create/Renewed, Transfer/Sound and
--                    Transfer/SoundWrite the proofs that blocks stay apart (Create/Dangling where
--                    they do not), the Total ones and Transfer/Pieces that calls return,
--                    Transfer/Cover, Transfer/ViewRead and Transfer/ReadBack what they take and
--                    return.
--   Sim, Scmd        sim.c and swap.c: the list of simulated bad sectors, and reading a SCSI command
--                    back to see whether it hits one.
--   Bio, Block       swap.c, block/blk-core.c, drivers/scsi/scsi.c and sd.c: how a bio comes to
--                    the swaps and goes back, and the capacity that the disk reports. Bio/Life is
--                    the start and the end of a device's handler, Block/Routes says where each bio
--                    goes; Block/Attach is the probe and the removal of a disk.
--   Sysfs            sysfs.c: the attributes "swap", "log" and "simulate", and their dispatch; sscanf
--                    is a parameter. Sysfs/Register is the registration, on the kernel's kobjects.
--   Requests         a device's history: the worker's items and the writes to "simulate" in any order.
--   Disk             a working disk: what the SCSI layer and kmalloc promise where nothing fails, and
--                    what the sector functions return then. Core/Flush/Stores, Filled and Placed
--                    follow a flush of the tables on it, Core/Start/Stored, Counting, Loading, Taking,
--                    Restored and Boot a start, Core/Start/Reboot, Sealing and Cycle the two together;
--                    Log/Start and Bio/Start go up to the first request.
--   Show             the loops that print lines into a page.
--   Tests            concrete runs.
--
-- Choices. A sector_t is a number below 2^64, an int its 32-bit pattern where it can be negative;
-- the wrap-around is written out where the code's values reach it. A list of swaps is a List, a
-- pointer into it a place (Loc), null before the swap is in the list. Locks have no part: each
-- operation runs alone, as the callers' work queue and spin locks mean it to; what other tasks do to
-- the count of users while one sleeps is an answer of msleep. Loops are structural: write_until
-- runs at most the sectors left below its limit and one, alloc_loop the 17 tries of err_cnt,
-- wait_loop 100 rounds, swapped_loop as many rounds as blocks can start in the range, read_loop and
-- write_loop get_swap_block_count rounds.
--
-- Not modelled: the locks and the mutex of sysfs.c, the kernel's own kobjects and work queue (their
-- calls change the outside world), the printing of messages, the branches for kernels before
-- 2.6.29 and code under #if 0, and what block/blk-core.c, drivers/scsi/sd.c and drivers/scsi/scsi.c
-- do beside their calls of the driver: they are files of the kernel, to which the repository adds
-- these calls.
pub mod Base
pub mod Layout
pub mod Kernel
pub mod Disk
pub mod Crc32
pub mod Ring
pub mod Format
pub mod State
pub mod Ensures
pub mod Yields
pub mod Io
pub mod Show
pub mod Log
pub mod Core
pub mod Sim
pub mod Scmd
pub mod Bio
pub mod Sysfs
pub mod Requests
pub mod Block
mod Tests
