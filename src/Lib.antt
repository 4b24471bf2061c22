-- ===== src/Lib.antt =====
-- Persimmon keeps the memory of a program in persistent memory. The program appends its commands to
-- a log (src/fg.cc) before it acts on them; a background process takes them from that log
-- (src/internal.h), executes them on its own copy of the data, and makes the effects of each batch
-- atomic with an undo log (src/undo/undo_log.h). Its memory regions are files of persistent memory,
-- with a table of them that changes with each commit (src/undo/mem_region). After a crash the undo
-- log brings the memory back to the last commit, and the commands behind that are executed again.
--
-- The modules:
--   Base           Boolean tests, lists and memories over the native numbers, 64-bit words.
--   Flush          src/undo/flush.h: cache lines written back. A memory is a function from an address
--                  to a byte; what the process sees and what persistent memory holds are two of them.
--   MemsetAvx      src/undo/memset_nt_avx.cc: `memset_movnt_avx`, store by store, where an aligned
--                  store at an unaligned address faults (`none`).
--   Ranges         src/undo/mem_region/ranges.h: the sorted and coalesced vector of address ranges.
--   PsmLog         src/fg.cc and src/internal.h: `psm_reserve` (reserve), `psm_push` (push),
--                  `psm_commit` (commit), `consume`, the replay in `psm_init`. `pmem_memcpy_nodrain`
--                  of libpmem is the parameter PmemCopy. A run ends (`done`), fails an assertion
--                  (`abort`) or is still in the spin loop when the list of tails that the loop loads
--                  is used up (`spinning`); a theorem says when the first load is enough.
--   UndoLog        src/undo/undo_log.h: one function per `undo_log_` function, without the prefix
--                  (`undo_log_record` is record_write). UndoLog/Run has the steps of a whole run.
--   FastPath       src/undo/undo_log.h and src/undo/instrument.cc: the code that
--                  `undo_insert_fast_path` puts before a write in a build with OPTIMIZE_SKIP_RECORD
--                  (and OPTIMIZE_DEDUPLICATE), executed instruction by instruction, and
--                  `event_app_instruction`, which chooses the writes.
--   Region         src/undo/mem_region/common.h: regions and their file names.
--   RegionManager  src/undo/mem_region/mem_region.cc: the manager's vector and the table files. What a
--                  system call gives back is an argument.
--   RegionFile     src/undo/mem_region/mem_region.cc and fg.cc: a region written to its file in pieces
--                  (`persist_region`), and read back into the memory of another process.
--   Recovery       src/undo/undo_fg.cc, src/undo/mem_region/fg.cc and src/undo/instrument.cc: the pipes
--                  between the restarted processes. `undo_recover_foreground` is a function of what it
--                  reads; Recovery/Steps has the steps of both processes in any order, and the failures of
--                  their system calls.
--   Restart        src/fg.cc: the end of `psm_init` in a restarted parent, Recovery and the replay of
--                  PsmLog put together.
--   InitialCheckpoint
--                  src/undo/initial_chkpt.cc: `take_initial_chkpt` on the table of open files.
--   Chkpt          src/chkpt/chkpt.cc: `chkpt_commit`, with the images that it leaves.
--   DirIter        src/undo/mem_region/dir_iter.h: `iterate_dir`.
--   AddressSpace   src/undo/instrument.cc: `should_replace` and `init_address_space`, over what
--                  `dr_query_memory_ex` reports (IsQuery in AddressSpace/Scan is its documentation).
--   Startup        src/undo/instrument.cc: `dr_client_main` up to the message of the recovered tail, with
--                  and without recovery, and `undo_log_recover` over the region table: UndoLog,
--                  RegionManager, AddressSpace and Recovery put together into the first state of
--                  Instrument.
--   Instrument     src/undo/instrument.cc: what its globals and hooks do to the undo log, the region
--                  manager and the table files, at a write, an mmap, a munmap and a commit.
--   Background     src/bg.cc: a round of `_bg_consume`, which takes an entry of the command log, has
--                  the client commit, and moves the tail; the same with BATCH_COMMIT, where a commit covers
--                  several entries; and the restart behind a crash.
--   Sga            src/bg.cc: the scatter-gather arrays that `bg_run` decodes.
--
-- Fuel: the loop of `undo_log_record` has `size` + 2 rounds, since its blocks number less; the flush of
-- a region has a round for each of its bytes; the scan of a recovered log has one for each entry of the
-- array; a number of 64 bits has at most 16 hexadecimal digits; the scan of the address space has one
-- for each address, and goes on by a byte at least in each. Counters of 64 bits keep their
-- wrap-around (`add_word`, `sub_word`); the probing of the hash table wraps likewise.
--
-- Not modelled: process set-up, system calls and their wrappers, DynamoRIO's own code, CRIU,
-- `chkpt_init`, the benchmarks. The runs of UndoLog/Run have no
-- step for `munmap` and no crash inside `undo_log_record`; they ask each write to lie behind the first block
-- of the address space and before the last one, and the log to have room, which the code does not check.
pub mod Base
pub mod MemsetAvx
pub mod Flush
pub mod Ranges
pub mod Region
pub mod RegionManager
pub mod PsmLog
pub mod UndoLog
pub mod RegionFile
pub mod Recovery
pub mod AddressSpace
pub mod Restart
pub mod InitialCheckpoint
pub mod DirIter
pub mod Chkpt
pub mod Sga
pub mod Startup
pub mod FastPath
pub mod Instrument
pub mod Background
