-- ===== src/UndoLog.antt =====
-- src/undo/undo_log.h: the undo log of the background process, in persistent memory.
-- The log is a function from an index to its entry. The build option OPTIMIZE_DEDUPLICATE is the
-- argument `deduplicate`, and the hash table that belongs to it a function from a slot to an
-- address. `abort` is a failed DR_ASSERT.
pub mod LoggedAddrs
pub mod Restore
pub mod Blocks
pub mod Record
pub mod Skip
pub mod Commit
pub mod Recover
pub mod Clear
pub mod Run
pub mod Protocol
mod Tests
use persimmon.Base.{
  ℕ, zero, suc, ◌+◌, ◌-◌, ◌*◌, ◌/◌, ◌%◌, ◌^◌, Bool, true, false, not, ◌&&◌, ◌||◌, Option, none,
  some, ltb, leb, ◌==◌, if◌then◌else◌, add_word, align_down, Memory, store, inside, List, [], ◌∷◌,
}
use persimmon.Flush.{flush_line}
use persimmon.Ranges.{Range}
use persimmon.Ranges

-- `UNDO_BLK_SIZE_B`
abbrev pub block_size : ℕ
block_size = 32

-- `COMMIT_THRESHOLD`
abbrev pub commit_threshold : ℕ
commit_threshold = 8192

-- `UNDO_NUM_ENTRIES`
abbrev pub num_entries : ℕ
num_entries = 524288

-- `LOGGED_ADDR_HASH_SIZE`
abbrev pub hash_size : ℕ
hash_size = 16384

-- `undo_log_entry`; `nullptr` is address 0.
pub record LogEntry : Type 0 where
  pub blk : ℕ → ℕ
  pub addr : ℕ
  pub commit_tail : ℕ

abbrev pub is_null : LogEntry → Bool
is_null e = e.addr == 0 && e.commit_tail == 0

abbrev pub zeroed : LogEntry
zeroed = record { blk = λ _. 0; addr = 0; commit_tail = 0 }

-- The singleton `undo_log`.
pub record UndoLog : Type 0 where
  pub log : ℕ → LogEntry
  pub len : ℕ
  pub logged_addrs_hash : ℕ → ℕ
  pub fresh_regions : List Range

-- One array element or table slot set.
abbrev pub update {ℓ} : {A : Type ℓ} → (ℕ → A) → ℕ → A → ℕ → A
update f i v j = if j == i then v else f j

-- `undo_log_insert_logged_addr`: the loop, at `i` and `perturb`, with `count` rounds left. The
-- result is the table and whether the address counts as new.
insert_from : ℕ → (ℕ → ℕ) → ℕ → ℕ → ℕ → Bool × (ℕ → ℕ)
insert_from zero table addr i perturb = (true, table)
insert_from (suc count) table addr i perturb =
    let next = insert_from count table addr (add_word (5 * i) (perturb + 1)) (perturb / 32) in
    let slot = i % hash_size in
    if table slot == 0
    then (true, update table slot addr)
    else if table slot == addr
    then (false, table)
    else next

pub insert_logged_addr : (ℕ → ℕ) → ℕ → Bool × (ℕ → ℕ)
insert_logged_addr table addr =
    insert_from (hash_size + 13) table addr (addr / block_size) (addr / block_size)

-- `undo_log_clear`: the first `len` entries are zeroed.
pub clear : UndoLog → UndoLog
clear ul = record ul {
  log = λ i. if ltb i ul.len then zeroed else ul.log i;
  len = 0;
  logged_addrs_hash = λ _. 0;
  fresh_regions = Ranges.clear ul.fresh_regions;
}

-- One round of the loop of `undo_log_record`, for the block at `pn`. The array has `num_entries`
-- elements, which OPTIMIZED leaves unchecked: a round that begins with a full array is undefined.
record_block : Bool → Memory → ℕ → UndoLog → UndoLog
record_block deduplicate m pn ul =
    let (is_new, table) = insert_logged_addr ul.logged_addrs_hash pn in
    let entry : LogEntry = record { blk = λ i. m (pn + i); addr = pn; commit_tail = 0 } in
    let append = λ (table' : ℕ → ℕ). record ul {
      log = update ul.log ul.len entry;
      len = ul.len + 1;
      logged_addrs_hash = table';
    } in
    if deduplicate
    then (if is_new then append table else record ul { logged_addrs_hash = table })
    else append ul.logged_addrs_hash

-- The loop over the blocks from `pn` on that start below `end`, on fuel. Behind the last block of the
-- address space `pn` wraps to 0, and the loop does not end.
pub record_blocks : ℕ → Bool → Memory → ℕ → ℕ → UndoLog → UndoLog
record_blocks zero deduplicate m pn end ul = ul
record_blocks (suc fuel) deduplicate m pn end ul =
    let rest =
      record_blocks fuel deduplicate m (add_word pn block_size) end
        (record_block deduplicate m pn ul) in
    if ltb pn end then rest else ul

-- `undo_log_record`, with the memory before the write. The result says whether it is time to
-- commit. If the loop ends, the blocks number less than `size` + 2.
pub record_write : Bool → Memory → ℕ → ℕ → UndoLog → Bool × UndoLog
record_write deduplicate m addr size ul =
    if Ranges.find_range ul.fresh_regions addr size
    then (false, ul)
    else let blk_start = align_down addr block_size in
      let ul' = record_blocks (size + 2) deduplicate m blk_start (add_word addr size) ul in
      (ltb commit_threshold ul'.len, ul')

-- A `size_t` that is passed as a `uint`.
abbrev pub to_uint : ℕ → ℕ
to_uint size = size % 2 ^ 32

-- `undo_log_record_fresh_region` and `undo_log_remove_fresh_region`, called with a `size_t`.
pub record_fresh_region : ℕ → ℕ → UndoLog → UndoLog
record_fresh_region addr size ul = record ul {
  fresh_regions = Ranges.insert ul.fresh_regions addr (to_uint size);
}

pub remove_fresh_region : ℕ → ℕ → UndoLog → Option UndoLog
remove_fresh_region addr size ul = elim (Ranges.remove ul.fresh_regions addr (to_uint size)) [
  | none ↦ none
  | some v ↦ some (record ul { fresh_regions = v })
]

-- The first loop of `undo_log_commit`, over the entries below `n`; it flushes in another order,
-- which no one sees before the drain.
flush_entries : ℕ → (ℕ → LogEntry) → Memory → Memory → Memory
flush_entries zero log view image = image
flush_entries (suc n) log view image = flush_line view (flush_entries n log view image) (log n).addr

-- The lines from `p` on that start below `end`, on fuel.
flush_lines : ℕ → Memory → ℕ → ℕ → Memory → Memory
flush_lines zero view p end image = image
flush_lines (suc fuel) view p end image =
    let rest = flush_lines fuel view (p + 64) end (flush_line view image p) in
    if ltb p end then rest else image

-- The call of `foreach` in `undo_log_commit`, for one region.
flush_region : Memory → ℕ → ℕ → Memory → Memory
flush_region view addr size image =
    flush_lines (size + 1) view (align_down addr 64 + 64) (addr + size) (flush_line view image addr)

-- The two loops of `undo_log_commit`: the image behind them.
pub flush_logged : Memory → UndoLog → Memory → Memory
flush_logged view ul image =
    Ranges.foreach (flush_region view) ul.fresh_regions (flush_entries ul.len ul.log view image)

-- The commit record.
pub append_commit_record : ℕ → UndoLog → UndoLog
append_commit_record tail ul = record ul {
  log = update ul.log ul.len (record (ul.log ul.len) { addr = 0; commit_tail = tail + 1 });
  len = ul.len + 1;
}

-- The log and the image in the course of `undo_log_commit`, with what they were at each `pmem_drain`,
-- the latest first.
pub record Committing : Type 0 where
  pub ul : UndoLog
  pub image : Memory
  pub drained : List ((ℕ → LogEntry) × Memory)

pmem_drain : Committing → Committing
pmem_drain s = record s { drained = (s.ul.log, s.image) ∷ s.drained }

-- `undo_log_commit(tail)`; `none` is its DR_ASSERT.
pub commit : ℕ → Memory → Memory → UndoLog → Option Committing
unfolding pmem_drain
commit tail view image ul =
    let s : Committing = record { ul = ul; image = image; drained = [] } in
    let flushed = pmem_drain (record s { image = flush_logged view s.ul s.image }) in
    let recorded = record flushed { ul = append_commit_record tail flushed.ul } in
    if ltb recorded.ul.len num_entries then some (pmem_drain recorded) else none

-- `undo_log_post_commit_cleanup`
pub post_commit_cleanup : UndoLog → Option UndoLog
post_commit_cleanup ul =
    if ltb 0 ul.len && ltb 0 (ul.log (ul.len - 1)).commit_tail then some (clear ul) else none

-- The loop of `undo_log_init` over a recovered log, from entry `i` on: the index of the first null
-- entry, `none` at the end of the array, or at a commit record that has an address.
scan : ℕ → (ℕ → LogEntry) → ℕ → Option ℕ
scan zero log i = none
scan (suc fuel) log i =
    let rest = scan fuel log (i + 1) in
    if is_null (log i)
    then some i
    else if ltb 0 (log i).commit_tail && not ((log i).addr == 0)
    then none
    else rest

-- The table that the same loop fills, over the entries below `n`.
rehash : ℕ → (ℕ → LogEntry) → ℕ → ℕ
rehash zero log = λ _. 0
rehash (suc n) log = (insert_logged_addr (rehash n log) (log n).addr).1

-- `undo_log_init`, over the log that persistent memory holds.
pub init : Bool → Bool → (ℕ → LogEntry) → Option UndoLog
init deduplicate recovered log =
    let blank : UndoLog = record {
      log = log;
      len = 0;
      logged_addrs_hash = λ _. 0;
      fresh_regions = [];
    } in
    if recovered
    then elim (scan num_entries log 0) [
      | none ↦ none
      | some n ↦ some (record blank {
        len = n;
        logged_addrs_hash = if deduplicate then rehash n log else (λ _. 0);
      })
    ]
    else some (clear blank)

-- The last loop of `undo_log_recover`: the entries below `n` are applied from back to front.
apply_entries : ℕ → (ℕ → Bool) → (ℕ → LogEntry) → Memory → Option Memory
apply_entries zero does_manage log m = some m
apply_entries (suc n) does_manage log m =
    let e = log n in
    let rest = apply_entries n does_manage log (store m e.addr block_size e.blk) in
    if e.commit_tail == 0 && not (e.addr == 0) && does_manage e.addr then rest else none

-- What `undo_log_recover` returns and does: the recovered tail (`none` for -1), the memory, the log,
-- and whether the new region table was committed or cleared.
pub record Recovered : Type 0 where
  pub tail : Option ℕ
  pub memory : Memory
  pub ul : UndoLog
  pub table_committed : Bool

-- Does the log end in a commit record?
abbrev pub ends_in_commit : UndoLog → Bool
ends_in_commit ul = ltb 0 ul.len && ltb 0 (ul.log (ul.len - 1)).commit_tail

-- `undo_log_recover`, where `does_manage` is the region manager's test after its recovery.
pub recover : (ℕ → Bool) → UndoLog → Memory → Option Recovered
recover does_manage ul m =
    if ends_in_commit ul
    then some (record {
      tail = some ((ul.log (ul.len - 1)).commit_tail - 1);
      memory = m;
      ul = clear ul;
      table_committed = true;
    })
    else elim (apply_entries ul.len does_manage ul.log m) [
      | none ↦ none
      | some m' ↦ some (record { tail = none; memory = m'; ul = clear ul; table_committed = false })
    ]
