-- ===== src/UndoLog/Tests.antt =====
-- The undo log at work on small logs, and its theorems at concrete ones.
use persimmon.Base.{
  ℕ, ◌+◌, ◌<◌, ◌≤◌, ◌≡◌, refl, [], ◌∷◌, arith, word, ◌⊎◌, Memory, store, subst, sym, Bool, true,
  false, none, some, ltb, ◌==◌, if◌then◌else◌,
}
use persimmon.Ranges.{find, find_range, any_includes}
use persimmon.UndoLog.{
  LogEntry, UndoLog, Committing, zeroed, num_entries, update, Recovered, insert_logged_addr,
  insert_from, record_block, record_blocks, record_write, record_fresh_region, commit,
  post_commit_cleanup, clear, init, recover,
}
use persimmon.UndoLog.Restore.{covered, Undoable}
use persimmon.UndoLog.Record.{record_write-Undoable, record_fresh_region-Undoable}
use persimmon.UndoLog.Commit.{commit-persists}
use persimmon.UndoLog.Clear.{post_commit_cleanup-Undoable, partly_cleared, interrupted_clear-stale}
use persimmon.UndoLog.Protocol.{Recovers, crash-atomic}
use persimmon.UndoLog.Run.{Process, write, evict, Run, stop, step, Inv}

abbrev zeros : Memory
zeros x = 0

abbrev everywhere : ℕ → Bool
everywhere x = true

abbrev empty_log : UndoLog
empty_log = record { log = λ i. zeroed; len = 0; logged_addrs_hash = λ slot. 0; fresh_regions = [] }

empty-Undoable : (keep : ℕ → Bool) (m : Memory) → Undoable keep m m empty_log
unfolding find
empty-Undoable keep m = record {
  restores = λ m' x k c. cc;
  untouched = λ x k c. refl;
  entries = λ i l. absurd (omega arith);
  hashed = λ slot s. absurd (s refl);
  fresh = λ x w f. cc;
  coalesced = tt;
  blank = λ i l. refl;
}

-- Four bytes written at address 64.
abbrev one_logged : UndoLog
one_logged = (record_write true zeros 64 4 empty_log).1

abbrev sevens : Memory
sevens = store zeros 64 4 (λ i. 7)

one_logged-len : one_logged.len ≡ 1
unfolding record_write find_range any_includes record_blocks record_block insert_logged_addr
    insert_from
one_logged-len = refl

found_64 : (insert_logged_addr (insert_logged_addr (λ slot. 0) 64).1 64).0 ≡ false
unfolding insert_logged_addr insert_from
found_64 = refl

one_logged-Undoable : Undoable everywhere zeros sevens one_logged
one_logged-Undoable =
    (record_write-Undoable everywhere zeros zeros true 64 4 (λ i. 7) empty_log (omega arith)
      (omega arith) (omega arith) (empty-Undoable everywhere zeros)).0

one_logged-intact :
    (x : ℕ)
    → everywhere x ≡ true
    → covered one_logged.len one_logged.log x ≡ false
    → sevens x ≡ zeros x
unfolding record_write find_range any_includes record_blocks record_block insert_logged_addr
    insert_from store
one_logged-intact x k c = ground arith

-- Bytes from 4096 on have been mapped since the last commit.
abbrev below_4096 : ℕ → Bool
below_4096 x = ltb x 4096

record_write-Undoable_example :
    Undoable everywhere zeros sevens one_logged × (one_logged.len ≤ num_entries)
record_write-Undoable_example =
    record_write-Undoable everywhere zeros zeros true 64 4 (λ i. 7) empty_log (omega arith)
      (omega arith) (omega arith) (empty-Undoable everywhere zeros)

mapped-Undoable : Undoable below_4096 zeros zeros (record_fresh_region 4096 100 empty_log)
mapped-Undoable =
    record_fresh_region-Undoable below_4096 zeros zeros 4096 100 empty_log (omega arith)
      (λ x i. ground arith) (empty-Undoable below_4096 zeros)

one_logged-room : one_logged.len + 1 < num_entries
one_logged-room = subst (λ n. n + 1 < num_entries) (sym one_logged-len) (omega arith)

commit-persists_example :
    (num_entries ≤ one_logged.len + 1 → commit 9 sevens zeros one_logged ≡ none)
    × (one_logged.len + 1 < num_entries
        → (s : Committing) × (commit 9 sevens zeros one_logged ≡ some s)
          × (s.drained ≡ (s.ul.log, s.image) ∷ (one_logged.log, s.image) ∷ [])
          × (s.ul.len ≡ one_logged.len + 1)
          × ((s.ul.log one_logged.len).commit_tail ≡ 9 + 1)
          × ((s.ul.log one_logged.len).addr ≡ 0)
          × ((i : ℕ) → i < one_logged.len → s.ul.log i ≡ one_logged.log i)
          × ((x : ℕ)
              → x < word
              → (covered one_logged.len one_logged.log x ≡ true)
                ⊎ (find one_logged.fresh_regions x ≡ true)
                ⊎ (zeros x ≡ sevens x)
              → s.image x ≡ sevens x))
commit-persists_example =
    commit-persists everywhere zeros sevens zeros one_logged 9 one_logged-Undoable

post_commit_cleanup-Undoable_example :
    (s : Committing) × (ul' : UndoLog) × (commit 9 sevens zeros one_logged ≡ some s)
    × (post_commit_cleanup s.ul ≡ some ul')
    × (ul'.len ≡ 0)
    × Undoable everywhere sevens sevens ul'
post_commit_cleanup-Undoable_example =
    post_commit_cleanup-Undoable everywhere everywhere zeros sevens zeros one_logged 9
      one_logged-Undoable one_logged-room

abbrev block_at : ℕ → LogEntry
block_at a = record { blk = λ i. 0; addr = a; commit_tail = 0 }

-- Two blocks and the commit record of tail 4.
abbrev committed_log : ℕ → LogEntry
committed_log i =
    if i == 0
    then block_at 64
    else if i == 1
    then block_at 96
    else if i == 2
    then record { blk = λ j. 0; addr = 0; commit_tail = 5 }
    else zeroed

abbrev later_log : ℕ → LogEntry
later_log i = if i == 0 then block_at 128 else partly_cleared 1 committed_log i

interrupted_clear-stale_example :
    ((ul : UndoLog) × (init false true (partly_cleared 1 committed_log) ≡ some ul)
      × (ul.len ≡ 0)
      × ((i : ℕ) → (clear ul).log i ≡ partly_cleared 1 committed_log i))
    × ((ul : UndoLog) × (r : Recovered) × (init false true later_log ≡ some ul)
        × (recover everywhere ul zeros ≡ some r)
        × (r.tail ≡ some 4)
        × (r.table_committed ≡ true)
        × (r.memory ≡ zeros))
interrupted_clear-stale_example =
    interrupted_clear-stale committed_log later_log 2 1 4 everywhere zeros (omega arith)
      (omega arith) (omega arith) (λ i l. (ground arith, ground arith)) (refl, refl) refl
      (λ i l. (ground arith, ground arith)) (λ i l. ground arith)

-- A process with one page mapped, before and after a write of which one byte has left the cache.
abbrev fresh_process : Process
fresh_process = record {
  kept = below_4096;
  mapped = below_4096;
  committed = zeros;
  view = zeros;
  image = zeros;
  ul = empty_log;
}

abbrev written_process : Process
written_process = record fresh_process { view = sevens; ul = one_logged }

abbrev evicted_process : Process
evicted_process = record written_process { image = update zeros 65 (sevens 65) }

fresh_process-Inv : Inv fresh_process
fresh_process-Inv = record {
  undoable = empty-Undoable below_4096 zeros;
  intact = λ x k c. refl;
  new_fresh = λ x m k. cc;
  still_mapped = λ x k. k;
  bounded = λ x m. ground arith;
}

two_steps : Run true fresh_process evicted_process
two_steps =
    step fresh_process written_process evicted_process
      (write fresh_process 64 4 (λ i. 7) (omega arith) (omega arith)
        (let n = one_logged-len in omega arith))
      (step written_process evicted_process evicted_process (evict written_process 65)
        (stop evicted_process))

crash-atomic_example :
    Recovers true everywhere evicted_process.ul.log evicted_process.image none false below_4096
      zeros
    × ((s : Committing) × (commit 9 evicted_process.view evicted_process.image evicted_process.ul
          ≡ some s)
        × (s.drained ≡ (s.ul.log, s.image) ∷ (evicted_process.ul.log, s.image) ∷ [])
        × Recovers true everywhere evicted_process.ul.log s.image none false below_4096 zeros
        × Recovers true everywhere s.ul.log s.image (some 9) true below_4096 sevens)
crash-atomic_example =
    crash-atomic true fresh_process evicted_process everywhere 9 fresh_process-Inv two_steps
      one_logged-room (λ i l. refl)
