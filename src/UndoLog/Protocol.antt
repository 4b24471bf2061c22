-- ===== src/UndoLog/Protocol.antt =====
-- A crash of the background process, between two operations or in a commit, and the recovery behind it.
use persimmon.Base.{
  ℕ, ◌+◌, ◌<◌, ◌≡◌, subst, ◌∙◌, sym, ap, Bool, true, false, Option, none, some, [], ◌∷◌, arith,
  Memory,
}
use persimmon.UndoLog.{
  LogEntry, UndoLog, Recovered, num_entries, flush_logged, append_commit_record, Committing, commit,
  init, recover,
}
use persimmon.UndoLog.Restore.{covered, Undoable}
use persimmon.UndoLog.Commit.{commit-succeeds}
use persimmon.UndoLog.Recover.{recover-restores, recover-committed, recover-len}
use persimmon.UndoLog.Run.{Process, Run, Inv, committed-persists, Run-Inv}

-- The recovery, over the log and the memory that persistent memory holds: it returns `found`, says `table`
-- of the new region table, gives the kept bytes their value in `m`, and empties the log.
abbrev pub Recovers :
    Bool → (ℕ → Bool) → (ℕ → LogEntry) → Memory → Option ℕ → Bool → (ℕ → Bool) → Memory → Type 0
Recovers deduplicate does_manage log image found table kept m =
    (ul : UndoLog) × (r : Recovered) × (init deduplicate true log ≡ some ul)
    × (recover does_manage ul image ≡ some r)
    × (r.tail ≡ found)
    × (r.table_committed ≡ table)
    × ((x : ℕ) → kept x ≡ true → r.memory x ≡ m x)
    × (r.ul.len ≡ 0)
    × Undoable (λ x. true) r.memory r.memory r.ul

recovers-restored :
    (deduplicate : Bool) (q : Process) (does_manage : ℕ → Bool)
    → Undoable q.kept q.committed q.view q.ul
    → q.ul.len < num_entries
    → ((i : ℕ) → i < q.ul.len → does_manage (q.ul.log i).addr ≡ true)
    → (image : Memory)
    → ((x : ℕ) → q.kept x ≡ true → covered q.ul.len q.ul.log x ≡ false → image x ≡ q.committed x)
    → Recovers deduplicate does_manage q.ul.log image none false q.kept q.committed
recovers-restored deduplicate q does_manage u room managed image intact =
    let (ul, r, started, recovered, tail_is, table, memory, undoable) =
      recover-restores q.kept q.committed q.view image q.ul deduplicate does_manage u room managed
        intact in
    (
      ul,
      r,
      started,
      recovered,
      tail_is,
      table,
      memory,
      recover-len does_manage ul image r recovered,
      undoable,
    )

recovers-committed :
    (deduplicate : Bool) (q : Process) (does_manage : ℕ → Bool) (tail : ℕ) (image : Memory)
    → Undoable q.kept q.committed q.view q.ul
    → q.ul.len + 1 < num_entries
    → ((x : ℕ) → q.mapped x ≡ true → image x ≡ q.view x)
    → Recovers deduplicate does_manage
        (append_commit_record tail q.ul).log
        image
        (some tail)
        true
        q.mapped
        q.view
recovers-committed deduplicate q does_manage tail image u room same =
    let (ul, r, started, recovered, tail_is, table, memory, undoable) =
      recover-committed q.kept q.committed q.view image q.ul deduplicate does_manage tail u room in
    (
      ul,
      r,
      started,
      recovered,
      tail_is,
      table,
      λ x m. ap (λ (f : Memory). f x) memory ∙ same x m,
      recover-len does_manage ul image r recovered,
      subst (λ m. Undoable (λ x. true) m m r.ul) (sym memory) undoable,
    )

-- A crash between two operations of any run is atomic, and so is one in the commit that comes next, at its
-- first drain or behind it. Up to the first drain of the commit, the restart and the recovery return no
-- tail, drop the new region table, and give every byte that the last commit kept the value it had
-- then. Behind the commit record, and before the cleanup, they return the tail of that commit and commit the new
-- region table, and every mapped byte has the value it had at that commit. Each time the log is
-- empty again and can undo to the recovered memory. This is so for a run from a state that meets the
-- invariant, whose writes lie behind the first block of the address space and before the last one and find
-- room in the log, whose mappings are smaller than 4 GiB, and whose commits find room for their
-- record; the log must have room for one more entry than a commit record, and the logged blocks
-- must lie in managed regions.
pub crash-atomic :
    (deduplicate : Bool) (p q : Process) (does_manage : ℕ → Bool) (tail : ℕ)
    → Inv p
    → Run deduplicate p q
    → q.ul.len + 1 < num_entries
    → ((i : ℕ) → i < q.ul.len → does_manage (q.ul.log i).addr ≡ true)
    → Recovers deduplicate does_manage q.ul.log q.image none false q.kept q.committed
      × ((s : Committing) × (commit tail q.view q.image q.ul ≡ some s)
          × (s.drained ≡ (s.ul.log, s.image) ∷ (q.ul.log, s.image) ∷ [])
          × Recovers deduplicate does_manage q.ul.log s.image none false q.kept q.committed
          × Recovers deduplicate does_manage s.ul.log s.image (some tail) true q.mapped q.view)
crash-atomic deduplicate p q does_manage tail start run room managed =
    let h = Run-Inv deduplicate p q run start in
    let (s, e, c) = commit-succeeds tail q.view q.image q.ul room in
    let old = recovers-restored deduplicate q does_manage h.undoable (omega arith) managed in
    (
      old q.image h.intact,
      (
        s,
        e,
        c.drained_is,
        old s.image (λ x k not_logged.
            ap (λ (f : Memory). f x) c.image_is
            ∙ committed-persists q h x (h.still_mapped x k)
            ∙ h.undoable.untouched x k not_logged),
        rw (c.ul_is, c.image_is)
            (recovers-committed deduplicate q does_manage tail (flush_logged q.view q.ul q.image)
              h.undoable room (committed-persists q h)),
      ),
    )
