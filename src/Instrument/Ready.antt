-- ===== src/Instrument/Ready.antt =====
-- The invariant of the client between two calls, and the commit with the cleanup behind it.
use persimmon.Base.{
  ℕ, ◌≡◌, refl, Bool, true, false, if◌then◌else◌, Option, none, some, ◌>>=◌, ◌+◌, ◌<◌, ap, Memory,
}
use persimmon.UndoLog.{UndoLog, Committing, num_entries}
use persimmon.UndoLog
use persimmon.UndoLog.Restore.{Undoable}
use persimmon.UndoLog.Clear.{post_commit_cleanup-Undoable}
use persimmon.RegionManager.{
  RegionManager, Directory, persist_new_region_table, commit_new_region_table,
}
use persimmon.RegionManager.Managed.{Managed}
use persimmon.RegionManager.Table.{committed-table}
use persimmon.Instrument.{Client, instrument_commit, instrument_cleanup}

-- The undo log can undo to `m₀`, the manager's regions are apart and managed, and no new region
-- table is left over.
pub record IsReady (keep : ℕ → Bool) (m₀ : Memory) (c : Client) : Type 0 where
  pub undoable : Undoable keep m₀ c.view c.ul
  pub managed : Managed c.mrm
  pub no_new_table : c.directory.new_table ≡ none

tables :
    (modified : Bool) (mrm : RegionManager) (d : Directory)
    → d.new_table ≡ none
    → let d' =
        if modified
        then (commit_new_region_table true true
            (if modified then persist_new_region_table mrm d else d)).1
        else (if modified then persist_new_region_table mrm d else d) in
      (d'.new_table ≡ none)
      × (d'.current_table ≡ (if modified then some mrm.regions else d.current_table))
tables true mrm d e = committed-table mrm d e
tables false mrm d e = (e, refl)

-- `instrument_commit` does to the undo log what `undo_log_commit` does, and so does the cleanup.
pub instrument_commit-Committing :
    (tail : ℕ) (c : Client) (s : Committing)
    → UndoLog.commit tail c.view c.image c.ul ≡ some s
    → (c₁ : Client) × (instrument_commit tail c ≡ some c₁)
      × (c₁.ul ≡ s.ul)
      × (c₁.image ≡ s.image)
      × (c₁.view ≡ c.view)
unfolding instrument_commit
instrument_commit-Committing tail c s e = (
  _,
  ap
      (λ (o : Option Committing). o >>= λ s. some (record c {
        ul = s.ul;
        image = s.image;
        directory =
            if c.region_table_modified
            then persist_new_region_table c.mrm c.directory
            else c.directory;
      }))
      e,
  refl,
  refl,
  refl,
)

pub instrument_cleanup-UndoLog :
    (c : Client) (ul : UndoLog)
    → UndoLog.post_commit_cleanup c.ul ≡ some ul
    → (c₁ : Client) × (instrument_cleanup true true c ≡ some c₁)
      × (c₁.ul ≡ ul)
      × (c₁.image ≡ c.image)
unfolding instrument_cleanup
instrument_cleanup-UndoLog c ul e = (
  _,
  ap
      (λ (o : Option UndoLog). o >>= λ ul. some (record c {
        ul = ul;
        directory =
            if c.region_table_modified
            then (commit_new_region_table true true c.directory).1
            else c.directory;
        region_table_modified = false;
      }))
      e,
  refl,
  refl,
)

-- A commit with its cleanup, when the calls for the region table succeed and the log has room for one more
-- entry than the commit record, raises no assertion: it
-- makes the memory as the process sees it the one that the log can undo to, leaves no new region
-- table and no modification to persist, keeps the request to commit, and leaves the current region table as it was, or, if the
-- regions were modified, with the regions of the manager.
pub instrument_commit-IsReady :
    (keep keep' : ℕ → Bool) (m₀ : Memory) (tail : ℕ) (c : Client)
    → IsReady keep m₀ c
    → c.ul.len + 1 < num_entries
    → (c₁ : Client) × (c' : Client) × (instrument_commit tail c ≡ some c₁)
      × (instrument_cleanup true true c₁ ≡ some c')
      × IsReady keep' c.view c'
      × (c'.region_table_modified ≡ false)
      × (c'.should_commit ≡ c.should_commit)
      × (c'.directory.current_table
          ≡ (if c.region_table_modified then some c.mrm.regions else c.directory.current_table))
unfolding instrument_commit instrument_cleanup
instrument_commit-IsReady keep keep' m₀ tail c h room =
    let (s, ul, committed, e, len, u) =
      post_commit_cleanup-Undoable keep keep' m₀ c.view c.image c.ul tail h.undoable room in
    let (no_new, current) = tables c.region_table_modified c.mrm c.directory h.no_new_table in
    let written =
      if c.region_table_modified then persist_new_region_table c.mrm c.directory else c.directory in
    (
      record c { ul = s.ul; image = s.image; directory = written },
      record c {
        ul = ul;
        image = s.image;
        directory =
            if c.region_table_modified
            then (commit_new_region_table true true written).1
            else written;
        region_table_modified = false;
      },
      rw committed refl,
      rw e refl,
      record { undoable = u; managed = h.managed; no_new_table = no_new },
      refl,
      refl,
      current,
    )
