-- ===== src/Startup/Recovered.antt =====
-- The start of the client that recovers, after a crash between two commits.
use persimmon.Base.{ℕ, ◌+◌, ◌<◌, ◌≡◌, refl, ◌∙◌, sym, Bool, true, false, some, List, Memory}
use persimmon.Region.{Region}
use persimmon.RegionManager.{
  Directory, does_manage, clear_new_region_table, commit_new_region_table,
}
use persimmon.RegionManager.Managed.{held, Apart}
use persimmon.RegionManager.Table.{
  recover-Managed, clear_new_region_table-clears, commit_new_region_table-latest, latest,
}
use persimmon.UndoLog.{LogEntry, UndoLog, Committing, num_entries, ends_in_commit, Recovered}
use persimmon.UndoLog
use persimmon.UndoLog.Restore.{covered, Undoable}
use persimmon.UndoLog.Commit.{commit-succeeds}
use persimmon.UndoLog.Recover.{recover-restores, recover-committed, recover-table_committed}
use persimmon.Instrument.{Client}
use persimmon.Instrument.Ready.{IsReady}
use persimmon.Recovery.{ℤ, pos, recovery_messages}
use persimmon.Startup.{StartCalls, undo_log_recover, sent_tail, start_client, dr_client_main}

abbrev pub everywhere : ℕ → Bool
everywhere x = true

module _ (keep : ℕ → Bool) (m₀ m image : Memory) (ul : UndoLog) (deduplicate : Bool)
    (calls : StartCalls) (directory : Directory) (table : List Region) where
  -- After a crash between two commits, whatever part of the later writes has reached persistent memory,
  -- the start of the client with recovery ends without an assertion and sends the foreground the regions
  -- of the table and the tail of the command log. The client is then ready, every byte of the last commit has
  -- its value at that commit, and the manager has the regions of the last committed table, whatever was
  -- in a new one. This is so if the calls for the region table succeed, the regions of the committed table
  -- are apart, the log is not full, the logged blocks lie in those regions, and the image holds that
  -- commit outside of the logged blocks.
  pub dr_client_main-restores :
      (t : ℕ)
      → Undoable keep m₀ m ul
      → ul.len < num_entries
      → calls.table_moved ≡ true
      → calls.table_synced ≡ true
      → directory.current_table ≡ some table
      → Apart table
      → ((i : ℕ) → i < ul.len → held table (ul.log i).addr ≡ true)
      → ((x : ℕ) → keep x ≡ true → covered ul.len ul.log x ≡ false → image x ≡ m₀ x)
      → (c : Client) × (dr_client_main deduplicate true (pos t) calls ul.log image directory
          ≡ some (c, recovery_messages c.mrm t))
        × IsReady everywhere c.view c
        × ((x : ℕ) → keep x ≡ true → c.view x ≡ m₀ x)
        × (c.mrm.regions ≡ table)
  unfolding dr_client_main undo_log_recover sent_tail start_client
  dr_client_main-restores t u full moved synced current apart logged intact =
      let (no_new, same) = clear_new_region_table-clears directory in
      let directory' = (clear_new_region_table true true directory).1 in
      let (mrm, read, regions, managed, manages) =
        recover-Managed directory' table (same ∙ current) apart in
      let (ul', r, started, recovered, no_tail, uncommitted, restored, ready) =
        recover-restores keep m₀ m image ul deduplicate (does_manage mrm) u full
          (λ i l. manages _ (logged i l)) intact in
      let unfinished : ends_in_commit ul' ≡ false =
        sym (recover-table_committed (does_manage mrm) ul' image r recovered) ∙ uncommitted in
      (
        start_client r.ul mrm directory' r.memory,
        rw (started, moved, synced, unfinished, read, recovered, no_tail) refl,
        record { undoable = ready; managed = managed; no_new_table = no_new },
        restored,
        regions,
      )

  -- After a crash between the commit of a tail and the cleanup behind it, the start of the client with
  -- recovery ends without an assertion and sends the foreground the tail of the commit and the regions of
  -- the table that the commit persisted, or else of the old one, wherever the rename of the new one was
  -- interrupted. The client is then ready, with the memory that the image holds. This is so if the calls for the
  -- region table succeed, the regions of that table are apart, and the log has room for one more entry than
  -- the commit record, so that the assertion of the commit holds.
  pub dr_client_main-resumes :
      (image' : Memory) (recovered_tail : ℤ) (t : ℕ)
      → Undoable keep m₀ m ul
      → ul.len + 1 < num_entries
      → calls.table_moved ≡ true
      → calls.table_synced ≡ true
      → latest directory ≡ some table
      → Apart table
      → (s : Committing) × (c : Client) × (UndoLog.commit t m image ul ≡ some s)
        × (dr_client_main deduplicate true recovered_tail calls s.ul.log image' directory
            ≡ some (c, recovery_messages c.mrm t))
        × IsReady everywhere c.view c
        × (c.view ≡ image')
        × (c.mrm.regions ≡ table)
        × (c.directory.current_table ≡ some table)
  unfolding dr_client_main undo_log_recover sent_tail start_client
  dr_client_main-resumes image' recovered_tail t u full moved synced current apart =
      let (no_new, newest) = commit_new_region_table-latest directory in
      let directory' = (commit_new_region_table true true directory).1 in
      let (mrm, read, regions, managed, manages) =
        recover-Managed directory' table (newest ∙ current) apart in
      let (ul', r, started, recovered, the_tail, committed, restored, ready) =
        recover-committed keep m₀ m image' ul deduplicate (does_manage mrm) t u full in
      let finished : ends_in_commit ul' ≡ true =
        sym (recover-table_committed (does_manage mrm) ul' image' r recovered) ∙ committed in
      let (s, e, p) = commit-succeeds t m image ul full in
      (
        s,
        start_client r.ul mrm directory' r.memory,
        e,
        rw (p.ul_is, started, moved, synced, finished, read, recovered, the_tail) refl,
        record { undoable = rw restored ready; managed = managed; no_new_table = no_new },
        restored,
        regions,
        newest ∙ current,
      )
