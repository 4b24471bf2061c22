-- ===== src/Startup/Fresh.antt =====
-- The start of the client without a recovery, and what is left of an older undo log.
use persimmon.Base.{ℕ, ◌≡◌, refl, Bool, true, false, none, some, [], Memory, Option}
use persimmon.RegionManager.{Directory, Outcome}
use persimmon.RegionManager.Managed.{held, Managed}
use persimmon.AddressSpace.{MemInfo, should_replace}
use persimmon.AddressSpace.Scan.{IsQuery}
use persimmon.AddressSpace.Held.{private_at, IsReadable, init_address_space-holds}
use persimmon.RegionManager.Replace.{succeeds}
use persimmon.UndoLog.{LogEntry, UndoLog, is_null}
use persimmon.UndoLog
use persimmon.UndoLog.Restore.{Undoable}
use persimmon.UndoLog.Recover.{init-fresh, clear-Undoable}
use persimmon.Instrument.{Client}
use persimmon.Instrument.Ready.{IsReady}
use persimmon.Recovery.{ℤ}
use persimmon.Startup.{StartCalls, start_client, dr_client_main}

module _ (is_dr_internal is_in_client : ℕ → Bool) (query : ℕ → Option MemInfo)
    (outcomes : ℕ → Outcome) where
  -- The calls of a start in which those for the region table succeed.
  abbrev pub start_calls : StartCalls
  start_calls = record {
    table_moved = true;
    table_synced = true;
    query = query;
    pick = should_replace is_dr_internal is_in_client;
    outcomes = outcomes;
  }

  -- What a start without recovery gives, whatever the entries of the undo log file.
  pub dr_client_main-started :
      (deduplicate : Bool) (recovered_tail : ℤ) (log : ℕ → LogEntry) (m : Memory)
      (directory : Directory) (top : ℕ)
      → IsQuery query top
      → ((p : ℕ) (info : MemInfo)
          → query p ≡ some info
          → IsReadable is_dr_internal is_in_client info)
      → ((j : ℕ) → succeeds (outcomes j) ≡ true)
      → directory.new_table ≡ none
      → (c : Client) × (ul : UndoLog) × (dr_client_main deduplicate false recovered_tail start_calls
            log m directory
          ≡ some (c, []))
        × (c.ul ≡ UndoLog.clear ul)
        × (ul.log ≡ log)
        × (c.ul.log ≡ log)
        × (c.ul.len ≡ 0)
        × (c.view ≡ m)
        × (c.should_commit ≡ false)
        × Managed c.mrm
        × ((p : ℕ) → held c.mrm.regions p ≡ private_at is_dr_internal is_in_client query p)
        × (c.directory.new_table ≡ none)
        × (c.directory.current_table ≡ some c.mrm.regions)
  unfolding dr_client_main start_client
  dr_client_main-started deduplicate recovered_tail log m directory top is readable ok no_new =
      let (infos, mrm, directory', e, managed, holds, same, no_new', current) =
        init_address_space-holds is_dr_internal is_in_client query top outcomes directory is
          readable ok no_new in
      let (ul, started, entries, left, none_left) = init-fresh deduplicate log in
      (
        start_client (UndoLog.clear ul) mrm directory' m,
        ul,
        rw (started, e) refl,
        refl,
        entries,
        left,
        none_left,
        refl,
        refl,
        managed,
        holds,
        no_new',
        current,
      )

  -- A first start whose undo log file is blank, whose system calls succeed, and whose private writable
  -- memory is readable, ends without an assertion and sends nothing to the foreground. The client is then
  -- ready, with a log that can undo to the memory as it is and no request to commit; the regions of its
  -- manager hold the private writable memory and no other, and the region table lists them.
  pub dr_client_main-fresh :
      (deduplicate : Bool) (recovered_tail : ℤ) (log : ℕ → LogEntry) (m : Memory)
      (directory : Directory) (top : ℕ) (keep : ℕ → Bool)
      → ((i : ℕ) → is_null (log i) ≡ true)
      → IsQuery query top
      → ((p : ℕ) (info : MemInfo)
          → query p ≡ some info
          → IsReadable is_dr_internal is_in_client info)
      → ((j : ℕ) → succeeds (outcomes j) ≡ true)
      → directory.new_table ≡ none
      → (c : Client) × (dr_client_main deduplicate false recovered_tail start_calls log m directory
          ≡ some (c, []))
        × IsReady keep m c
        × (c.view ≡ m)
        × (c.should_commit ≡ false)
        × ((p : ℕ) → held c.mrm.regions p ≡ private_at is_dr_internal is_in_client query p)
        × (c.directory.current_table ≡ some c.mrm.regions)
  dr_client_main-fresh deduplicate recovered_tail log m directory top keep b is readable ok no_new =
      let (
        c, ul, run, cleared, entries, left, none_left, view, quiet, managed, holds, no_new',
        current,
      ) =
        dr_client_main-started deduplicate recovered_tail log m directory top is readable ok
          no_new in
      let empty : Undoable keep m m (UndoLog.clear ul) =
        clear-Undoable keep m ul (rw entries (λ i l. b i)) in
      (
        c,
        run,
        record { undoable = rw (cleared, view) empty; managed = managed; no_new_table = no_new' },
        view,
        quiet,
        holds,
        current,
      )
