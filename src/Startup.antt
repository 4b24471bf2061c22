-- ===== src/Startup.antt =====
-- src/undo/instrument.cc: `dr_client_main` up to the initialisation of DynamoRIO's extensions, with
-- `undo_log_recover` of src/undo/undo_log.h over the region table. What a system call gives back is
-- an argument; `none` is a failed DR_ASSERT. The byte that the foreground answers is in `Recovery`.

pub mod Fresh
pub mod Recovered
pub mod Stale
mod Tests
use persimmon.Base.{
  ℕ, Bool, true, false, if◌then◌else◌, Option, none, some, ◌>>=◌, List, [], Memory,
}
use persimmon.UndoLog.{LogEntry, UndoLog, ends_in_commit}
use persimmon.UndoLog
use persimmon.RegionManager.{
  RegionManager, Directory, Outcome, does_manage, commit_new_region_table, clear_new_region_table,
}
use persimmon.RegionManager
use persimmon.AddressSpace.{MemInfo, init_address_space}
use persimmon.Instrument.{Client}
use persimmon.Recovery.{ℤ, pos, negsuc, Message, recovery_messages}

-- What the system gives back: whether the two calls for the region table succeed, what DynamoRIO
-- says of the address space and of what to replace in it, and the outcomes of the replacements.
pub record StartCalls : Type 0 where
  pub table_moved : Bool
  pub table_synced : Bool
  pub query : ℕ → Option MemInfo
  pub pick : MemInfo → Option Bool
  pub outcomes : ℕ → Outcome

-- `new mem_region_manager(...)`
abbrev pub new_manager : RegionManager
new_manager = record { regions = []; rs = [] }

-- `undo_log_recover`, where `image` is the memory that persistent memory holds.
pub undo_log_recover :
    StartCalls
    → UndoLog
    → Memory
    → Directory
    → RegionManager
    → Option (UndoLog.Recovered × (RegionManager × Directory))
undo_log_recover calls ul image directory mrm =
    let directory' =
      if ends_in_commit ul
      then (commit_new_region_table calls.table_moved calls.table_synced directory).1
      else (clear_new_region_table calls.table_moved calls.table_synced directory).1 in
    (do
      mrm' ← RegionManager.recover directory' mrm
      r ← UndoLog.recover (does_manage mrm') ul image
      some (r, (mrm', directory')))

-- The tail that is sent, where the argument was set to that of the command log.
pub sent_tail : ℤ → Option ℕ → Option ℕ
sent_tail recovered_tail (some tail) = some tail
sent_tail (pos tail) none = some tail
sent_tail (negsuc n) none = none

-- The client at the end, in the memory `m`, and what it has sent to the foreground.
pub start_client : UndoLog → RegionManager → Directory → Memory → Client
start_client ul mrm directory m = record {
  ul = ul;
  mrm = mrm;
  directory = directory;
  region_table_modified = false;
  should_commit = false;
  last_syscall = none;
  view = m;
  image = m;
}

-- `dr_client_main`, with `instrument_args.recovered` and `recovered_tail`, over the entries of the
-- undo log file, the memory and the files of the region table.
pub dr_client_main :
    Bool
    → Bool
    → ℤ
    → StartCalls
    → (ℕ → LogEntry)
    → Memory
    → Directory
    → Option (Client × List Message)
unfolding sent_tail start_client undo_log_recover
dr_client_main deduplicate true recovered_tail calls log m directory = do
  ul ← UndoLog.init deduplicate true log
  (r, (mrm, directory')) ← undo_log_recover calls ul m directory new_manager
  tail ← sent_tail recovered_tail r.tail
  some (start_client r.ul mrm directory' r.memory, recovery_messages mrm tail)
dr_client_main deduplicate false recovered_tail calls log m directory = do
  ul ← UndoLog.init deduplicate false log
  (prots, (mrm, directory')) ←
      init_address_space calls.query calls.pick calls.outcomes calls.table_moved calls.table_synced
        new_manager directory
  some (start_client ul mrm directory' m, [])
