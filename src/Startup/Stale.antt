-- ===== src/Startup/Stale.antt =====
-- A start without recovery over the undo log file of an older run that has crashed.
use persimmon.Base.{
  ℕ, ◌<◌, ◌≡◌, ◌∙◌, refl, Bool, true, false, ◌&&◌, Option, none, some, [], Memory, arith,
}
use persimmon.RegionManager.{Directory, Outcome}
use persimmon.AddressSpace.{MemInfo}
use persimmon.AddressSpace.Scan.{IsQuery}
use persimmon.AddressSpace.Held.{private_at, IsReadable}
use persimmon.RegionManager.Replace.{succeeds}
use persimmon.UndoLog.{UndoLog, num_entries}
use persimmon.UndoLog.Restore.{covered, Undoable}
use persimmon.Instrument.{Client}
use persimmon.Recovery.{ℤ, pos, recovery_messages}
use persimmon.Startup.{dr_client_main}
use persimmon.Startup.Fresh.{start_calls, dr_client_main-started}
use persimmon.Startup.Recovered.{dr_client_main-restores}

-- The bytes that the log covers.
abbrev kept : (ℕ → Bool) → UndoLog → ℕ → Bool
kept keep ul x = keep x && covered ul.len ul.log x

kept-Undoable :
    (keep : ℕ → Bool) (m₀ m : Memory) (ul : UndoLog)
    → Undoable keep m₀ m ul
    → Undoable (kept keep ul) m₀ m ul
kept-Undoable keep m₀ m ul u = record {
  restores = λ m' x k c. u.restores m' x (ground arith) c;
  untouched = λ x k c. absurd (ground arith);
  entries = u.entries;
  hashed = u.hashed;
  fresh = λ x w f. let e = u.fresh x w f in ground arith;
  coalesced = u.coalesced;
  blank = u.blank;
}

-- When a run has crashed between two commits and the next run is started without recovery over its undo
-- log file, the log of the new client has length 0 but keeps the old entries. If that run crashes before
-- it has logged a block, the next recovery ends without an assertion and writes the old entries: each
-- byte of the older run's last commit that they hold is back, whatever the new run had there. This is
-- so if both starts succeed, the log is not full, and its blocks lie in private writable memory.
pub dr_client_main-stale :
    (is_dr_internal is_in_client : ℕ → Bool) (query : ℕ → Option MemInfo) (outcomes : ℕ → Outcome)
    (deduplicate : Bool) (recovered_tail : ℤ) (keep : ℕ → Bool) (m₀ m m' image : Memory)
    (ul : UndoLog) (directory : Directory) (top t : ℕ)
    → IsQuery query top
    → ((p : ℕ) (info : MemInfo) → query p ≡ some info → IsReadable is_dr_internal is_in_client info)
    → ((j : ℕ) → succeeds (outcomes j) ≡ true)
    → directory.new_table ≡ none
    → Undoable keep m₀ m ul
    → ul.len < num_entries
    → ((i : ℕ) → i < ul.len → private_at is_dr_internal is_in_client query (ul.log i).addr ≡ true)
    → let calls = start_calls is_dr_internal is_in_client query outcomes in
      (c : Client) × (c' : Client) × (dr_client_main deduplicate false recovered_tail calls ul.log
          m' directory
        ≡ some (c, []))
      × (c.ul.len ≡ 0)
      × (dr_client_main deduplicate true (pos t) calls c.ul.log image c.directory
          ≡ some (c', recovery_messages c'.mrm t))
      × ((x : ℕ) → keep x ≡ true → covered ul.len ul.log x ≡ true → c'.view x ≡ m₀ x)
dr_client_main-stale is_dr_internal is_in_client query outcomes deduplicate recovered_tail keep m₀ m
      m' image ul directory top t is readable ok no_new u full private =
    let (c, ul₀, run, cleared, entries, left, len, view, quiet, managed, holds, no_new', current) =
      dr_client_main-started is_dr_internal is_in_client query outcomes deduplicate recovered_tail
        ul.log m' directory top is readable ok no_new in
    let (c', run', ready, restored, regions) =
      dr_client_main-restores (kept keep ul) m₀ m image ul deduplicate
        (start_calls is_dr_internal is_in_client query outcomes) c.directory c.mrm.regions t
        (kept-Undoable keep m₀ m ul u) full refl refl current managed.apart
        (λ i l. holds _ ∙ private i l) (λ x k h. absurd (ground arith)) in
    (c, c', run, len, rw left run', λ x k h. restored x (ground arith))
