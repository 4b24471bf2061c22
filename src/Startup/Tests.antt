-- ===== src/Startup/Tests.antt =====
-- The starts of the client over a log of one block, of which a write has changed four bytes.
use persimmon.Base.{
  ℕ, ◌<◌, ◌≡◌, refl, subst, Bool, true, false, Option, none, some, List, [], ◌∷◌, ltb, ◌==◌, inside,
  if◌then◌else◌, Memory, store, arith,
}
use persimmon.Ranges
use persimmon.Ranges.Find.{find-clear, clear-Coalesced}
use persimmon.Region.{Region, does_include}
use persimmon.RegionManager.{Directory, Outcome}
use persimmon.RegionManager.Managed.{held, Apart}
use persimmon.AddressSpace.{MemInfo}
use persimmon.AddressSpace.Scan.{IsQuery}
use persimmon.AddressSpace.Held.{private_at, IsReadable}
use persimmon.UndoLog.{LogEntry, UndoLog, Committing, zeroed}
use persimmon.UndoLog
use persimmon.UndoLog.Restore.{covered, Undoable}
use persimmon.Instrument.{Client}
use persimmon.Instrument.Ready.{IsReady}
use persimmon.Recovery.{pos, negsuc, recovery_messages}
use persimmon.Startup.{StartCalls, dr_client_main, sent_tail}
use persimmon.Startup.Fresh.{start_calls, dr_client_main-fresh}
use persimmon.Startup.Recovered.{everywhere, dr_client_main-restores, dr_client_main-resumes}
use persimmon.Startup.Stale.{dr_client_main-stale}

abbrev pages : MemInfo
pages = record {
  base_pc = 0;
  size = 8192;
  free = false;
  read = true;
  write = true;
  exec = false;
  vdso = false;
  stack = false;
  shared = false;
  pretend_write = false;
}

abbrev stack_pages : MemInfo
stack_pages = record pages { base_pc = 8192; size = 4096; stack = true }

abbrev query : ℕ → Option MemInfo
query p = if ltb p 8192 then some pages else if ltb p 12288 then some stack_pages else none

query-IsQuery : IsQuery query 12288
query-IsQuery = record {
  bounded = omega arith;
  total = λ p l e. ground arith;
  around = λ p info e. ground arith;
  same = λ p q info e i. ground arith;
}

abbrev nowhere : ℕ → Bool
nowhere p = false

abbrev all_succeed : ℕ → Outcome
all_succeed j = record { random_id = j; persisted = true; mapped = true; closed = true }

readable : (p : ℕ) (info : MemInfo) → query p ≡ some info → IsReadable nowhere nowhere info
readable p info e i = ground arith

abbrev calls : StartCalls
calls = start_calls nowhere nowhere query all_succeed

abbrev no_tables : Directory
no_tables = record { new_table = none; current_table = none }

abbrev table : List Region
table = record { base = 0; size = 8192; file_id = 5 } ∷ []

table-Apart : Apart table
table-Apart = ((omega arith, omega arith), λ p i. refl, tt)

-- A commit has begun to persist a new table.
abbrev two_tables : Directory
two_tables = record { new_table = some []; current_table = some table }

abbrev changed_table : Directory
changed_table = record { new_table = some table; current_table = none }

abbrev zeros : Memory
zeros x = 0

abbrev sevens : Memory
sevens x = if inside 64 4 x then 7 else 0

abbrev one_block : ℕ → LogEntry
one_block i = if i == 0 then record { blk = λ j. 0; addr = 64; commit_tail = 0 } else zeroed

abbrev one_logged : UndoLog
one_logged = record {
  log = one_block;
  len = 1;
  logged_addrs_hash = λ slot. 0;
  fresh_regions = Ranges.clear [];
}

one_logged-Undoable : Undoable everywhere zeros sevens one_logged
unfolding store
one_logged-Undoable = record {
  restores = λ m' x k c. ground arith;
  untouched = λ x k c. ground arith;
  entries = λ i l. ground arith;
  hashed = λ slot s. absurd (s refl);
  fresh = λ x w f. let e = find-clear [] x in cc;
  coalesced = clear-Coalesced [];
  blank = λ i l. ground arith;
}

logged : (i : ℕ) → i < 1 → held table (one_block i).addr ≡ true
unfolding does_include
logged i l = ground arith

private_logged : (i : ℕ) → i < 1 → private_at nowhere nowhere query (one_block i).addr ≡ true
private_logged i l =
    subst (λ k. private_at nowhere nowhere query (one_block k).addr ≡ true)
      (let z : 0 ≡ i = omega arith in z) refl

unset_tail : sent_tail (negsuc 0) none ≡ none
unfolding sent_tail
unset_tail = refl

dr_client_main-fresh_example :
    (c : Client) × (dr_client_main true false (negsuc 0) calls (λ i. zeroed) sevens no_tables
      ≡ some (c, []))
    × IsReady everywhere sevens c
    × (c.view ≡ sevens)
    × (c.should_commit ≡ false)
    × ((p : ℕ) → held c.mrm.regions p ≡ private_at nowhere nowhere query p)
    × (c.directory.current_table ≡ some c.mrm.regions)
dr_client_main-fresh_example =
    dr_client_main-fresh nowhere nowhere query all_succeed true (negsuc 0) (λ i. zeroed) sevens
      no_tables 12288 everywhere (λ i. refl) query-IsQuery readable (λ j. refl) refl

dr_client_main-restores_example :
    (c : Client) × (dr_client_main true true (pos 3) calls one_block sevens two_tables
      ≡ some (c, recovery_messages c.mrm 3))
    × IsReady everywhere c.view c
    × ((x : ℕ) → everywhere x ≡ true → c.view x ≡ zeros x)
    × (c.mrm.regions ≡ table)
dr_client_main-restores_example =
    dr_client_main-restores everywhere zeros sevens sevens one_logged true calls two_tables table 3
      one_logged-Undoable (omega arith) refl refl refl table-Apart logged
      (λ x k c. one_logged-Undoable.untouched x k c)

dr_client_main-resumes_example :
    (s : Committing) × (c : Client) × (UndoLog.commit 9 sevens zeros one_logged ≡ some s)
    × (dr_client_main true true (pos 3) calls s.ul.log sevens changed_table
        ≡ some (c, recovery_messages c.mrm 9))
    × IsReady everywhere c.view c
    × (c.view ≡ sevens)
    × (c.mrm.regions ≡ table)
    × (c.directory.current_table ≡ some table)
dr_client_main-resumes_example =
    dr_client_main-resumes everywhere zeros sevens zeros one_logged true calls changed_table table
      sevens (pos 3) 9 one_logged-Undoable (omega arith) refl refl refl table-Apart

dr_client_main-stale_example :
    (c : Client) × (c' : Client) × (dr_client_main true false
        (negsuc 0)
        calls
        one_block
        sevens
        no_tables
      ≡ some (c, []))
    × (c.ul.len ≡ 0)
    × (dr_client_main true true (pos 3) calls c.ul.log sevens c.directory
        ≡ some (c', recovery_messages c'.mrm 3))
    × ((x : ℕ) → everywhere x ≡ true → covered 1 one_block x ≡ true → c'.view x ≡ zeros x)
dr_client_main-stale_example =
    dr_client_main-stale nowhere nowhere query all_succeed true (negsuc 0) everywhere zeros sevens
      sevens sevens one_logged no_tables 12288 3 query-IsQuery readable (λ j. refl) refl
      one_logged-Undoable (omega arith) private_logged
