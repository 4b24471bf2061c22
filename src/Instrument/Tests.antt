-- ===== src/Instrument/Tests.antt =====
-- The client's hooks on a process with one region of three pages.
use persimmon.Base.{
  ℕ, ◌+◌, ◌≤◌, ◌<◌, ◌≡◌, refl, Bool, true, false, not, ◌&&◌, ◌||◌, leb, ltb, none, some, Memory,
  store, arith, [], ◌∷◌,
}
use persimmon.Ranges.{find, includes, insert}
use persimmon.UndoLog.{zeroed, to_uint}
use persimmon.UndoLog.Restore.{Undoable}
use persimmon.Region.{Region, does_include, does_include_region}
use persimmon.RegionManager.{Outcome}
use persimmon.RegionManager.Managed.{held, Managed}
use persimmon.RegionManager.Replace.{succeeds}
use persimmon.RegionManager.Unmap.{removed}
use persimmon.Instrument.{
  Client, instrument_commit, instrument_cleanup, munmap, event_pre_syscall, event_post_syscall,
}
use persimmon.Instrument.Ready.{IsReady, instrument_commit-IsReady}
use persimmon.Instrument.Hooks.{munmap-IsReady, mmap-IsReady}

abbrev zero_memory : Memory
zero_memory x = 0

abbrev low : ℕ → Bool
low x = ltb x 16384

abbrev three_pages_at : Region
three_pages_at = record { base = 4096; size = 12288; file_id = 1 }

abbrev client : Client
client = record {
  ul = record { log = λ i. zeroed; len = 0; logged_addrs_hash = λ slot. 0; fresh_regions = [] };
  mrm = record { regions = three_pages_at ∷ []; rs = record { start = 4096; size = 12288 } ∷ [] };
  directory = record { new_table = none; current_table = some [] };
  region_table_modified = true;
  should_commit = false;
  last_syscall = none;
  view = zero_memory;
  image = zero_memory;
}

abbrev mapping_client : Client
mapping_client = record client { last_syscall = some 4096 }

client-Undoable : Undoable low zero_memory zero_memory client.ul
unfolding find
client-Undoable = record {
  restores = λ m' x k c. cc;
  untouched = λ x k c. refl;
  entries = λ i l. absurd (omega arith);
  hashed = λ slot s. absurd (s refl);
  fresh = λ x w f. cc;
  coalesced = tt;
  blank = λ i l. refl;
}

client-Managed : Managed client.mrm
unfolding find includes does_include
client-Managed = record {
  apart = ((omega arith, omega arith), λ p i. refl, tt);
  coalesced = (omega arith, omega arith, tt);
  found = λ p h. ground arith;
}

client-IsReady : IsReady low zero_memory client
client-IsReady = record {
  undoable = client-Undoable;
  managed = client-Managed;
  no_new_table = refl;
}

mapping_client-IsReady : IsReady low zero_memory mapping_client
mapping_client-IsReady = record {
  undoable = client-Undoable;
  managed = client-Managed;
  no_new_table = refl;
}

abbrev granted : Outcome
granted = record { random_id = 7; persisted = true; mapped = true; closed = true }

page_beyond : (p : ℕ) → 65536 ≤ p → p < 65536 + 4096 → held mapping_client.mrm.regions p ≡ false
unfolding does_include
page_beyond p l h = ground arith

last_page : does_include_region three_pages_at (removed 12288 4096) ≡ true
unfolding does_include_region does_include
last_page = refl

munmap-IsReady_example :
    (through : Bool) × (c' : Client) × (event_pre_syscall true granted granted
        (munmap 12288 4096)
        client
      ≡ some (through, c'))
    × IsReady low zero_memory c'
    × ((true && (succeeds granted && succeeds granted)) ≡ true
        → (through ≡ false)
          × (c'.region_table_modified ≡ true)
          × ((p : ℕ)
              → held c'.mrm.regions p
                ≡ (held client.mrm.regions p && not (does_include (removed 12288 4096) p))))
munmap-IsReady_example =
    munmap-IsReady low zero_memory true granted granted 12288 4096 three_pages_at 0 client
      (omega arith) (omega arith) client-IsReady refl last_page

mmap-IsReady_example :
    (c' : Client) × (event_post_syscall granted 65536 mapping_client ≡ some c')
    × IsReady low zero_memory (record c' { view = store zero_memory 65536 4096 (λ i. 0) })
    × (c'.region_table_modified ≡ true)
    × (c'.last_syscall ≡ none)
    × (c'.ul.fresh_regions ≡ insert mapping_client.ul.fresh_regions 65536 (to_uint 4096))
    × ((p : ℕ)
        → held c'.mrm.regions p
          ≡ (held mapping_client.mrm.regions p || (leb 65536 p && ltb p (65536 + 4096))))
mmap-IsReady_example =
    mmap-IsReady low zero_memory granted 65536 4096 mapping_client (omega arith) (omega arith)
      mapping_client-IsReady refl refl page_beyond (λ x i. ground arith)

instrument_commit-IsReady_example :
    (c₁ : Client) × (c' : Client) × (instrument_commit 9 client ≡ some c₁)
    × (instrument_cleanup true true c₁ ≡ some c')
    × IsReady low zero_memory c'
    × (c'.region_table_modified ≡ false)
    × (c'.should_commit ≡ false)
    × (c'.directory.current_table ≡ some client.mrm.regions)
instrument_commit-IsReady_example =
    instrument_commit-IsReady low low zero_memory 9 client client-IsReady (omega arith)
