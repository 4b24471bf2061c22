-- ===== src/RegionManager/Tests.antt =====
-- The region manager at work on two regions.
use persimmon.Base.{ℕ, ◌+◌, ◌≤◌, ◌<◌, ◌≡◌, refl, true, false, none, some, arith, [], ◌∷◌}
use persimmon.Ranges.{find, includes}
use persimmon.Region.{Region, does_include, does_include_region}
use persimmon.RegionManager.{
  RegionManager, Directory, success, Outcome, recover, persist_new_region_table,
  commit_new_region_table, clear_new_region_table,
}
use persimmon.RegionManager.Managed.{held, Managed}
use persimmon.RegionManager.Unmap.{removed, RemovedBy, remove_region-Managed}
use persimmon.RegionManager.Table.{no_regions, persist_new_region_table-recover}

abbrev all_good : Outcome
all_good = record { random_id = 7; persisted = true; mapped = true; closed = true }

abbrev no_mmap : Outcome
no_mmap = record { random_id = 9; persisted = true; mapped = false; closed = true }

abbrev three_pages : Region
three_pages = record { base = 4096; size = 12288; file_id = 1 }

abbrev one_region : RegionManager
one_region = record { regions = three_pages ∷ []; rs = record { start = 4096; size = 12288 } ∷ [] }

one_region-Managed : Managed one_region
unfolding find includes does_include
one_region-Managed = record {
  apart = ((omega arith, omega arith), λ p i. refl, tt);
  coalesced = (omega arith, omega arith, tt);
  found = λ p h. ground arith;
}

beyond_one_region : (p : ℕ) → 65536 ≤ p → p < 65536 + 4096 → held one_region.regions p ≡ false
unfolding does_include
beyond_one_region p l h = ground arith

unheld : (p : ℕ) → does_include (removed 65536 4096) p ≡ true → held one_region.regions p ≡ false
unfolding does_include
unheld p i = ground arith

middle_page : does_include_region three_pages (removed 8192 4096) ≡ true
unfolding does_include_region does_include
middle_page = refl

-- The middle page goes, and the file for the last one cannot be mapped.
remove_region-Managed_example : RemovedBy 8192 4096 true no_mmap all_good one_region
remove_region-Managed_example =
    remove_region-Managed 8192 4096 (omega arith) (omega arith) true no_mmap all_good one_region
      three_pages 0 one_region-Managed refl middle_page

abbrev no_tables : Directory
no_tables = record { new_table = none; current_table = none }

persist_new_region_table-recover_example :
    ((mrm' : RegionManager) × (recover
          (commit_new_region_table true true (persist_new_region_table one_region no_tables)).1
          no_regions
        ≡ some mrm')
      × (mrm'.regions ≡ one_region.regions)
      × Managed mrm')
    × ((clear_new_region_table true true (persist_new_region_table one_region no_tables)).1
        ≡ no_tables)
persist_new_region_table-recover_example =
    persist_new_region_table-recover one_region no_tables one_region-Managed refl

abbrev one_table : Directory
one_table = record { new_table = some (three_pages ∷ []); current_table = none }

renames : (commit_new_region_table true true one_table).0 ≡ success
unfolding commit_new_region_table
renames = refl
