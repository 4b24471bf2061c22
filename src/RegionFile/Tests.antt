-- ===== src/RegionFile/Tests.antt =====
-- A region written in pieces of three bytes, and read back.
use persimmon.Base.{
  ℕ, ◌+◌, ◌*◌, ◌<◌, ◌≡◌, ◌≢◌, true, false, none, some, [], ◌∷◌, ltb, Memory, inside, arith,
  if◌then◌else◌,
}
use persimmon.Region.{Region}
use persimmon.RegionFile.{File, write_all, persist_region, ok, failed, load_region, eagain}
use persimmon.RegionFile.Persist.{results, IsKernel, persist_region-copies}
use persimmon.RegionFile.Load.{loads, max_read, persist_region-load_region, load_region-too_large}

abbrev by_three : ℕ → ℕ
by_three n = if ltb n 3 then n else 3

by_three-IsKernel : IsKernel by_three
by_three-IsKernel n l = (ground arith, ground arith)

abbrev squares : Memory
squares x = x * x

abbrev sevens : Memory
sevens x = 7

abbrev small : Region
small = record { base = 4096; size = 8; file_id = 1 }

abbrev large : Region
large = record { base = 4096; size = 2147483648; file_id = 2 }

-- A write that fails after another.
fails :
    persist_region
      (record { opened = true; written = 3 ∷ 0 ∷ []; file_synced = true; directory_synced = true })
      sevens
      4096
      8
    ≢ none
unfolding persist_region write_all
fails e = cc

persist_region-copies_example :
    (f : File) × (persist_region
        (record {
          opened = true;
          written = results by_three 8 8;
          file_synced = false;
          directory_synced = true;
        })
        squares
        4096
        8
      ≡ some (true, some f))
    × (f.size ≡ 8)
    × ((i : ℕ) → i < 8 → f.bytes i ≡ squares (4096 + i))
    × (f.synced ≡ false)
persist_region-copies_example =
    persist_region-copies by_three false true squares 4096 8 by_three-IsKernel (omega arith)

persist_region-load_region_example :
    (f : File) × (loaded : Memory) × (persist_region
        (record {
          opened = true;
          written = results by_three small.size small.size;
          file_synced = true;
          directory_synced = true;
        })
        squares
        small.base
        small.size
      ≡ some (true, some f))
    × (load_region (loads small.size) f small sevens ≡ ok loaded)
    × ((x : ℕ) → inside small.base small.size x ≡ true → loaded x ≡ squares x)
    × ((x : ℕ) → inside small.base small.size x ≡ false → loaded x ≡ sevens x)
persist_region-load_region_example =
    persist_region-load_region by_three true squares sevens small by_three-IsKernel (omega arith)

load_region-too_large_example :
    (f : File) × (persist_region
        (record {
          opened = true;
          written = results by_three large.size large.size;
          file_synced = true;
          directory_synced = true;
        })
        squares
        large.base
        large.size
      ≡ some (true, some f))
    × (load_region (loads max_read) f large sevens ≡ failed eagain)
load_region-too_large_example =
    load_region-too_large by_three squares sevens large max_read by_three-IsKernel (omega arith)
      (omega arith) (omega arith)
