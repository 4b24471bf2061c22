-- ===== src/RegionFile/Load.antt =====
-- A region that is read back: after the fall of the process that wrote it, and what cannot be.
use persimmon.Base.{
  ℕ, ◌+◌, ◌-◌, ◌≤◌, ◌<◌, ◌≡◌, refl, ap, ◌∙◌, Bool, true, false, some, word, Memory, inside, fill,
  store, arith,
}
use persimmon.Region.{Region}
use persimmon.RegionFile.{File, persist_region, ok, failed, LoadCalls, load_region, eagain}
use persimmon.RegionFile.Persist.{results, IsKernel, persist_region-copies}

-- All the calls succeed, and the read gets `nread` bytes.
abbrev pub loads : ℕ → LoadCalls
loads nread = record {
  mapped = true;
  open_error = 0;
  read_error = 0;
  nread = nread;
  close_error = 0;
}

pub load_region-ok :
    (f : File) (r : Region) (m : Memory)
    → load_region (loads r.size) f r m ≡ ok (store (fill m r.base r.size 0) r.base r.size f.bytes)
unfolding load_region
load_region-ok f r m = ground arith

-- A region that `persist_region` has written, in whatever pieces, is read back into another memory: there
-- the bytes of the region are those of the memory that was persisted, and the others are left alone.
-- This is so if the calls of the system succeed, and one read gets all the bytes.
pub persist_region-load_region :
    (kernel : ℕ → ℕ) (file_synced : Bool) (m m' : Memory) (r : Region)
    → IsKernel kernel
    → r.base + r.size < word
    → (f : File) × (loaded : Memory) × (persist_region
          (record {
            opened = true;
            written = results kernel r.size r.size;
            file_synced = file_synced;
            directory_synced = true;
          })
          m
          r.base
          r.size
        ≡ some (true, some f))
      × (load_region (loads r.size) f r m' ≡ ok loaded)
      × ((x : ℕ) → inside r.base r.size x ≡ true → loaded x ≡ m x)
      × ((x : ℕ) → inside r.base r.size x ≡ false → loaded x ≡ m' x)
unfolding store fill
persist_region-load_region kernel file_synced m m' r k b =
    let (f, e, size, bytes, synced) =
      persist_region-copies kernel file_synced true m r.base r.size k b in
    (
      f,
      store (fill m' r.base r.size 0) r.base r.size f.bytes,
      e,
      load_region-ok f r m',
      (λ x i.
          let at : r.base + (x - r.base) ≡ x = ground arith in
          rw i (bytes (x - r.base) (ground arith) ∙ ap m at)),
      (λ x o. rw o refl),
    )

-- The bytes that one read transfers at most, by the documentation of read(2).
abbrev pub max_read : ℕ
max_read = 2147479552

-- A region of more bytes than one read transfers is written, since `persist_region` loops over its
-- writes, but never read back: the only read of `map_recovered_regions` gets less than the region, which is an
-- error.
pub load_region-too_large :
    (kernel : ℕ → ℕ) (m m' : Memory) (r : Region) (nread : ℕ)
    → IsKernel kernel
    → r.base + r.size < word
    → max_read < r.size
    → nread ≤ max_read
    → (f : File) × (persist_region
          (record {
            opened = true;
            written = results kernel r.size r.size;
            file_synced = true;
            directory_synced = true;
          })
          m
          r.base
          r.size
        ≡ some (true, some f))
      × (load_region (loads nread) f r m' ≡ failed eagain)
unfolding load_region
load_region-too_large kernel m m' r nread k b large short =
    let (f, e, size, bytes, synced) = persist_region-copies kernel true true m r.base r.size k b in
    (f, e, ground arith)
