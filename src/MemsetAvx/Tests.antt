-- ===== src/MemsetAvx/Tests.antt =====
-- Runs of `memset_movnt_avx`, and the theorems at concrete inputs.
use persimmon.Base.{◌≡◌, inl, some, arith, Memory, fill}
use persimmon.MemsetAvx.{memset_movnt_avx}
use persimmon.MemsetAvx.Fill.{memset_movnt_avx-fill}

abbrev sevens : Memory
sevens x = 7

-- 26 bytes up to the line at 128, a round of 512, and 62 bytes behind it.
memset_movnt_avx-fill_example : memset_movnt_avx sevens 102 256 600 ≡ some (fill sevens 102 600 0)
memset_movnt_avx-fill_example = memset_movnt_avx-fill sevens 102 256 600 (inl (omega arith))
