-- ===== src/MemsetAvx.antt =====
-- src/undo/memset_nt_avx.cc: the fill by non-temporal stores that clears the undo log.
-- A vector register is a function from a lane to its byte, and extraction keeps the low lanes.
-- An address is a number, and [dest, dest + len) is an object, so that it does not wrap.
-- `none` is the fault of a vector store whose address is not aligned.
pub mod Fill
mod Tests
use Prim.Native.Nat.{bit_and}
use persimmon.Base.{
  ℕ, zero, suc, ◌+◌, ◌-◌, ◌*◌, ◌%◌, Bool, true, false, not, ◌&&◌, Option, none, some, ltb, leb,
  ◌==◌, if◌then◌else◌, ◌>>=◌, Memory, store,
}

abbrev pub Vector : Type 0
Vector = ℕ → ℕ

-- `_mm256_set1_epi8((char)c)`
set1 : ℕ → Vector
set1 c lane = c % 256

-- `_mm256_stream_si256`, `_mm_stream_si128`: a store of `width` bytes, aligned to as many.
stream_aligned : ℕ → Memory → ℕ → Vector → Option Memory
stream_aligned width m dest ymm = if dest % width == 0 then some (store m dest width ymm) else none

-- `memset_movnt8x64b`, `4x64b`, `2x64b` and `1x64b`: their stores to `(__m256i *)dest + i`, in
-- order, from `i` on, of which `n` are left.
stream_run : ℕ → ℕ → Memory → ℕ → Vector → Option Memory
stream_run zero i m dest ymm = some m
stream_run (suc n) i m dest ymm = do
  m ← stream_aligned 32 m (dest + 32 * i) ymm
  stream_run n (i + 1) m dest ymm

memset_movnt8x64b : Memory → ℕ → Vector → Option Memory
memset_movnt8x64b = stream_run 16 0

memset_movnt4x64b : Memory → ℕ → Vector → Option Memory
memset_movnt4x64b = stream_run 8 0

memset_movnt2x64b : Memory → ℕ → Vector → Option Memory
memset_movnt2x64b = stream_run 4 0

memset_movnt1x64b : Memory → ℕ → Vector → Option Memory
memset_movnt1x64b = stream_run 2 0

memset_movnt1x32b : Memory → ℕ → Vector → Option Memory
memset_movnt1x32b = stream_aligned 32

memset_movnt1x16b : Memory → ℕ → Vector → Option Memory
memset_movnt1x16b = stream_aligned 16

-- `_mm_stream_si64` and `_mm_stream_si32` take any address.
memset_movnt1x8b : Memory → ℕ → Vector → Option Memory
memset_movnt1x8b m dest ymm = some (store m dest 8 ymm)

memset_movnt1x4b : Memory → ℕ → Vector → Option Memory
memset_movnt1x4b m dest ymm = some (store m dest 4 ymm)

-- `memset_small_avx`: two stores that may overlap. At `len == 0` it would write a byte, too.
memset_small_avx : Memory → ℕ → Vector → ℕ → Memory
memset_small_avx m dest ymm len =
    if leb len 8
    then (if leb len 2
        then (if len == 2 then store m dest 2 ymm else store m dest 1 ymm)
        else if ltb 4 len
        then store (store m dest 4 ymm) (dest + len - 4) 4 ymm
        else store (store m dest 2 ymm) (dest + len - 2) 2 ymm)
    else if leb len 32
    then (if ltb 16 len
        then store (store m dest 16 ymm) (dest + len - 16) 16 ymm
        else store (store m dest 8 ymm) (dest + len - 8) 8 ymm)
    else store (store m dest 32 ymm) (dest + len - 32) 32 ymm

util_is_pow2 : ℕ → Bool
util_is_pow2 v = not (v == 0) && bit_and v (v - 1) == 0

-- What the function's variables hold at a point of its body.
pub record Cursor : Type 0 where
  pub memory : Memory
  pub dest : ℕ
  pub len : ℕ

-- The head, up to the first cache line.
align_head : ℕ → Cursor → Cursor
align_head c s =
    let cnt = s.dest % 64 in
    let cnt' = (if ltb s.len (64 - cnt) then s.len else 64 - cnt) in
    if ltb 0 cnt
    then record {
      memory = memset_small_avx s.memory s.dest (set1 c) cnt';
      dest = s.dest + cnt';
      len = s.len - cnt';
    }
    else s

-- `dest += n; len -= n;` behind a store.
advance : ℕ → Cursor → Memory → Option Cursor
advance n s m = some (record { memory = m; dest = s.dest + n; len = s.len - n })

-- `while (len >= 8 * 64)`, on fuel.
big_loop : ℕ → ℕ → Cursor → Option Cursor
big_loop zero c s = none
big_loop (suc fuel) c s = elim (leb 512 s.len) [
  | true ↦ memset_movnt8x64b s.memory s.dest (set1 c) >>= advance 512 s >>= big_loop fuel c
  | false ↦ some s
]

-- The three tests below the loop.
when_at_least : ℕ → (Memory → ℕ → Vector → Option Memory) → ℕ → Cursor → Option Cursor
when_at_least n body c s =
    if leb n s.len then (body s.memory s.dest (set1 c) >>= advance n s) else some s

-- The rest of a cache line: one non-temporal store, or `memset_small_avx`.
last_store : ℕ → Cursor → Option Memory
last_store c s =
    let small = some (memset_small_avx s.memory s.dest (set1 c) s.len) in
    if s.len == 0
    then some s.memory
    else if util_is_pow2 s.len
    then (if s.len == 32
        then memset_movnt1x32b s.memory s.dest (set1 c)
        else if s.len == 16
        then memset_movnt1x16b s.memory s.dest (set1 c)
        else if s.len == 8
        then memset_movnt1x8b s.memory s.dest (set1 c)
        else if s.len == 4
        then memset_movnt1x4b s.memory s.dest (set1 c)
        else small)
    else small

-- The loop's fuel is `len + 1`: each round takes 512 from `len`.
pub memset_movnt_avx : Memory → ℕ → ℕ → ℕ → Option Memory
memset_movnt_avx m dest c len = do
  let s = align_head c (record { memory = m; dest = dest; len = len })
  s ← big_loop (len + 1) c s
  s ← when_at_least 256 memset_movnt4x64b c s
  s ← when_at_least 128 memset_movnt2x64b c s
  s ← when_at_least 64 memset_movnt1x64b c s
  last_store c s
