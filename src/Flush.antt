-- ===== src/Flush.antt =====
-- src/undo/flush.h: cache lines written back to persistent memory. A memory has a view that the
-- processes share, and an image that persistent memory is known to hold. A line that is flushed
-- counts as persisted at once: each caller drains before it relies on that.
use persimmon.Base.{ℕ, inside, align_down, Memory, if◌then◌else◌}

-- `pmem_flush`, and `pmem_flush_invalidate`: the line of 64 bytes that holds address `a`.
unfoldable pub flush_line : Memory → Memory → ℕ → Memory
flush_line view image a x = if inside (align_down a 64) 64 x then view x else image x
