-- ===== src/UndoLog/Commit.antt =====
-- `undo_log_commit`: what the commit record vouches for is persistent when it is written.
use persimmon.Base.{
  ℕ, zero, suc, ◌+◌, ◌*◌, ◌%◌, ◌≤◌, ◌<◌, ◌≡◌, refl, ap, Bool, true, arith, inside, align_down,
  Memory, Bool-cases, inl, inr, ◌⊎◌, word, dec_lt, lt→ltb, ge→ltb, none, some, [], ◌∷◌, subst,
}
use persimmon.Flush.{flush_line}
use persimmon.Ranges.{find}
use persimmon.Ranges.Foreach.{foreach-keeps, foreach-reaches}
use persimmon.UndoLog.{
  LogEntry, UndoLog, block_size, flush_entries, flush_lines, flush_region, flush_logged,
  append_commit_record, Committing, pmem_drain, commit, num_entries,
}
use persimmon.UndoLog.Restore.{covered, Undoable, update_self, update_below}

module _ (view : Memory) where
  -- A flush never makes the image older.
  flush_line-keeps :
      (image : Memory) (a x : ℕ) → image x ≡ view x → flush_line view image a x ≡ view x
  unfolding flush_line
  flush_line-keeps image a x h = ground arith

  flush_line-own :
      (image : Memory) (a x : ℕ)
      → a % 64 ≡ 0
      → inside a 64 x ≡ true
      → flush_line view image a x ≡ view x
  unfolding flush_line
  flush_line-own image a x h i = ground arith

  -- The line of a region's first byte holds all of the region's bytes below its end.
  flush_line-first :
      (image : Memory) (a x : ℕ)
      → a ≤ x
      → x < align_down a 64 + 64
      → flush_line view image a x ≡ view x
  unfolding flush_line
  flush_line-first image a x l h = ground arith

  flush_line-block :
      (image : Memory) (a x : ℕ)
      → a % block_size ≡ 0
      → inside a block_size x ≡ true
      → flush_line view image a x ≡ view x
  unfolding flush_line
  flush_line-block image a x h i = ground arith

  flush_entries-keeps :
      (n : ℕ) (log : ℕ → LogEntry) (image : Memory) (x : ℕ)
      → image x ≡ view x
      → flush_entries n log view image x ≡ view x
  unfolding flush_entries
  flush_entries-keeps zero log image x h = h
  flush_entries-keeps (suc n) log image x h =
      flush_line-keeps _ (log n).addr x (flush_entries-keeps n log image x h)

  -- Every block that the log covers is flushed, as it lies within one line.
  flush_entries-covered :
      (n : ℕ) (log : ℕ → LogEntry) (image : Memory) (x : ℕ)
      → ((i : ℕ) → i < n → (log i).addr % block_size ≡ 0)
      → covered n log x ≡ true
      → flush_entries n log view image x ≡ view x
  unfolding flush_entries
  flush_entries-covered zero log image x h c = cc
  flush_entries-covered (suc n) log image x h c = elim (Bool-cases (covered n log x)) [
    | inl before ↦
        flush_line-keeps _ (log n).addr x
          (flush_entries-covered n log image x (λ i l. h i (omega arith)) before)
    | inr own ↦ flush_line-block _ (log n).addr x (h n (omega arith)) (ground arith)
  ]

  flush_lines-keeps :
      (fuel p end : ℕ) (image : Memory) (x : ℕ)
      → image x ≡ view x
      → flush_lines fuel view p end image x ≡ view x
  unfolding flush_lines
  flush_lines-keeps zero p end image x h = h
  flush_lines-keeps (suc fuel) p end image x h = ground (
    arith,
    flush_line-keeps image p x h,
    flush_lines-keeps fuel (p + 64) end (flush_line view image p) x,
  )

  flush_lines-all :
      (fuel p end : ℕ) (image : Memory) (x : ℕ)
      → p % 64 ≡ 0
      → end ≤ p + 64 * fuel
      → p ≤ x
      → x < end
      → flush_lines fuel view p end image x ≡ view x
  unfolding flush_lines
  flush_lines-all zero p end image x a f l h = absurd (omega arith)
  flush_lines-all (suc fuel) p end image x a f l h = elim (dec_lt x (p + 64)) [
    | yes here ↦ rw (lt→ltb p end (omega arith)) (
        flush_lines-keeps fuel (p + 64) end (flush_line view image p) x
          (flush_line-own image p x a (ground arith)))
    | no beyond ↦ rw (lt→ltb p end (omega arith)) (
        flush_lines-all fuel (p + 64) end (flush_line view image p) x (omega arith) (omega arith)
          (omega arith) h)
  ]

  flush_region-keeps :
      (addr size : ℕ) (image : Memory) (x : ℕ)
      → image x ≡ view x
      → flush_region view addr size image x ≡ view x
  unfolding flush_region
  flush_region-keeps addr size image x h =
      flush_lines-keeps (size + 1) (align_down addr 64 + 64) (addr + size)
        (flush_line view image addr) x (flush_line-keeps image addr x h)

  flush_region-all :
      (addr size : ℕ) (image : Memory) (x : ℕ)
      → addr ≤ x
      → x < addr + size
      → flush_region view addr size image x ≡ view x
  unfolding flush_region
  flush_region-all addr size image x l h = elim (dec_lt x (align_down addr 64 + 64)) [
    | yes first ↦
        flush_lines-keeps (size + 1) (align_down addr 64 + 64) (addr + size)
          (flush_line view image addr) x (flush_line-first image addr x l first)
    | no later ↦
        flush_lines-all (size + 1) (align_down addr 64 + 64) (addr + size)
          (flush_line view image addr) x (omega arith) (omega arith) (omega arith) h
  ]

-- What persistent memory holds at the drain before the commit record, and behind it.
pub record Persisted (view image : Memory) (tail : ℕ) (ul : UndoLog) (s : Committing) : Type 0 where
  pub room : ul.len + 1 < num_entries
  pub ul_is : s.ul ≡ append_commit_record tail ul
  pub image_is : s.image ≡ flush_logged view ul image
  pub drained_is : s.drained ≡ (s.ul.log, s.image) ∷ (ul.log, s.image) ∷ []

pub commit-succeeds :
    (tail : ℕ) (view image : Memory) (ul : UndoLog)
    → ul.len + 1 < num_entries
    → (s : Committing) × (commit tail view image ul ≡ some s) × Persisted view image tail ul s
unfolding commit pmem_drain append_commit_record
commit-succeeds tail view image ul room = (
  _,
  rw (lt→ltb (ul.len + 1) num_entries room) refl,
  record { room = room; ul_is = refl; image_is = refl; drained_is = refl },
)

-- The assertion of a commit that succeeds holds.
pub commit-Persisted :
    (tail : ℕ) (view image : Memory) (ul : UndoLog) (s : Committing)
    → commit tail view image ul ≡ some s
    → Persisted view image tail ul s
unfolding commit append_commit_record
commit-Persisted tail view image ul s e = elim (dec_lt (ul.len + 1) num_entries) [
  | yes room ↦
      let (s', e', p) = commit-succeeds tail view image ul room in
      subst (Persisted view image tail ul) (let same : s' ≡ s = cc in same) p
  | no full ↦ let fails = ge→ltb (ul.len + 1) num_entries (omega arith) in absurd (ground arith)
]

pub flush_logged-persists :
    (keep : ℕ → Bool) (m₀ view image : Memory) (ul : UndoLog)
    → Undoable keep m₀ view ul
    → (x : ℕ) → x < word
    → (covered ul.len ul.log x ≡ true) ⊎ (find ul.fresh_regions x ≡ true) ⊎ (image x ≡ view x)
    → flush_logged view ul image x ≡ view x
unfolding flush_logged
flush_logged-persists keep m₀ view image ul u x w c = elim c [
  | inl logged ↦
      foreach-keeps (flush_region view) (λ s. s x ≡ view x)
        (λ start size s h. flush_region-keeps view start size s x h) ul.fresh_regions
        (flush_entries ul.len ul.log view image)
        (flush_entries-covered view ul.len ul.log image x (λ i l. (u.entries i l).1.1) logged)
  | inr (inl fresh) ↦
      foreach-reaches (flush_region view) (λ s. s x ≡ view x) x w
        (λ start size s h. flush_region-keeps view start size s x h)
        (λ start size s a b. flush_region-all view start size s x a b) ul.fresh_regions
        (flush_entries ul.len ul.log view image) fresh
  | inr (inr old) ↦
      foreach-keeps (flush_region view) (λ s. s x ≡ view x)
        (λ start size s h. flush_region-keeps view start size s x h) ul.fresh_regions
        (flush_entries ul.len ul.log view image)
        (flush_entries-keeps view ul.len ul.log image x old)
]

-- A commit raises its assertion just when its record would be the last element of the array or lie behind
-- it. Otherwise it drains twice. At the first drain, the log is as it was, and each byte of the view below
-- 2^64 is persistent that is logged, or found in a fresh region, or was persistent before. Only at the
-- second, with the same image, the log has one more entry, the commit record of the tail that was given;
-- the entries before it stay.
pub commit-persists :
    (keep : ℕ → Bool) (m₀ view image : Memory) (ul : UndoLog) (tail : ℕ)
    → Undoable keep m₀ view ul
    → (num_entries ≤ ul.len + 1 → commit tail view image ul ≡ none)
      × (ul.len + 1 < num_entries
          → (s : Committing) × (commit tail view image ul ≡ some s)
            × (s.drained ≡ (s.ul.log, s.image) ∷ (ul.log, s.image) ∷ [])
            × (s.ul.len ≡ ul.len + 1)
            × ((s.ul.log ul.len).commit_tail ≡ tail + 1)
            × ((s.ul.log ul.len).addr ≡ 0)
            × ((i : ℕ) → i < ul.len → s.ul.log i ≡ ul.log i)
            × ((x : ℕ)
                → x < word
                → (covered ul.len ul.log x ≡ true)
                  ⊎ (find ul.fresh_regions x ≡ true)
                  ⊎ (image x ≡ view x)
                → s.image x ≡ view x))
unfolding commit append_commit_record
commit-persists keep m₀ view image ul tail u = (
  λ full. rw (ge→ltb (ul.len + 1) num_entries full) refl,
  λ room.
      let (s, e, p) = commit-succeeds tail view image ul room in
      (
        s,
        e,
        p.drained_is,
        ap (λ (l : UndoLog). l.len) p.ul_is,
        rw p.ul_is (ap (λ (e : LogEntry). e.commit_tail) (update_self ul.log ul.len _)),
        rw p.ul_is (ap (λ (e : LogEntry). e.addr) (update_self ul.log ul.len _)),
        rw p.ul_is (λ i l. update_below ul.log ul.len _ i l),
        rw p.image_is (flush_logged-persists keep m₀ view image ul u),
      ),
)
