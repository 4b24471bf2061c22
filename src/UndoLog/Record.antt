-- ===== src/UndoLog/Record.antt =====
-- `undo_log_record` keeps the log able to undo every write that follows it.
use persimmon.Base.{
  ℕ, ◌+◌, ◌/◌, ◌≤◌, ◌<◌, ◌≡◌, refl, ◌∙◌, sym, Bool, true, false, arith, inside, Memory, store,
  store-outside, Bool-cases, inl, some, inr, word, add_word, align_down,
}
use persimmon.Ranges.{insert, find_range}
use persimmon.Ranges.Find.{find_range_iff}
use persimmon.Ranges.Remove.{remove-remains, remains-find}
use persimmon.UndoLog.Blocks.{record_blocks-LoggedTo, record_blocks-len}
use persimmon.Ranges.Insert.{find-insert, insert-Coalesced}
use persimmon.UndoLog.{
  UndoLog, block_size, num_entries, to_uint, record_write, record_fresh_region, remove_fresh_region,
}
use persimmon.UndoLog.Restore.{covered, Undoable}

-- A write of covered bytes, or of bytes that the last commit did not have.
pub written-Undoable :
    (keep : ℕ → Bool) (m₀ m : Memory) (addr size : ℕ) (v : ℕ → ℕ) (ul : UndoLog)
    → Undoable keep m₀ m ul
    → ((x : ℕ) → keep x ≡ true → inside addr size x ≡ true → covered ul.len ul.log x ≡ true)
    → Undoable keep m₀ (store m addr size v) ul
written-Undoable keep m₀ m addr size v ul u h = record {
  restores = u.restores;
  untouched = λ x k c. elim (Bool-cases (inside addr size x)) [
    | inl i ↦ let covered = h x k i in cc
    | inr o ↦ store-outside m addr size v x o ∙ u.untouched x k c
  ];
  entries = u.entries;
  hashed = u.hashed;
  fresh = u.fresh;
  coalesced = u.coalesced;
  blank = u.blank;
}

-- A write that the fresh regions include touches no byte of the last commit.
fresh-covered :
    (keep : ℕ → Bool) (m₀ m : Memory) (addr size : ℕ) (ul : UndoLog)
    → addr + size < word
    → Undoable keep m₀ m ul
    → find_range ul.fresh_regions addr size ≡ true
    → (x : ℕ) → keep x ≡ true
    → inside addr size x ≡ true
    → covered ul.len ul.log x ≡ true
fresh-covered keep m₀ m addr size ul b u f x k i =
    let found =
      (find_range_iff ul.fresh_regions addr size u.coalesced b (ground arith)).0 f x (ground arith)
        (ground arith) in
    let new = u.fresh x (ground arith) found in cc

-- What the report of a write leaves: the bytes of the last commit that it will overwrite are
-- covered.
pub record Reported (keep : ℕ → Bool) (m₀ m : Memory) (addr size : ℕ) (ul ul' : UndoLog)
    : Type 0 where
  pub undoable : Undoable keep m₀ m ul'
  pub still : (x : ℕ) → covered ul.len ul.log x ≡ true → covered ul'.len ul'.log x ≡ true
  pub unchanged : ul'.fresh_regions ≡ ul.fresh_regions
  pub written :
      (x : ℕ) → keep x ≡ true → inside addr size x ≡ true → covered ul'.len ul'.log x ≡ true

pub record_write-Reported :
    (keep : ℕ → Bool) (m₀ m : Memory) (deduplicate : Bool) (addr size : ℕ) (ul : UndoLog)
    → block_size ≤ addr
    → addr + size + block_size ≤ word
    → Undoable keep m₀ m ul
    → Reported keep m₀ m addr size ul (record_write deduplicate m addr size ul).1
unfolding record_write
record_write-Reported keep m₀ m deduplicate addr size ul a b u =
    elim (Bool-cases (find_range ul.fresh_regions addr size)) [
      | inl fresh ↦ rw fresh (record {
        undoable = u;
        still = λ x c. c;
        unchanged = refl;
        written = fresh-covered keep m₀ m addr size ul (omega arith) u fresh;
      })
      | inr logged ↦
          let r =
            record_blocks-LoggedTo keep m₀ m (size + 2) deduplicate (align_down addr block_size)
              (add_word addr size) ul (omega arith) (omega arith) (omega arith) u in
          rw logged (record {
            undoable = r.undoable;
            still = r.still;
            unchanged = r.unchanged;
            written = λ x k i. r.blocks x (ground arith) (ground arith);
          })
    ]

-- What a write that is reported before it is made leaves.
pub record Recorded (keep : ℕ → Bool) (m₀ m' : Memory) (ul ul' : UndoLog) : Type 0 where
  pub undoable : Undoable keep m₀ m' ul'
  pub still : (x : ℕ) → covered ul.len ul.log x ≡ true → covered ul'.len ul'.log x ≡ true
  pub unchanged : ul'.fresh_regions ≡ ul.fresh_regions

pub record_write-Recorded :
    (keep : ℕ → Bool) (m₀ m : Memory) (deduplicate : Bool) (addr size : ℕ) (v : ℕ → ℕ)
    (ul : UndoLog)
    → block_size ≤ addr
    → addr + size + block_size ≤ word
    → Undoable keep m₀ m ul
    → Recorded keep m₀ (store m addr size v) ul (record_write deduplicate m addr size ul).1
record_write-Recorded keep m₀ m deduplicate addr size v ul a b u =
    let r = record_write-Reported keep m₀ m deduplicate addr size ul a b u in
    record {
      undoable = written-Undoable keep m₀ m addr size v _ r.undoable r.written;
      still = r.still;
      unchanged = r.unchanged;
    }

pub record_write-len :
    (deduplicate : Bool) (m : Memory) (addr size : ℕ) (ul : UndoLog)
    → addr + size + block_size ≤ word
    → (record_write deduplicate m addr size ul).1.len ≤ ul.len + (size + 62) / block_size
unfolding record_write
record_write-len deduplicate m addr size ul b =
    elim (Bool-cases (find_range ul.fresh_regions addr size)) [
      | inl fresh ↦ rw fresh (omega arith)
      | inr logged ↦
          let few =
            record_blocks-len (size + 2) deduplicate m (align_down addr block_size)
              (add_word addr size) ul (omega arith) (omega arith) in
          rw logged (omega arith)
    ]

-- A write of `size` bytes at `addr` that is reported before it is made leaves the log able to undo
-- to the last commit, from the memory after the write as well, and writes no entry behind the end of the
-- array. This is so if the write lies behind the first block of the address space and before the last one,
-- and the array has room for the blocks of the write.
pub record_write-Undoable :
    (keep : ℕ → Bool) (m₀ m : Memory) (deduplicate : Bool) (addr size : ℕ) (v : ℕ → ℕ)
    (ul : UndoLog)
    → block_size ≤ addr
    → addr + size + block_size ≤ word
    → ul.len + (size + 62) / block_size ≤ num_entries
    → Undoable keep m₀ m ul
    → Undoable keep m₀ (store m addr size v) (record_write deduplicate m addr size ul).1
      × ((record_write deduplicate m addr size ul).1.len ≤ num_entries)
record_write-Undoable keep m₀ m deduplicate addr size v ul a b room u =
    let few = record_write-len deduplicate m addr size ul b in
    ((record_write-Recorded keep m₀ m deduplicate addr size v ul a b u).undoable, omega arith)

pub record_fresh_region-regions :
    (addr size : ℕ) (ul : UndoLog)
    → (record_fresh_region addr size ul).fresh_regions ≡ insert ul.fresh_regions addr (to_uint size)
unfolding record_fresh_region
record_fresh_region-regions addr size ul = refl

pub record_fresh_region-covered :
    (addr size : ℕ) (ul : UndoLog) (x : ℕ)
    → let ul' = record_fresh_region addr size ul in
      covered ul'.len ul'.log x ≡ covered ul.len ul.log x
unfolding record_fresh_region
record_fresh_region-covered addr size ul x = refl

-- A region none of whose bytes belongs to the last commit can be recorded as fresh: the log stays
-- able to undo to that commit.
pub record_fresh_region-Undoable :
    (keep : ℕ → Bool) (m₀ m : Memory) (addr size : ℕ) (ul : UndoLog)
    → addr + size < word
    → ((x : ℕ) → inside addr size x ≡ true → keep x ≡ false)
    → Undoable keep m₀ m ul
    → Undoable keep m₀ m (record_fresh_region addr size ul)
unfolding record_fresh_region
record_fresh_region-Undoable keep m₀ m addr size ul b new u = record {
  restores = u.restores;
  untouched = u.untouched;
  entries = u.entries;
  hashed = u.hashed;
  fresh = λ x w f.
      let e = find-insert ul.fresh_regions addr (to_uint size) u.coalesced (omega arith) x w in
      elim (Bool-cases (inside addr size x)) [
        | inl i ↦ new x i
        | inr o ↦ u.fresh x w (ground arith)
      ];
  coalesced = insert-Coalesced ul.fresh_regions addr (to_uint size) u.coalesced (omega arith);
  blank = u.blank;
}

-- A fresh region can be removed again: that raises no assertion, and the log stays able to undo to
-- the last commit.
pub remove_fresh_region-Undoable :
    (keep : ℕ → Bool) (m₀ m : Memory) (addr size : ℕ) (ul : UndoLog)
    → 0 < to_uint size
    → addr + size < word
    → Undoable keep m₀ m ul
    → (ul' : UndoLog) × (remove_fresh_region addr size ul ≡ some ul') × Undoable keep m₀ m ul'
unfolding remove_fresh_region
remove_fresh_region-Undoable keep m₀ m addr size ul n b u =
    let (w, e, c, f) =
      remove-remains ul.fresh_regions addr (to_uint size) u.coalesced n (omega arith) in
    (
      record ul { fresh_regions = w },
      rw (remove_fresh_region, e) refl,
      record {
        restores = u.restores;
        untouched = u.untouched;
        entries = u.entries;
        hashed = u.hashed;
        fresh = λ x l h. u.fresh x l (remains-find _ ul.fresh_regions x (sym (f x l) ∙ h));
        coalesced = c;
        blank = u.blank;
      },
    )
