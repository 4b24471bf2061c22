-- ===== src/FastPath/Equivalence.antt =====
-- An instrumented write records what the slow path alone would.
use persimmon.Base.{
  ℕ, ◌+◌, ◌^◌, ◌≤◌, ◌<◌, ◌≡◌, refl, sym, Option, none, some, arith, word, Memory, List, [], ◌∷◌,
  ◌⊎◌, inl, inr, zero, suc, Bool, ◌&&◌, leb, sub_word, Bool-cases,
}
use persimmon.UndoLog.{UndoLog, block_size}
use persimmon.UndoLog.LoggedAddrs.{AllIn}
use persimmon.UndoLog.Skip.{record_write-logged, record_write-AllIn}
use persimmon.UndoLog.Restore.{IsBlock}
use persimmon.FastPath.{
  Label, slow_path, skip, Instr, execute, undo_insert_fast_path, slow_path_write,
  instrumented_write, Write, instrumented_writes,
}
use persimmon.FastPath.Skip.{
  IsTable, first_slot, start, undo_insert_fast_path-skip, undo_insert_fast_path-positive,
}

-- The slow path is left out only where it would do nothing.
by_label :
    (o : Option Label) (ul ul' : UndoLog)
    → (o ≡ some skip → ul' ≡ ul)
    → (elim o as (λ x. UndoLog) [ some skip ↦ ul | some slow_path ↦ ul' | none ↦ ul' ]) ≡ ul'
by_label none ul ul' h = refl
by_label (some slow_path) ul ul' h = refl
by_label (some skip) ul ul' h = sym (h refl)

instrumented_write-record_write :
    (words : ℕ → ℕ) (table : ℕ) (skip_stack : Bool) (rsp : ℕ) (m : Memory) (addr size : ℕ)
    (code : List Instr) (ul : UndoLog)
    → undo_insert_fast_path size table ≡ some code
    → IsTable words table ul.logged_addrs_hash
    → table < 2 ^ 31
    → block_size ≤ addr
    → addr + size + block_size ≤ word
    → AllIn IsBlock ul.logged_addrs_hash
    → instrumented_write words code skip_stack rsp m addr size ul
      ≡ slow_path_write skip_stack rsp m addr size ul
unfolding instrumented_write slow_path_write
instrumented_write-record_write words table skip_stack rsp m addr size code ul e at low above b
      blocks =
    by_label (execute words code (start addr)).0 ul _ (λ h.
      let skips =
        undo_insert_fast_path-skip words table ul.logged_addrs_hash at low size addr code e
          (omega arith) in
      let (small, one, found) = skips.0 h in
      let (block, aligned) = blocks (first_slot addr) (omega arith) in
      let logged =
        record_write-logged m addr size ul above (undo_insert_fast_path-positive size table code e)
          b one (omega arith) in
      elim (Bool-cases (skip_stack && leb (sub_word rsp 128) addr)) [
        | inl stack ↦ rw stack refl
        | inr elsewhere ↦ rw elsewhere logged
      ])

slow_path-AllIn :
    (skip_stack : Bool) (rsp : ℕ) (m : Memory) (addr size : ℕ) (ul : UndoLog)
    → block_size ≤ addr
    → addr + size + block_size ≤ word
    → AllIn IsBlock ul.logged_addrs_hash
    → AllIn IsBlock (slow_path_write skip_stack rsp m addr size ul).logged_addrs_hash
unfolding slow_path_write
slow_path-AllIn skip_stack rsp m addr size ul a b blocks =
    elim (Bool-cases (skip_stack && leb (sub_word rsp 128) addr)) [
      | inl stack ↦ rw stack blocks
      | inr elsewhere ↦ rw elsewhere (record_write-AllIn m addr size ul a b blocks)
    ]

-- The slow path of each write, with no fast path before it.
abbrev pub recorded_writes : Bool → List Write → UndoLog → UndoLog
recorded_writes skip_stack [] ul = ul
recorded_writes skip_stack (w ∷ writes) ul =
    recorded_writes skip_stack writes (slow_path_write skip_stack w.rsp w.before w.addr w.size ul)

-- The sizes that the fast path takes: those above a block, and the powers of two up to it.
abbrev pub IsSize : ℕ → Type 0
IsSize size = (block_size < size) ⊎ ((k : ℕ) × (k < 6) × (size ≡ 2 ^ k))

-- Writes of these sizes, behind the first block of the address space and before the last one.
abbrev pub AreWrites : List Write → Type 0
AreWrites [] = Unit
AreWrites (w ∷ writes) =
    IsSize w.size × (block_size ≤ w.addr) × (w.addr + w.size + block_size ≤ word) × AreWrites writes

emitted_below :
    (k table : ℕ) → k < 6 → (code : List Instr) × (undo_insert_fast_path (2 ^ k) table ≡ some code)
unfolding undo_insert_fast_path
emitted_below zero table l = (_, refl)
emitted_below (suc zero) table l = (_, refl)
emitted_below (suc (suc zero)) table l = (_, refl)
emitted_below (suc (suc (suc zero))) table l = (_, refl)
emitted_below (suc (suc (suc (suc zero)))) table l = (_, refl)
emitted_below (suc (suc (suc (suc (suc zero))))) table l = (_, refl)
emitted_below (suc (suc (suc (suc (suc (suc k)))))) table l = absurd (omega arith)

emitted :
    (size table : ℕ)
    → IsSize size
    → (code : List Instr) × (undo_insert_fast_path size table ≡ some code)
unfolding undo_insert_fast_path
emitted size table (inl large) = ([], ground arith)
emitted size table (inr (k, l, e)) = rw e (emitted_below k table l)

-- The fast path, in front of every write of a run, makes no difference to the log: the code is emitted
-- for each write, and the log behind them is that of the slow path alone, whether or not this skips the
-- stack. This is so if a load from the
-- table reads the table of the log, the address of the table has 31 bits, the writes are of the sizes
-- that the assertion allows, behind the first block of the address space and before the last one, and the table holds
-- the starts of blocks at first.
pub instrumented_writes-recorded_writes :
    (skip_stack : Bool) (words : UndoLog → ℕ → ℕ) (table : ℕ) (writes : List Write) (ul : UndoLog)
    → ((ul : UndoLog) → IsTable (words ul) table ul.logged_addrs_hash)
    → table < 2 ^ 31
    → AreWrites writes
    → AllIn IsBlock ul.logged_addrs_hash
    → instrumented_writes skip_stack words table writes ul
      ≡ some (recorded_writes skip_stack writes ul)
unfolding instrumented_writes
instrumented_writes-recorded_writes skip_stack words table [] ul at low are blocks = refl
instrumented_writes-recorded_writes skip_stack words table (w ∷ writes) ul at low (s, a, b, are)
      blocks =
    let (code, e) = emitted w.size table s in
    let same =
      instrumented_write-record_write (words ul) table skip_stack w.rsp w.before w.addr w.size code
        ul e (at ul) low a b blocks in
    rw (e, same)
      (instrumented_writes-recorded_writes skip_stack words table writes _ at low are
        (slow_path-AllIn skip_stack w.rsp w.before w.addr w.size ul a b blocks))
