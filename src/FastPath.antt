-- ===== src/FastPath.antt =====
-- src/undo/undo_log.h: `undo_insert_fast_path`, the machine code that it emits before an
-- instrumented write (OPTIMIZE_SKIP_RECORD), and src/undo/instrument.cc: `insert_instrumentation`,
-- which puts the slow path behind it. An instruction is what DynamoRIO's INSTR_CREATE_ call makes,
-- with the two reserved registers as its operands; the effect of each is that of the x86
-- instruction on 64 bits.
pub mod Bits
pub mod Skip
pub mod Equivalence
pub mod Insert
mod Tests
use Prim.Native.Nat.{bit_and, bit_xor}
use persimmon.Base.{
  ℕ, zero, suc, ◌+◌, ◌-◌, ◌*◌, ◌/◌, ◌^◌, Bool, true, false, not, ◌&&◌, ◌||◌, Option, none, some,
  ltb, ◌==◌, if◌then◌else◌, add_word, sub_word, leb, Memory, List, [], ◌∷◌, ◌++◌, ◌>>=◌,
}
use persimmon.UndoLog.{UndoLog, block_size, hash_size}
use persimmon.UndoLog

-- `reg_dst`, which holds the destination of the write, and `reg_t1`.
pub data Reg : Type 0 where
  reg_dst reg_t1 : Reg

pub data Label : Type 0 where
  slow_path skip : Label

pub data Instr : Type 0 where
  lea : Reg → Reg → ℕ → Instr
  xor : Reg → Reg → Instr
  cmp : Reg → ℕ → Instr
  ja jb : Label → Instr
  mov : Reg → Reg → Instr
  shr : Reg → ℕ → Instr
  and_imm : Reg → ℕ → Instr
  load : Reg → Reg → ℕ → Instr

-- The registers, and the operands of the last comparison, by which the jumps go.
pub record Cpu : Type 0 where
  pub dst : ℕ
  pub t1 : ℕ
  pub compared : ℕ × ℕ

abbrev get : Cpu → Reg → ℕ
get c reg_dst = c.dst
get c reg_t1 = c.t1

abbrev put : Cpu → Reg → ℕ → Cpu
put c reg_dst v = record c { dst = v }
put c reg_t1 v = record c { t1 = v }

-- Straight-line code with jumps out of it: `none` is its end. `words` is what a load of 8 bytes
-- reads at an address.
unfoldable pub execute : (ℕ → ℕ) → List Instr → Cpu → Option Label × Cpu
execute words [] c = (none, c)
execute words (lea d s disp ∷ code) c = execute words code (put c d (add_word (get c s) disp))
execute words (xor d s ∷ code) c = execute words code (put c d (bit_xor (get c d) (get c s)))
execute words (cmp d imm ∷ code) c = execute words code (record c { compared = (get c d, imm) })
execute words (ja target ∷ code) c =
    let rest = execute words code c in
    if ltb c.compared.1 c.compared.0 then (some target, c) else rest
execute words (jb target ∷ code) c =
    let rest = execute words code c in
    if ltb c.compared.0 c.compared.1 then (some target, c) else rest
execute words (mov d s ∷ code) c = execute words code (put c d (get c s))
execute words (shr d imm ∷ code) c = execute words code (put c d (get c d / 2 ^ imm))
execute words (and_imm d imm ∷ code) c = execute words code (put c d (bit_and (get c d) imm))
execute words (load d s disp ∷ code) c =
    execute words code (put c d (words (add_word (get c s) disp)))

-- `log2`, of a power of two, on fuel: a `size_t` takes 64 rounds at most.
unfoldable pub log2 : ℕ → ℕ → ℕ
log2 zero value = 0
log2 (suc fuel) value = let rest = log2 fuel (value / 2) in if value == 1 then 0 else 1 + rest

-- The alignment check.
abbrev alignment_check : ℕ → List Instr
alignment_check size =
    lea reg_t1 reg_dst (size - 1)
    ∷ xor reg_t1 reg_dst
    ∷ cmp reg_t1 (block_size - 1)
    ∷ ja slow_path
    ∷ []

-- The look into the hash table `table`, with no probing.
abbrev table_check : ℕ → List Instr
table_check table =
    mov reg_t1 reg_dst
    ∷ shr reg_t1 (log2 64 block_size - log2 64 8)
    ∷ and_imm reg_t1 ((hash_size - 1) * 8)
    ∷ load reg_t1 reg_t1 table
    ∷ xor reg_t1 reg_dst
    ∷ cmp reg_t1 block_size
    ∷ jb skip
    ∷ []

-- `undo_insert_fast_path`, for a write of `size` bytes, with the address of `logged_addrs_hash`;
-- `none` is a failed DR_ASSERT.
unfoldable pub undo_insert_fast_path : ℕ → ℕ → Option (List Instr)
undo_insert_fast_path size table =
    if ltb 32 size
    then some []
    else if ltb 0 size && bit_and size (size - 1) == 0
    then some (if ltb 1 size then alignment_check size ++ table_check table else table_check table)
    else none

-- What `record_write` of the client does to the log, with OPTIMIZE_SKIP_STACK or not, and the value of
-- %rsp. (Instrument.record_write is the same with the other globals.)
unfoldable pub slow_path_write : Bool → ℕ → Memory → ℕ → ℕ → UndoLog → UndoLog
slow_path_write skip_stack rsp m addr size ul =
    let logged = (UndoLog.record_write true m addr size ul).1 in
    if skip_stack && leb (sub_word rsp 128) addr then ul else logged

-- What the code of `insert_instrumentation` does at a write to `addr`: the fast path, and the call of
-- `record_write` behind the label of the slow path, unless the fast path jumps over it.
unfoldable pub instrumented_write :
    (ℕ → ℕ) → List Instr → Bool → ℕ → Memory → ℕ → ℕ → UndoLog → UndoLog
instrumented_write words code skip_stack rsp m addr size ul =
    elim (execute words code (record { dst = addr; t1 = 0; compared = (0, 0) })).0 [
      | some skip ↦ ul
      | some slow_path ↦ slow_path_write skip_stack rsp m addr size ul
      | none ↦ slow_path_write skip_stack rsp m addr size ul
    ]

-- A write that is instrumented: its operand, with %rsp and the memory before it.
pub record Write : Type 0 where
  pub rsp : ℕ
  pub addr : ℕ
  pub size : ℕ
  pub before : Memory

-- The writes of a run, one after another. `words ul` is what is loaded while the table is that of `ul`.
unfoldable pub instrumented_writes :
    Bool → (UndoLog → ℕ → ℕ) → ℕ → List Write → UndoLog → Option UndoLog
instrumented_writes skip_stack words table [] ul = some ul
instrumented_writes skip_stack words table (w ∷ writes) ul = do
  code ← undo_insert_fast_path w.size table
  instrumented_writes skip_stack words table writes
      (instrumented_write (words ul) code skip_stack w.rsp w.before w.addr w.size ul)
