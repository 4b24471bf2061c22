-- ===== src/FastPath/Insert.antt =====
-- src/undo/instrument.cc: `event_app_instruction`, which instruments the writes of an instruction, and
-- that the instrumented instruction leaves the log able to undo it.
use persimmon.Base.{
  ℕ, ◌+◌, ◌/◌, leb, sub_word, ◌≤◌, ◌≡◌, Bool, true, false, not, ◌&&◌, ◌||◌, Option, List, [], ◌∷◌,
  map, if◌then◌else◌, word, Memory, store, inside,
}
use persimmon.UndoLog.{UndoLog, block_size}
use persimmon.UndoLog.Restore.{Undoable, covered}
use persimmon.FastPath.{Write, instrumented_writes}
use persimmon.FastPath.Equivalence.{IsSize}

-- A destination of an instruction: is it a reference to memory, and is it an offset from %rsp? Then
-- what DynamoRIO's utilities say of it: its address, when the instruction is executed, and its size.
pub record Operand : Type 0 where
  pub memory_reference : Bool
  pub based_on_rsp : Bool
  pub addr : ℕ
  pub size : ℕ

-- An instruction: is it one of the application, is it in the module of the client, and does it write
-- to memory?
pub record AppInstr : Type 0 where
  pub is_app : Bool
  pub in_psm_module : Bool
  pub writes_memory : Bool
  pub dsts : List Operand

-- The loop of `event_app_instruction` over the destinations.
to_instrument : List Operand → List Operand
to_instrument [] = []
to_instrument (opnd ∷ opnds) =
    if opnd.memory_reference && not opnd.based_on_rsp
    then opnd ∷ to_instrument opnds
    else to_instrument opnds

-- `event_app_instruction`: the operands for which `insert_instrumentation` is called. The code for
-- each stands before the instruction, in this order.
pub event_app_instruction : AppInstr → List Operand
event_app_instruction instr =
    if not instr.is_app
    then []
    else if instr.in_psm_module
    then []
    else if not instr.writes_memory
    then []
    else to_instrument instr.dsts

abbrev as_write : ℕ → Memory → Operand → Write
as_write rsp m opnd = record { rsp = rsp; addr = opnd.addr; size = opnd.size; before = m }

-- What the code before the instruction does to the log, with the value of %rsp.
pub instrumented_instruction :
    Bool → (UndoLog → ℕ → ℕ) → ℕ → ℕ → Memory → AppInstr → UndoLog → Option UndoLog
instrumented_instruction skip_stack words table rsp m instr ul =
    instrumented_writes skip_stack words table (map (as_write rsp m) (event_app_instruction instr))
      ul

-- What the instruction writes, with the bytes that it puts at each address.
abbrev pub written : (ℕ → ℕ → ℕ) → List Operand → Memory → Memory
written v [] m = m
written v (opnd ∷ opnds) m =
    if opnd.memory_reference
    then written v opnds (store m opnd.addr opnd.size (v opnd.addr))
    else written v opnds m

-- Does an instruction with these destinations write the byte?
abbrev touches : List Operand → ℕ → Bool
touches [] x = false
touches (opnd ∷ opnds) x = opnd.memory_reference && inside opnd.addr opnd.size x || touches opnds x

-- What is asked of the destinations in memory: an offset from %rsp is on the stack, where the last
-- commit has no byte, and others are writes as the fast path takes them, which may be on the stack too.
abbrev pub Expected : Bool → ℕ → (ℕ → Bool) → List Operand → Type 0
Expected skip_stack rsp keep [] = Unit
Expected skip_stack rsp keep (opnd ∷ opnds) =
    ((opnd.memory_reference && not opnd.based_on_rsp) ≡ true
      → IsSize opnd.size
        × (block_size ≤ opnd.addr)
        × (opnd.addr + opnd.size + block_size ≤ word)
        × ((skip_stack && leb (sub_word rsp 128) opnd.addr) ≡ true
            → (x : ℕ) → inside opnd.addr opnd.size x ≡ true
            → keep x ≡ false))
    × ((opnd.memory_reference && opnd.based_on_rsp) ≡ true
        → (x : ℕ) → inside opnd.addr opnd.size x ≡ true
        → keep x ≡ false)
    × Expected skip_stack rsp keep opnds

record AllReported (keep : ℕ → Bool) (m₀ m : Memory) (opnds : List Operand) (ul ul' : UndoLog)
    : Type 0 where
  pub undoable : Undoable keep m₀ m ul'
  pub still : (x : ℕ) → covered ul.len ul.log x ≡ true → covered ul'.len ul'.log x ≡ true
  pub written : (x : ℕ) → keep x ≡ true → touches opnds x ≡ true → covered ul'.len ul'.log x ≡ true

-- The most entries that the destinations take.
abbrev pub room_for : List Operand → ℕ
room_for [] = 0
room_for (opnd ∷ opnds) = (opnd.size + 62) / block_size + room_for opnds
