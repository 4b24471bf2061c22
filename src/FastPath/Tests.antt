-- ===== src/FastPath/Tests.antt =====
-- The emitted code at work, and the theorem at two writes to one block.
use persimmon.Base.{
  ℕ, ◌-◌, ◌/◌, ◌≡◌, refl, inr, some, none, List, [], ◌∷◌, ◌++◌, Option, Bool, true, false, ltb,
  arith, Memory, ap,
}
use persimmon.UndoLog.{UndoLog, zeroed, update}
use persimmon.FastPath.{
  execute, undo_insert_fast_path, skip, slow_path, log2, alignment_check, table_check, Label, Write,
  instrumented_writes,
}
use persimmon.FastPath.Insert.{Operand}
use persimmon.FastPath.Skip.{IsTable, start}
use persimmon.FastPath.Equivalence.{recorded_writes, instrumented_writes-recorded_writes}

abbrev zeros : Memory
zeros x = 0

abbrev empty_log : UndoLog
empty_log = record { log = λ i. zeroed; len = 0; logged_addrs_hash = λ slot. 0; fresh_regions = [] }

abbrev table_at : ℕ
table_at = 4096

abbrev words : UndoLog → ℕ → ℕ
words ul a = ul.logged_addrs_hash ((a - table_at) / 8)

words-IsTable : (ul : UndoLog) → IsTable (words ul) table_at ul.logged_addrs_hash
words-IsTable ul slot l = ap ul.logged_addrs_hash (omega arith)

abbrev two_writes : List Write
two_writes =
    record { rsp = 65536; addr = 64; size = 8; before = zeros }
    ∷ record { rsp = 65536; addr = 72; size = 4; before = zeros }
    ∷ []

instrumented_writes-recorded_writes_example :
    instrumented_writes true words table_at two_writes empty_log
    ≡ some (recorded_writes true two_writes empty_log)
instrumented_writes-recorded_writes_example =
    instrumented_writes-recorded_writes true words table_at two_writes empty_log words-IsTable
      (omega arith)
      (
        inr (3, omega arith, refl),
        omega arith,
        omega arith,
        (inr (2, omega arith, refl), omega arith, omega arith, tt),
      )
      (λ slot s. absurd (s refl))

-- A write to the block at 64, which is logged, and one that straddles two blocks.
abbrev logged : UndoLog
logged = record empty_log { logged_addrs_hash = update (λ slot. 0) 2 64 }

emits : undo_insert_fast_path 4 table_at ≡ some (alignment_check 4 ++ table_check table_at)
unfolding undo_insert_fast_path
emits = refl

jumps : (addr : ℕ) → Option Label
jumps addr = (execute (words logged) (alignment_check 4 ++ table_check table_at) (start addr)).0

fast : jumps 72 ≡ some skip
unfolding jumps execute log2
fast = refl

straddling : jumps 94 ≡ some slow_path
unfolding jumps execute
straddling = refl

refused : undo_insert_fast_path 3 table_at ≡ none
unfolding undo_insert_fast_path
refused = refl

-- An instruction that writes to memory, to a register and to the stack.
abbrev below_4096 : ℕ → Bool
below_4096 x = ltb x 4096

abbrev three_dsts : List Operand
three_dsts =
    record { memory_reference = true; based_on_rsp = false; addr = 64; size = 8 }
    ∷ record { memory_reference = false; based_on_rsp = false; addr = 0; size = 8 }
    ∷ record { memory_reference = true; based_on_rsp = true; addr = 8192; size = 8 }
    ∷ []
