-- ===== src/Background.antt =====
-- src/bg.cc: the loop of the background process, at BATCH_COMMIT 0 (Batch has the other build), and
-- the start of a restarted one in PSM_MODE_UNDO. The application's state and memory are the client of the instrumentation.
-- In PSM_MODE_CHKPT the commit is the parameter `chkpt_commit`.
pub mod Restarted
pub mod Crash
pub mod Consume
pub mod Batch
mod Tests
use persimmon.Base.{
  ℕ, zero, suc, ◌+◌, Bool, true, false, Option, none, some, ◌>>=◌, List, [], ◌∷◌, Memory,
}
use persimmon.PsmLog.{Psm, Run, done, abort, spinning, consume, update_tail}
use persimmon.UndoLog.{LogEntry, UndoLog, Recovered}
use persimmon.UndoLog
use persimmon.Instrument.{Client, instrument_commit, instrument_cleanup}

-- `psm_mode_t`
pub data Mode : Type 0 where
  no_persist : Mode
  undo : Mode
  chkpt : Mode

-- The application's `consume_func`: what it reads of the entry, its effects, and the entry's length.
abbrev pub ConsumeFunc : Type 0
ConsumeFunc = (ℕ → ℕ) → Client → ℕ × Client

-- The do loop of `_bg_consume`, which at `consumed == 0` spins until there is an entry. The list is
-- what the loads of `psm->head` return, in order.
pub spin_for_entry : Memory → ConsumeFunc → ℕ → Client → List ℕ → Run (ℕ × Client)
spin_for_entry buf f tail c [] = spinning
spin_for_entry buf f tail c (head ∷ heads) = elim (consume buf f head tail c) [
  | done none ↦ spin_for_entry buf f tail c heads
  | done (some entry) ↦ done entry
  | abort ↦ abort
  | spinning ↦ spinning
]

-- A call of `_bg_consume` behind its loop; `none` is a failed DR_ASSERT.
abbrev pub Call : Type 0
Call = Psm × Client → Option (Psm × Client)

-- `instrument_commit`, `chkpt_commit`, `psm->update_tail` and `instrument_cleanup`, the last with the
-- calls for the region table successful.
abbrev call_commit : ℕ → Call
call_commit tail (p, c) = do c' ← instrument_commit tail c; some (p, c')

abbrev call_chkpt_commit : (Client → Client) → Call
call_chkpt_commit chkpt_commit (p, c) = some (p, chkpt_commit c)

abbrev call_update_tail : ℕ → Call
call_update_tail tail (p, c) = some (update_tail p tail, c)

abbrev call_cleanup : Call
call_cleanup (p, c) = do c' ← instrument_cleanup true true c; some (p, c')

-- The calls of `_bg_consume` behind its loop, in order, by the mode.
pub commit_calls : Mode → (Client → Client) → ℕ → List Call
commit_calls no_persist chkpt_commit tail = call_update_tail tail ∷ []
commit_calls chkpt chkpt_commit tail = call_chkpt_commit chkpt_commit ∷ call_update_tail tail ∷ []
commit_calls undo chkpt_commit tail = call_commit tail ∷ call_update_tail tail ∷ call_cleanup ∷ []

-- The first `n` of the calls.
pub run_calls : ℕ → List Call → Call
run_calls zero calls s = some s
run_calls (suc n) [] s = some s
run_calls (suc n) (call ∷ calls) s = do s' ← call s; run_calls n calls s'

-- All of them.
pub commit_tail : Mode → (Client → Client) → ℕ → Psm → Client → Run (Psm × Client)
unfolding commit_calls run_calls
commit_tail mode chkpt_commit tail p c =
    elim (run_calls 3 (commit_calls mode chkpt_commit tail) (p, c)) [
      | none ↦ abort
      | some s ↦ done s
    ]

-- `_bg_consume`: the new tail, the command log and the client.
pub bg_consume :
    Mode → (Client → Client) → ConsumeFunc → List ℕ → Psm → Client → ℕ → Run (ℕ × (Psm × Client))
bg_consume mode chkpt_commit f heads p c tail = elim (spin_for_entry p.buf f tail c heads) [
  | done (tail', c') ↦
      elim (commit_tail mode chkpt_commit tail' p (record c' { should_commit = false })) [
        | done next ↦ done (tail', next)
        | abort ↦ abort
        | spinning ↦ spinning
      ]
  | abort ↦ abort
  | spinning ↦ spinning
]

-- The tail from which a restarted process goes on, in `bg_run` and `dr_client_main`: that of the
-- undo log, if it has one, and else that of the command log.
abbrev pub recovered_tail : Psm → Recovered → ℕ
recovered_tail p r = elim r.tail [ none ↦ p.log_tail | some tail ↦ tail ]

-- The restart: `undo_log_init` and `undo_log_recover`, with what persistent memory holds.
pub restart : Bool → (ℕ → Bool) → Psm → (ℕ → LogEntry) → Memory → Option (ℕ × (Memory × UndoLog))
restart deduplicate does_manage p log image = elim (UndoLog.init deduplicate true log) [
  | none ↦ none
  | some ul ↦ elim (UndoLog.recover does_manage ul image) [
    | none ↦ none
    | some r ↦ some (recovered_tail p r, (r.memory, r.ul))
  ]
]
