-- ===== src/Restart.antt =====
-- src/fg.cc: the half of `psm_init` that a restarted foreground runs in PSM_MODE_UNDO, behind the
-- return of `setjmp` and the fork: the head and the tail of the log, the recovery of the memory, and
-- the loop that executes again what the background process has not committed.
pub mod Replayed
mod Tests
use persimmon.Base.{ℕ, ◌+◌, ◌-◌, Bool, true, false, if◌then◌else◌, List, word, Memory}
use persimmon.Region.{Region}
use persimmon.PsmLog.{Psm, Run, done, abort, spinning, replay}
use persimmon.RegionFile.{File, Try, failed, ok}
use persimmon.Recovery.{
  ℤ, pos, negsuc, Message, ForegroundCalls, ForegroundState, undo_recover_foreground,
}

-- The volatile fields of the log, from the persistent ones.
pub recover_log : Psm → Psm
recover_log p = record p {
  head = p.log_head;
  local_head = p.log_head;
  tail = p.log_tail;
  local_tail = p.log_tail;
}

-- The `int tail`, as the `size_t` that `consume` takes.
abbrev to_size : ℤ → ℕ
to_size (pos t) = t
to_size (negsuc n) = word - 1 - n

-- What `psm_init` returns, with the memory: the loop of the replay is on fuel.
replay_from :
    ℕ → ((ℕ → ℕ) → Memory → ℕ × Memory) → Psm → ForegroundState → Run (Try ForegroundState)
replay_from fuel consume_func p s =
    elim (replay fuel p.buf consume_func p.head (to_size s.p_tail) s.memory) [
      | done m ↦ done (ok (record s { memory = m }))
      | abort ↦ abort
      | spinning ↦ spinning
    ]

-- From the fork on, with what the system calls give back, the files of the regions, and the pipe.
pub psm_init_recover :
    Bool
    → ForegroundCalls
    → (Region → File)
    → List Message
    → ℕ
    → ((ℕ → ℕ) → Memory → ℕ × Memory)
    → Psm
    → ForegroundState
    → Run (Try ForegroundState)
unfolding replay_from
psm_init_recover use_sga calls files pipe fuel consume_func p s =
    if use_sga then abort else elim (undo_recover_foreground true calls files pipe s) [
      | failed e ↦ done (failed e)
      | ok s' ↦ replay_from fuel consume_func p s'
    ]
