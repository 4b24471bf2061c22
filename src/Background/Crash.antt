-- ===== src/Background/Crash.antt =====
-- A crash at any point of `_bg_consume`'s commit: the recovered tail and the recovered memory belong
-- together.
use persimmon.Base.{ℕ, zero, suc, Bool}
use persimmon.PsmLog.{Psm}
use persimmon.UndoLog.{LogEntry, UndoLog, Recovered}
use persimmon.UndoLog
use persimmon.UndoLog.Run.{Process, Run}
use persimmon.Instrument.{Client}
use persimmon.Background.Restarted.{Restarts}

-- What a crash behind the first `n` calls must give: the tail of the command log and the memory of the
-- last commit, before the first call, and the new tail and the memory as the process saw it, behind it.
abbrev pub AtCrash : ℕ → Bool → (ℕ → Bool) → Process → Psm → ℕ → Psm → Client → Type 0
AtCrash zero deduplicate does_manage q p tail p' c' =
    Restarts deduplicate does_manage p' c'.ul.log c'.image p.log_tail q.kept q.committed
AtCrash (suc n) deduplicate does_manage q p tail p' c' =
    Restarts deduplicate does_manage p' c'.ul.log c'.image tail q.mapped q.view
