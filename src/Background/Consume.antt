-- ===== src/Background/Consume.antt =====
-- One round of `_bg_consume` in PSM_MODE_UNDO.
use persimmon.Base.{ℕ, ◌≡◌, refl, true, some}
use persimmon.PsmLog.{Psm, done, update_tail}
use persimmon.PsmLog.Stored.{Stored}
use persimmon.Instrument.{Client, instrument_commit, instrument_cleanup}
use persimmon.Background.{undo, commit_calls, run_calls, commit_tail}

pub commit_tail-undo :
    (chkpt_commit : Client → Client) (tail : ℕ) (p : Psm) (c c₁ c' : Client)
    → instrument_commit tail c ≡ some c₁
    → instrument_cleanup true true c₁ ≡ some c'
    → commit_tail undo chkpt_commit tail p c ≡ done (update_tail p tail, c')
unfolding commit_tail commit_calls run_calls
commit_tail-undo chkpt_commit tail p c c₁ c' e e' = rw (commit_tail, run_calls, e, e') refl
