-- ===== src/Restart/Replayed.antt =====
-- What a restarted foreground has when `psm_init` returns.
use persimmon.Base.{ℕ, ◌+◌, ◌%◌, ◌<◌, ◌≡◌, ap, fun_ext, false, List, length, All, Memory}
use persimmon.Region.{Region}
use persimmon.Region.Points.{IsProper}
use persimmon.RegionManager.{RegionManager}
use persimmon.PsmLog.{Psm, log_size, done}
use persimmon.PsmLog.Stored.{Stored}
use persimmon.PsmLog.Consume.{applied, Reads, replay-Stored}
use persimmon.RegionFile.{File, LoadCalls, ok}
use persimmon.Recovery.{pos, recovery_messages, ForegroundState}
use persimmon.Recovery.Foreground.{
  Holds, Loads, restored, succeeding, recovery_messages-undo_recover_foreground,
}
use persimmon.Restart.{recover_log, replay_from, psm_init_recover}

-- A restarted foreground ends with the state that the commands of the log lead to from the last
-- commit: its memory in the regions is that of the files, and on it each entry between the recovered
-- tail and the head has been executed once, in order. This is so if the system calls succeed, each
-- region is read whole, and the log holds the entries `es` from the tail on.
pub psm_init_recover-replays :
    (image : Memory) (calls : Region → LoadCalls) (files : Region → File) (mrm : RegionManager)
    (tail d : ℕ) (p : Psm) (s : ForegroundState) (consume_func : (ℕ → ℕ) → Memory → ℕ × Memory)
    (apply : List ℕ → Memory → Memory) (es : List (List ℕ)) (fuel : ℕ)
    → Loads calls
    → All IsProper mrm.regions
    → All (λ r. Holds image (files r) r) mrm.regions
    → tail < log_size
    → d < log_size
    → p.log_head ≡ (tail + d) % log_size
    → length es < fuel
    → All (Reads consume_func apply) es
    → Stored p.buf tail d es
    → psm_init_recover false
        (succeeding calls)
        files
        (recovery_messages mrm tail)
        fuel
        consume_func
        (recover_log p)
        s
      ≡ done (
          ok (record {
            p_tail = pos tail;
            mapped = mrm.regions;
            memory = applied apply es (restored image mrm.regions s.memory);
          }))
unfolding psm_init_recover replay_from recover_log
psm_init_recover-replays image calls files mrm tail d p s f apply es fuel l proper holds tb db eh lf
      r st =
    let (m, e, same) =
      recovery_messages-undo_recover_foreground image calls files mrm tail s l proper holds in
    let again = replay-Stored f apply es fuel p.buf tail d p.log_head m tb db eh lf r st in
    rw (e, replay_from, again)
      (ap
        (λ (m : Memory).
          done
            (ok (record { p_tail = pos tail; mapped = mrm.regions; memory = applied apply es m })))
        (fun_ext same))
