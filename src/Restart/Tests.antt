-- ===== src/Restart/Tests.antt =====
-- A restart with one region, and one command that has not been committed.
use persimmon.Base.{
  ℕ, zero, suc, ◌+◌, ◌*◌, ◌≡◌, refl, ap, true, false, List, [], ◌∷◌, arith, inl, Memory, store,
}
use persimmon.Region.{Region}
use persimmon.RegionManager.{RegionManager}
use persimmon.PsmLog.{Psm, done, align_to_cache_line_size}
use persimmon.PsmLog.Stored.{Stored}
use persimmon.PsmLog.Consume.{applied, Reads}
use persimmon.RegionFile.{File, ok}
use persimmon.RegionFile.Load.{loads}
use persimmon.Recovery.{pos, negsuc, recovery_messages, ForegroundState}
use persimmon.Recovery.Foreground.{restored, succeeding}
use persimmon.Restart.{recover_log, psm_init_recover}
use persimmon.Restart.Replayed.{psm_init_recover-replays}

abbrev page : Region
page = record { base = 4096; size = 16; file_id = 1 }

abbrev mrm : RegionManager
mrm = record { regions = page ∷ []; rs = [] }

abbrev squares : Memory
squares x = x * x

abbrev zeros : Memory
zeros x = 0

abbrev files : Region → File
files r = record { bytes = λ i. squares (r.base + i); size = r.size; synced = true }

-- A command stores its second byte at the start of the page.
abbrev store_second : (ℕ → ℕ) → Memory → ℕ × Memory
store_second view m = (3, store m 4096 1 (λ i. view 1))

abbrev stored : List ℕ → Memory → Memory
stored [] m = m
stored (a ∷ []) m = m
stored (a ∷ v ∷ bs) m = store m 4096 1 (λ i. v)

abbrev command : List ℕ
command = 1 ∷ 5 ∷ 7 ∷ []

command-Reads : Reads store_second stored command
command-Reads view m h = ap (λ v. (3, store m 4096 1 (λ i. v))) h.1.0

abbrev buf : Memory
buf zero = 1
buf (suc zero) = 5
buf (suc (suc x)) = 7

abbrev log : Psm
log = record {
  log_head = 64;
  log_tail = 0;
  buf = buf;
  persisted = buf;
  head = 0;
  tail = 0;
  local_head = 0;
  local_tail = 0;
}

command-Stored : Stored buf 0 64 (command ∷ [])
unfolding align_to_cache_line_size
command-Stored = inl (
  record {
    marked = omega arith;
    bytes = (refl, (refl, (refl, tt)));
    at_line = refl;
    below_end = omega arith;
    before_head = omega arith;
    in_lines = omega arith;
    nonempty = omega arith;
  },
  omega arith,
)

abbrev fresh : ForegroundState
fresh = record { p_tail = negsuc 0; mapped = []; memory = zeros }

psm_init_recover-replays_example :
    psm_init_recover false
      (succeeding (λ r. loads r.size))
      files
      (recovery_messages mrm 0)
      2
      store_second
      (recover_log log)
      fresh
    ≡ done (
        ok (record {
          p_tail = pos 0;
          mapped = mrm.regions;
          memory = applied stored (command ∷ []) (restored squares mrm.regions zeros);
        }))
psm_init_recover-replays_example =
    psm_init_recover-replays squares (λ r. loads r.size) files mrm 0 64 log fresh store_second
      stored (command ∷ []) 2 (λ r. refl) ((omega arith, omega arith), tt) ((λ i l. refl), tt)
      (omega arith) (omega arith) refl (omega arith) (command-Reads, tt) command-Stored
