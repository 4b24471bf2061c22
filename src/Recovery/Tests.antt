-- ===== src/Recovery/Tests.antt =====
-- The recovery of a process with two regions.
use persimmon.Base.{ℕ, ◌+◌, ◌*◌, ◌≤◌, ◌≡◌, refl, true, [], ◌∷◌, Memory, arith, ◌⊎◌, length}
use persimmon.Region.{Region}
use persimmon.RegionManager.{RegionManager, send_regions}
use persimmon.RegionFile.{File, LoadCalls, Try, failed, ok, einval}
use persimmon.RegionFile.Load.{loads}
use persimmon.Recovery.{
  pos, negsuc, region, tail, recovery_messages, ForegroundState, undo_recover_foreground,
  map_regions, map_recovered_regions, read_tail, store_tail,
}
use persimmon.Recovery.Foreground.{restored, succeeding, recovery_messages-undo_recover_foreground}
use persimmon.Recovery.Steps
use persimmon.Recovery.Steps.{
  sending, waiting, resumed, mapping, reading_tail, signalling, signalled, returned, returned_error,
  System, Run, here, next, send, close_btf, resume, map_region, read_sentinel, signal, close_ftb,
  start,
}
use persimmon.Recovery.Places.{load_all, HasSignalled}
use persimmon.Recovery.Order.{resumed-returned}
use persimmon.Recovery.Progress.{IsFinal, GaveUp, CanStep, steps, recovery-ends}

abbrev two_regions : RegionManager
two_regions = record {
  regions =
      record { base = 4096; size = 2; file_id = 1 }
      ∷ record { base = 8192; size = 1; file_id = 2 }
      ∷ [];
  rs = [];
}

abbrev squares : Memory
squares x = x * x

abbrev zeros : Memory
zeros x = 0

abbrev files : Region → File
files r = record { bytes = λ i. squares (r.base + i); size = r.size; synced = true }

abbrev calls : Region → LoadCalls
calls r = loads r.size

abbrev fresh : ForegroundState
fresh = record { p_tail = negsuc 0; mapped = []; memory = zeros }

recovers_two_regions :
    (m : Memory) × (undo_recover_foreground true
        (succeeding calls)
        files
        (recovery_messages two_regions 128)
        fresh
      ≡ ok (record { p_tail = pos 128; mapped = two_regions.regions; memory = m }))
    × ((x : ℕ) → m x ≡ restored squares two_regions.regions zeros x)
recovers_two_regions =
    recovery_messages-undo_recover_foreground squares calls files two_regions 128 fresh (λ r. refl)
      ((omega arith, omega arith), ((omega arith, omega arith), tt))
      ((λ i l. refl), ((λ i l. refl), tt))

-- A negative tail other than -1 is refused.
negative_tail :
    undo_recover_foreground true
      (succeeding calls)
      files
      (region (record { base = 0; size = 0; file_id = 0 }) ∷ tail (negsuc 4) ∷ [])
      fresh
    ≡ failed einval
unfolding undo_recover_foreground map_recovered_regions map_regions read_tail store_tail
negative_tail = refl

-- Every load succeeds and leaves the memory alone.
abbrev load : Region → Memory → Try Memory
load r m = ok m

abbrev page : Region
page = record { base = 4096; size = 2; file_id = 1 }

abbrev one_region : RegionManager
one_region = record { regions = page ∷ []; rs = [] }

abbrev sentinel : Region
sentinel = record { base = 0; size = 0; file_id = 0 }

abbrev at_end : System
at_end = record {
  background = resumed;
  foreground = returned (page ∷ []) (pos 128);
  btf = [];
  ftb = 0;
  memory = zeros;
}

-- The background process sends all, the foreground reads all and writes its byte.
whole_run : Run 3 load (start one_region 128 zeros) at_end
unfolding recovery_messages send_regions
whole_run =
    let first = start one_region 128 zeros in
    let sent1 = record first {
      background = sending (region sentinel ∷ tail (pos 128) ∷ []);
      btf = region page ∷ [];
    } in
    let sent2 = record sent1 {
      background = sending (tail (pos 128) ∷ []);
      btf = region page ∷ region sentinel ∷ [];
    } in
    let sent3 = record sent2 {
      background = sending [];
      btf = region page ∷ region sentinel ∷ tail (pos 128) ∷ [];
    } in
    let closed = record sent3 { background = waiting } in
    let mapped = record closed {
      foreground = mapping (page ∷ []);
      btf = region sentinel ∷ tail (pos 128) ∷ [];
    } in
    let marked = record mapped {
      foreground = reading_tail (page ∷ []);
      btf = tail (pos 128) ∷ [];
    } in
    let with_tail = record marked { foreground = signalling (page ∷ []) (pos 128); btf = [] } in
    let done' = record with_tail { foreground = signalled (page ∷ []) (pos 128); ftb = 1 } in
    let closed' = record done' { foreground = returned (page ∷ []) (pos 128) } in
    next {s = closed'}
      (next {s = done'}
        (next {s = with_tail}
          (next {s = marked}
            (next {s = mapped}
              (next {s = closed}
                (next {s = sent3}
                  (next {s = sent2}
                    (next {s = sent1}
                      (next {s = first} here (send first (region page) _ refl (omega arith)))
                      (send sent1 (region sentinel) _ refl (omega arith)))
                    (send sent2 (tail (pos 128)) _ refl (omega arith)))
                  (close_btf sent3 refl))
                (map_region closed [] page _ zeros refl refl refl refl))
              (read_sentinel mapped (page ∷ []) sentinel _ refl refl refl))
            (Steps.read_tail marked (page ∷ []) (pos 128) _ refl refl))
          (signal with_tail (page ∷ []) (pos 128) refl))
        (close_ftb done' (page ∷ []) (pos 128) refl))
      (resume closed' 0 refl refl)

resumed-returned_example :
    HasSignalled one_region.regions (pos 128) at_end.foreground
    × (load_all load one_region.regions zeros ≡ ok at_end.memory)
resumed-returned_example =
    resumed-returned 3 load one_region 128 zeros at_end (refl, tt) whole_run refl

recovery-ends_example :
    (steps 3 load (start one_region 128 zeros) at_end whole_run
      ≤ 2 * length one_region.regions + 12)
    × (IsFinal at_end ⊎ CanStep 3 load at_end ⊎ GaveUp at_end)
    × ((e : ℕ)
        → at_end.foreground ≡ returned_error e
        → at_end.background ≡ waiting
        → ¬ CanStep 3 load at_end)
recovery-ends_example =
    recovery-ends 3 load one_region 128 zeros (omega arith) at_end (refl, tt) whole_run
