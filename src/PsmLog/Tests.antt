-- ===== src/PsmLog/Tests.antt =====
-- The log at work on small entries, and its theorems at concrete logs.
use persimmon.Base.{
  ℕ, suc, ◌+◌, ◌%◌, ◌≤◌, ◌<◌, ◌≡◌, refl, inl, List, [], ◌∷◌, arith, length, Memory, false, some,
  inside, ◌==◌, if◌then◌else◌,
}
use persimmon.PsmLog.{
  log_size, align_to_cache_line_size, Holds, done, spinning, Psm, PmemCopy, push, reserve, place,
  commit, consume, initial, needed, spin_for_space, free_space, reserve_aligned,
}
use persimmon.PsmLog.Live.{distance, IsValid, IsDurable}
use persimmon.PsmLog.Reserve.{Placed, reserve-Placed}
use persimmon.PsmLog.Returns.{reserve-returns, reserve-stuck}
use persimmon.PsmLog.Stored.{Stored, Holds-frame}
use persimmon.PsmLog.Push.{Contains, push-Contains}
use persimmon.PsmLog.Commit.{Committed, commit-Committed}
use persimmon.PsmLog.Consume.{Reads, consume-Stored}
use persimmon.PsmLog.Trace.{Trace, start, pushes, Queue, Trace-Queue}

-- A copy, byte by byte.
abbrev copy_bytes : Memory → ℕ → List ℕ → Memory
copy_bytes m a [] x = m x
copy_bytes m a (b ∷ bs) x = if x == a then b else copy_bytes m (suc a) bs x

copy_bytes-copied : (m : Memory) (a : ℕ) (bs : List ℕ) → Holds (copy_bytes m a bs) a bs
copy_bytes-copied m a [] = tt
copy_bytes-copied m a (b ∷ bs) = (
  ground arith,
  Holds-frame (copy_bytes m (suc a) bs) (copy_bytes m a (b ∷ bs)) (suc a) bs (λ x l u. ground arith)
      (copy_bytes-copied m (suc a) bs),
)

copy_bytes-kept :
    (m : Memory) (a : ℕ) (bs : List ℕ) (x : ℕ)
    → inside a (length bs) x ≡ false
    → copy_bytes m a bs x ≡ m x
copy_bytes-kept m a [] x h = refl
copy_bytes-kept m a (b ∷ bs) x h = ground (arith, copy_bytes-kept m (suc a) bs x)

abbrev by_bytes : PmemCopy
by_bytes = record { copy = copy_bytes; copied = copy_bytes-copied; kept = copy_bytes-kept }

-- Commands of three bytes: a mark, and a number to add.
abbrev add_command : (ℕ → ℕ) → ℕ → ℕ × ℕ
add_command view s = (3, s + view 1)

abbrev add_second : List ℕ → ℕ → ℕ
add_second [] s = s
add_second (a ∷ []) s = s
add_second (a ∷ v ∷ r) s = s + v

add_command-Reads : (a v w : ℕ) → Reads add_command add_second (a ∷ v ∷ w ∷ [])
add_command-Reads a v w view s h = ground arith

abbrev one_pushed : Psm
one_pushed = record initial {
  buf = copy_bytes initial.buf 0 (1 ∷ 5 ∷ 7 ∷ []);
  persisted = copy_bytes initial.persisted 0 (1 ∷ 5 ∷ 7 ∷ []);
  local_head = 64;
}

push_runs : push by_bytes initial (1 ∷ 5 ∷ 7 ∷ []) [] ≡ done one_pushed
unfolding push reserve place reserve_aligned spin_for_space free_space align_to_cache_line_size
    initial
push_runs = refl

initial-IsValid : IsValid initial
unfolding initial
initial-IsValid = omega arith

initial-IsDurable : IsDurable initial
unfolding initial
initial-IsDurable x b l = refl

abbrev one_reserved : Psm
one_reserved = record initial { local_head = 64 }

reserve_runs : reserve initial 3 [] ≡ done (0, one_reserved)
unfolding reserve place reserve_aligned spin_for_space free_space align_to_cache_line_size initial
reserve_runs = refl

reserve-Placed_example :
    IsValid one_reserved
    × Placed initial (align_to_cache_line_size 3) 0 one_reserved
    × (3 ≤ align_to_cache_line_size 3)
reserve-Placed_example =
    reserve-Placed initial 3 [] 0 one_reserved initial-IsValid tt (omega arith) reserve_runs

needed-initial :
    needed initial (align_to_cache_line_size 3) + distance 0 initial.local_head < log_size
unfolding initial align_to_cache_line_size
needed-initial = omega arith

reserve-returns_example : (r : ℕ × Psm) × (reserve initial 3 (0 ∷ []) ≡ done r)
reserve-returns_example =
    reserve-returns initial 3 0 [] initial-IsValid (omega arith) (omega arith) (omega arith)
      needed-initial

-- An empty log with the head in its middle, and a request of more than half of it.
abbrev halfway : Psm
halfway = record initial {
  log_head = 524288;
  log_tail = 524288;
  head = 524288;
  tail = 524288;
  local_head = 524288;
  local_tail = 524288;
}

reserve-stuck_example : reserve halfway 600000 (524288 ∷ 524288 ∷ []) ≡ spinning
reserve-stuck_example =
    reserve-stuck halfway 600000 (524288 ∷ 524288 ∷ []) (omega arith) (omega arith) (omega arith)
      (omega arith) (omega arith) (omega arith)

push-Contains_example :
    IsValid one_pushed × IsDurable one_pushed × Contains one_pushed [] ((1 ∷ 5 ∷ 7 ∷ []) ∷ [])
unfolding initial
push-Contains_example =
    push-Contains by_bytes initial 1 (5 ∷ 7 ∷ []) [] [] [] one_pushed initial-IsValid
      initial-IsDurable tt (omega arith) (omega arith) (omega arith) push_runs

commit-Committed_example : (q : Psm) × (commit one_pushed false ≡ done q) × Committed one_pushed q
commit-Committed_example =
    commit-Committed one_pushed false push-Contains_example.0 push-Contains_example.1 (inl refl)

pushed_Stored : Stored one_pushed.buf 0 64 ((1 ∷ 5 ∷ 7 ∷ []) ∷ [])
unfolding initial
pushed_Stored = push-Contains_example.2.1

consume-Stored_example :
    (t : ℕ) × (d : ℕ) × (consume one_pushed.buf add_command 64 0 4 ≡ done (some (t, 9)))
    × (t < log_size)
    × (d < log_size)
    × (64 ≡ (t + d) % log_size)
    × Stored one_pushed.buf t d []
    × (t % 64 ≡ 0)
    × (distance 0 t + d ≡ 64)
consume-Stored_example =
    consume-Stored add_command add_second one_pushed.buf 0 64 64 (1 ∷ 5 ∷ 7 ∷ []) [] 4 (omega arith)
      (omega arith) (omega arith) (add_command-Reads 1 5 7) pushed_Stored

pushed_Trace : Trace by_bytes add_command add_second 4 one_pushed 4 ((1 ∷ 5 ∷ 7 ∷ []) ∷ [])
pushed_Trace =
    pushes 1 (5 ∷ 7 ∷ []) [] one_pushed start tt (omega arith) (omega arith)
      (add_command-Reads 1 5 7) push_runs

Trace-Queue_example : Queue by_bytes add_command add_second 4 one_pushed 4 ((1 ∷ 5 ∷ 7 ∷ []) ∷ [])
Trace-Queue_example = Trace-Queue by_bytes add_command add_second 4 pushed_Trace
