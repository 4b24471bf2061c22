-- ===== src/Recovery.antt =====
-- The recovery that the two processes make together: the end of `dr_client_main` in
-- src/undo/instrument.cc, with `send_regions`, and `undo_recover_foreground` of src/undo/undo_fg.cc,
-- with `map_recovered_regions` of src/undo/mem_region/fg.cc. A pipe is the list of what has been
-- written to it, each write being smaller than PIPE_BUF. What a system call gives back is an argument.
pub mod Foreground
pub mod Steps
pub mod Places
pub mod Order
pub mod Progress
mod Tests
use persimmon.Base.{
  ℕ, zero, suc, ◌+◌, Bool, true, false, not, ◌&&◌, ltb, ◌==◌, if◌then◌else◌, List, [], ◌∷◌, ◌++◌,
  map, Memory,
}
use persimmon.Region.{Region}
use persimmon.RegionManager.{RegionManager, send_regions}
use persimmon.RegionFile.{
  File, LoadCalls, load_region, Try, failed, ok, ◌>>=◌, ◌>>◌, fail_if, einval,
}

-- A C++ `int`, where its sign matters.
pub data ℤ : Type 0 where
  pos : ℕ → ℤ
  negsuc : ℕ → ℤ

-- What the background process writes to the pipe: a `region`, or the recovered tail.
pub data Message : Type 0 where
  region : Region → Message
  tail : ℤ → Message

-- What `dr_client_main` sends, when the assertion on the tail holds.
unfoldable pub recovery_messages : RegionManager → ℕ → List Message
recovery_messages mrm recovered_tail =
    map region (send_regions mrm) ++ (tail (pos recovered_tail) ∷ [])

-- The region that marks the end.
abbrev pub is_sentinel : Region → Bool
is_sentinel r = r.base == 0 && r.size == 0

-- The loop of `map_recovered_regions`: the regions mapped, in order, what stays in the pipe, and the
-- memory. A read from an empty pipe, whose writer has closed it, or of a tail is too short.
pub map_regions :
    (Region → LoadCalls)
    → (Region → File)
    → List Message
    → Memory
    → Try (List Region × (List Message × Memory))
map_regions calls files [] m = failed einval
map_regions calls files (tail t ∷ pipe) m = failed einval
map_regions calls files (region r ∷ pipe) m = if is_sentinel r then ok ([], (pipe, m)) else (do
  m' ← load_region (calls r) (files r) r m
  (mapped, left) ← map_regions calls files pipe m'
  ok (r ∷ mapped, left))

-- What the other system calls of the foreground give back: error numbers, with 0 for success, and
-- how much the write to the other pipe writes.
pub record ForegroundCalls : Type 0 where
  pub close_unused_error : ℕ
  pub open_directory_error : ℕ
  pub load : Region → LoadCalls
  pub close_directory_error : ℕ
  pub close_btf_error : ℕ
  pub write_error : ℕ
  pub nwritten : ℕ
  pub close_ftb_error : ℕ

pub map_recovered_regions :
    ForegroundCalls
    → (Region → File)
    → List Message
    → Memory
    → Try (List Region × (List Message × Memory))
unfolding map_regions
map_recovered_regions calls files pipe m = do
  fail_if (ltb 0 calls.open_directory_error) calls.open_directory_error
  result ← map_regions calls.load files pipe m
  fail_if (ltb 0 calls.close_directory_error) calls.close_directory_error
  ok result

-- The read of the tail.
read_tail : List Message → Try (ℤ × List Message)
read_tail [] = failed einval
read_tail (tail t ∷ pipe) = ok (t, pipe)
read_tail (region r ∷ pipe) = failed einval

-- The tail is stored at `p_tail`, unless it is -1.
store_tail : ℤ → ℤ → Try ℤ
store_tail p_tail (pos t) = ok (pos t)
store_tail p_tail (negsuc zero) = ok p_tail
store_tail p_tail (negsuc (suc n)) = failed einval

-- What the foreground has when `undo_recover_foreground` returns 0.
pub record ForegroundState : Type 0 where
  pub p_tail : ℤ
  pub mapped : List Region
  pub memory : Memory

-- `undo_recover_foreground`, with the memory and the variable that `p_tail` points to.
pub undo_recover_foreground :
    Bool → ForegroundCalls → (Region → File) → List Message → ForegroundState → Try ForegroundState
unfolding map_recovered_regions read_tail store_tail
undo_recover_foreground false calls files pipe s = ok s
undo_recover_foreground true calls files pipe s = do
  fail_if (ltb 0 calls.close_unused_error) calls.close_unused_error
  (mapped, (pipe', m)) ← map_recovered_regions calls files pipe s.memory
  (recovered_tail, left) ← read_tail pipe'
  fail_if (ltb 0 calls.close_btf_error) calls.close_btf_error
  fail_if (ltb 0 calls.write_error) calls.write_error
  fail_if (ltb calls.nwritten 1) einval
  fail_if (ltb 0 calls.close_ftb_error) calls.close_ftb_error
  p_tail ← store_tail s.p_tail recovered_tail
  ok (record { p_tail = p_tail; mapped = mapped; memory = m })
