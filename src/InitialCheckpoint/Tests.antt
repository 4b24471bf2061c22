-- ===== src/InitialCheckpoint/Tests.antt =====
-- A process with the standard streams, on a system that takes the lowest free descriptor.
use persimmon.Base.{
  ℕ, zero, suc, ◌+◌, ◌≤◌, ◌<◌, ◌≡◌, ◌≢◌, refl, true, ltb, if◌then◌else◌, none, some, arith,
  Option-cases, Bool-cases, inl, inr,
}
use persimmon.RegionFile.{failed, ok}
use persimmon.InitialCheckpoint.{
  dev_null_ro, dev_null_wo, log_file, other, Fds, restored, dump_failed, Checkpointed,
  take_initial_chkpt, redirect_stdin, redirect_outputs, after_dump,
}
use persimmon.InitialCheckpoint.Redirected.{
  IsPick, Below, limit, succeeds, streams, take_initial_chkpt-streams,
}

free_from : ℕ → Fds → ℕ → ℕ
free_from zero fds at = at
free_from (suc rounds) fds at = elim (fds at) [
  | none ↦ at
  | some target ↦ free_from rounds fds (suc at)
]

lowest : Fds → ℕ
lowest fds = free_from (limit + 1) fds 0

free_from-free :
    (rounds n : ℕ) (fds : Fds) (at : ℕ)
    → Below n fds
    → at ≤ n
    → n < at + rounds
    → (fds (free_from rounds fds at) ≡ none) × (free_from rounds fds at ≤ n)
unfolding free_from
free_from-free zero n fds at b l m = absurd (omega arith)
free_from-free (suc rounds) n fds at b l m = elim (Option-cases (fds at)) [
  | inl free ↦ rw (free_from, free) (free, l)
  | inr (target, used) ↦
      rw (free_from, used)
        (free_from-free rounds n fds (suc at) b
          (elim (Bool-cases (ltb at n)) [
            | inl below ↦ ground arith
            | inr above ↦ absurd (let none_left = b at (ground arith) in cc)
          ])
          (omega arith))
]

lowest-IsPick : IsPick lowest
unfolding lowest
lowest-IsPick n fds l b = free_from-free (limit + 1) n fds 0 b (omega arith) (omega arith)

abbrev three_streams : Fds
three_streams x = if ltb x 3 then some (other x) else none

take_initial_chkpt-streams_example :
    (c : Checkpointed) × (take_initial_chkpt succeeds lowest restored three_streams ≡ ok c)
    × (c.jumps ≡ true)
    × (dirfd : ℕ) × (imgs_dirfd : ℕ) × (three_streams dirfd ≡ none)
    × (three_streams imgs_dirfd ≡ none)
    × ((x : ℕ)
        → x ≢ dirfd
        → x ≢ imgs_dirfd
        → c.at_dump x ≡ streams (some dev_null_ro) dev_null_wo three_streams x)
    × ((x : ℕ) → c.at_end x ≡ streams (some dev_null_ro) log_file three_streams x)
take_initial_chkpt-streams_example =
    take_initial_chkpt-streams lowest three_streams true 3 lowest-IsPick
      ((λ e. absurd cc), (λ e. absurd cc), (λ e. absurd cc)) (λ x l. ground arith) (omega arith)

-- A directory of images that is there already is no error; a failed dump is.
abbrev exists_at_11 : ℕ → ℕ
exists_at_11 n = if ltb n 11 then 0 else if ltb n 12 then 17 else 0

dump_fails : take_initial_chkpt exists_at_11 (λ fds. 5) (dump_failed 9) three_streams ≡ failed 9
unfolding take_initial_chkpt redirect_stdin redirect_outputs after_dump
dump_fails = refl
