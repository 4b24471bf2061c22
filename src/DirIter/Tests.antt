-- ===== src/DirIter/Tests.antt =====
-- A directory of three files, read in two parts.
use persimmon.Base.{ℕ, ◌+◌, ◌/◌, ◌≡◌, refl, ◌==◌, if◌then◌else◌, some, [], ◌∷◌}
use persimmon.DirIter.{Dirents, iterate_dir, visit_all, visit_buffer}

-- Entries of 24 bytes, with names that count on.
abbrev buffer : ℕ → ℕ → Dirents
buffer n first = record {
  error = 0;
  nread = n;
  d_name = λ bpos. first + bpos / 24;
  d_reclen = λ bpos. 24;
}

-- Counts the files, and fails with error 5 at file 9.
abbrev count : ℕ → ℕ → ℕ × ℕ
count name n = (if name == 9 then 5 else 0, n + 1)

counted :
    iterate_dir 0 3 count (buffer 48 7 ∷ buffer 24 9 ∷ buffer 0 0 ∷ []) 0
    ≡ some (record { ret = 5; closes = 1; state = 3 })
unfolding iterate_dir visit_all visit_buffer
counted = refl

all_fine :
    iterate_dir 0 3 count (buffer 48 20 ∷ buffer 24 22 ∷ buffer 0 0 ∷ []) 0
    ≡ some (record { ret = 0; closes = 1; state = 3 })
unfolding iterate_dir visit_all visit_buffer
all_fine = refl
