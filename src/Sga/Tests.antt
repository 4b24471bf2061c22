-- ===== src/Sga/Tests.antt =====
-- An entry with two segments.
use persimmon.Base.{ℕ, zero, suc, ◌+◌, ◌≡◌, refl, some, List, [], ◌∷◌, length, Memory, arith}
use persimmon.Sga.{Seg, sga_consume}
use persimmon.Sga.Decode.{layout, segs_at, sga_consume-layout}

abbrev two_segs : List (List ℕ)
two_segs = (7 ∷ 8 ∷ []) ∷ (9 ∷ []) ∷ []

abbrev bytes_of : List ℕ → Memory
bytes_of [] i = 0
bytes_of (b ∷ bs) zero = b
bytes_of (b ∷ bs) (suc i) = bytes_of bs i

abbrev two_entry : Memory
two_entry = bytes_of (2 ∷ layout two_segs)

-- Counts the segments of each entry.
abbrev count_segs : Memory → List Seg → ℕ → ℕ
count_segs bytes segs n = n + length segs

sga_consume-layout_example :
    sga_consume count_segs two_entry 5
    ≡ some (1 + length (layout two_segs), count_segs two_entry (segs_at 1 two_segs) 5)
sga_consume-layout_example =
    sga_consume-layout count_segs two_entry two_segs 5 (omega arith) (omega arith) (
      refl,
      (refl, (refl, (refl, (refl, (refl, (refl, (refl, (refl, (refl, (refl, (refl, tt))))))))))),
    )
