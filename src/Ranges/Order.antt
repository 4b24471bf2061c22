-- ===== src/Ranges/Order.antt =====
-- "Sorted, coalesced": the invariant of the vector, and the weaker order that `insert` passes
-- through between its two loops.
use persimmon.Base.{ℕ, suc, ◌+◌, ◌≤◌, ◌<◌, List, [], ◌∷◌, word, arith}
use persimmon.Ranges.{Range}

-- No range wraps round the end of the address space.
abbrev pub IsBounded : Range → Type 0
IsBounded r = r.start + r.size < word

-- Ranges in ascending order from `lo` on, with a gap between each and the next.
abbrev pub Coalesced : ℕ → List Range → Type 0
Coalesced lo [] = Unit
Coalesced lo (r ∷ rs) = (lo ≤ r.start) × IsBounded r × Coalesced (suc (r.start + r.size)) rs

-- Ranges in ascending order from `lo` on, which may meet and overlap.
abbrev pub Ascending : ℕ → List Range → Type 0
Ascending lo [] = Unit
Ascending lo (r ∷ rs) = (lo ≤ r.start) × IsBounded r × Ascending r.start rs

pub Ascending-mono : (a b : ℕ) (rs : List Range) → a ≤ b → Ascending b rs → Ascending a rs
Ascending-mono a b [] h s = tt
Ascending-mono a b (r ∷ rs) h s = (omega arith, s.1, s.2)

pub Coalesced-mono : (a b : ℕ) (rs : List Range) → a ≤ b → Coalesced b rs → Coalesced a rs
Coalesced-mono a b [] h s = tt
Coalesced-mono a b (r ∷ rs) h s = (omega arith, s.1, s.2)

pub Coalesced-Ascending : (lo : ℕ) (rs : List Range) → Coalesced lo rs → Ascending lo rs
Coalesced-Ascending lo [] h = tt
Coalesced-Ascending lo (r ∷ rs) h = (
  h.0,
  h.1,
  Ascending-mono r.start (suc (r.start + r.size)) rs (omega arith)
      (Coalesced-Ascending (suc (r.start + r.size)) rs h.2),
)
