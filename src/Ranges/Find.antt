-- ===== src/Ranges/Find.antt =====
-- `ranges::find` of a range against `find` of a point.
use persimmon.Base.{
  ℕ, suc, ◌+◌, ◌≤◌, ◌<◌, ◌≡◌, ◌↔◌, refl, true, false, List, [], ◌∷◌, arith, dec_lt, sym, ◌∙◌, word,
  inside,
}
use persimmon.Ranges.{clear, Range, includes_range, any_includes, find, find_range}
use persimmon.Ranges.Order.{IsBounded, Coalesced}

-- A point below all the ranges is in none.
find-below : (lo p : ℕ) (v : List Range) → Coalesced lo v → p < lo → find v p ≡ false
unfolding find
find-below lo p [] h l = refl
find-below lo p (r ∷ rs) h l = ground (arith, find-below (suc (r.start + r.size)) p rs h.2)

any_includes_sound :
    (lo : ℕ) (v : List Range) (r : Range) (p : ℕ)
    → Coalesced lo v
    → IsBounded r
    → any_includes v r ≡ true
    → inside r.start r.size p ≡ true
    → find v p ≡ true
unfolding any_includes includes_range find
any_includes_sound lo [] r p h b e i = absurd (ground arith)
any_includes_sound lo (x ∷ xs) r p h b e i =
    ground (arith, any_includes_sound (suc (x.start + x.size)) xs r p h.2)

-- What the first range leaves to the others.
find-tail :
    (lo : ℕ) (x : Range) (xs : List Range) (q : ℕ)
    → Coalesced lo (x ∷ xs)
    → x.start + x.size ≤ q
    → q < word
    → find (x ∷ xs) q ≡ find xs q
unfolding find
find-tail lo x xs q h l w = ground arith

module _ (r : Range) (b : IsBounded r) (n : 0 < r.size) where
  abbrev Covered : List Range → Type 0
  Covered v = (p : ℕ) → r.start ≤ p → p < r.start + r.size → find v p ≡ true

  -- The first range holds the start, and the point behind the range is in no other.
  Covered-head :
      (lo : ℕ) (x : Range) (xs : List Range)
      → Coalesced lo (x ∷ xs)
      → Covered (x ∷ xs)
      → x.start ≤ r.start
      → r.start < x.start + x.size
      → includes_range x r ≡ true
  unfolding includes_range
  Covered-head lo x xs h c s e = elim (dec_lt (x.start + x.size) (r.start + r.size)) [
    | no fits ↦ ground arith
    | yes over ↦
        let q = x.start + x.size in
        let found = c q (omega arith) over in
        let lost = find-tail lo x xs q h (omega arith) (omega arith) in
        let below = find-below (suc q) q xs h.2 (omega arith) in cc
  ]

  any_includes_complete :
      (lo : ℕ) (v : List Range) → Coalesced lo v → Covered v → any_includes v r ≡ true
  unfolding any_includes
  any_includes_complete lo [] h c =
      let found = c r.start (omega arith) (omega arith) in
      let lost = find-below (suc r.start) r.start [] tt (omega arith) in cc
  any_includes_complete lo (x ∷ xs) h c = elim (dec_lt r.start x.start) [
    | yes before ↦
        let found = c r.start (omega arith) (omega arith) in
        let lost = find-below x.start r.start (x ∷ xs) (omega arith, h.1, h.2) before in cc
    | no not_before ↦ elim (dec_lt r.start (x.start + x.size)) [
      | yes within ↦ rw (Covered-head lo x xs h c (omega arith) within) refl
      | no after ↦
          let rest =
            any_includes_complete (suc (x.start + x.size)) xs h.2
              (λ p s e. sym (find-tail lo x xs p h (omega arith) (omega arith)) ∙ c p s e) in
          ground arith
    ]
  ]

-- For a non-empty range, `find(start, size)` says whether every one of its points is in the set.
pub find_range_iff :
    (v : List Range) (start size : ℕ)
    → Coalesced 0 v
    → start + size < word
    → 0 < size
    → (find_range v start size ≡ true) ↔ ((p : ℕ) → start ≤ p → p < start + size → find v p ≡ true)
unfolding find_range
find_range_iff v start size h b n = (
  λ e p s l. any_includes_sound 0 v r p h b (ground arith) (ground arith),
  λ c. ground (arith, any_includes_complete r b n 0 v h c),
)
  where
    r : Range
    r = record { start = start; size = size }

pub find-clear : (v : List Range) (x : ℕ) → find (clear v) x ≡ false
unfolding find clear
find-clear v x = refl

pub clear-Coalesced : (v : List Range) → Coalesced 0 (clear v)
unfolding clear
clear-Coalesced v = tt
