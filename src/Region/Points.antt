-- ===== src/Region/Points.antt =====
-- Regions as sets of addresses.
use persimmon.Base.{ℕ, ◌+◌, ◌-◌, ◌<◌, ◌≡◌, true, false, arith, word, max}
use persimmon.Region.{Region, does_include, does_include_region, does_overlap_with}

-- A region with bytes, that does not wrap round the end of the address space.
abbrev pub IsProper : Region → Type 0
IsProper r = (0 < r.size) × (r.base + r.size < word)

-- The test of `does_overlap_with` decides whether two regions share an address: if it says so, both
-- hold the greater of the two bases, and otherwise no address lies in both.
pub does_overlap_with-shared :
    (r other : Region)
    → IsProper r
    → IsProper other
    → ((does_overlap_with r other ≡ true)
        → (does_include r (max r.base other.base) ≡ true)
          × (does_include other (max r.base other.base) ≡ true))
      × ((does_overlap_with r other ≡ false)
          → (p : ℕ) → does_include r p ≡ true
          → does_include other p ≡ false)
unfolding does_overlap_with does_include
does_overlap_with-shared r other a b = (λ h. (ground arith, ground arith), λ h p i. ground arith)

-- The test of a region inside another by its two ends: it holds just when each of its addresses
-- lies in the other.
pub does_include_region-all :
    (r other : Region)
    → IsProper r
    → IsProper other
    → ((does_include_region r other ≡ true)
        → (p : ℕ) → does_include other p ≡ true
        → does_include r p ≡ true)
      × (((p : ℕ) → does_include other p ≡ true → does_include r p ≡ true)
          → does_include_region r other ≡ true)
unfolding does_include_region does_include
does_include_region-all r other a b = (
  λ h p i. ground arith,
  λ h.
      let first = h other.base (ground arith) in
      let last = h (other.base + other.size - 1) (ground arith) in ground arith,
)
