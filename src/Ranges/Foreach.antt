-- ===== src/Ranges/Foreach.antt =====
-- What `foreach` of src/undo/mem_region/ranges.h reaches.
use persimmon.Base.{ℕ, ◌+◌, ◌≤◌, ◌<◌, ◌≡◌, true, List, [], ◌∷◌, word, arith, Bool-cases, inl, inr}
use persimmon.Ranges.{Range, find, includes, foreach}

module _ {ℓ} {S : Type ℓ} (f : ℕ → ℕ → S → S) (P : S → Type 0) where
  -- What each call keeps, they all keep.
  pub foreach-keeps :
      ((start size : ℕ) (s : S) → P s → P (f start size s))
      → (rs : List Range) (s : S) → P s
      → P (foreach f rs s)
  unfolding foreach
  foreach-keeps k [] s h = h
  foreach-keeps k (r ∷ rs) s h = foreach-keeps k rs (f r.start r.size s) (k r.start r.size s h)

  -- What the call for the range of a point establishes holds in the end, if the point is found.
  pub foreach-reaches :
      (x : ℕ)
      → x < word
      → ((start size : ℕ) (s : S) → P s → P (f start size s))
      → ((start size : ℕ) (s : S) → start ≤ x → x < start + size → P (f start size s))
      → (rs : List Range) (s : S) → find rs x ≡ true
      → P (foreach f rs s)
  unfolding foreach find includes
  foreach-reaches x w k e [] s h = absurd (ground arith)
  foreach-reaches x w k e (r ∷ rs) s h = elim (Bool-cases (find rs x)) [
    | inl later ↦ foreach-reaches x w k e rs (f r.start r.size s) later
    | inr own ↦
        foreach-keeps k rs (f r.start r.size s) (e r.start r.size s (ground arith) (ground arith))
  ]
