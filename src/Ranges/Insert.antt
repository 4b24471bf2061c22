-- ===== src/Ranges/Insert.antt =====
-- `ranges::insert` keeps the vector sorted and coalesced, and adds the points of the new range.
use persimmon.Base.{
  ℕ, suc, ◌+◌, ◌≤◌, ◌<◌, ◌≡◌, refl, ◌∙◌, true, false, ◌||◌, List, [], ◌∷◌, max, arith, word, inside,
  Bool-cases, inl, inr, leb, sub_word, add_word,
}
use persimmon.Ranges.{
  Range, includes, precedes, insert_sorted, coalesce_from, coalesce, insert, find,
}
use persimmon.Ranges.Order.{IsBounded, Coalesced, Ascending, Ascending-mono, Coalesced-Ascending}

insert_sorted-Ascending :
    (lo : ℕ) (r : Range) (xs : List Range)
    → lo ≤ r.start
    → IsBounded r
    → Ascending lo xs
    → Ascending lo (insert_sorted r xs)
unfolding insert_sorted precedes
insert_sorted-Ascending lo r [] h b s = (h, b, tt)
insert_sorted-Ascending lo r (x ∷ xs) h b s = ground (arith, insert_sorted-Ascending x.start r xs)

find-insert_sorted :
    (r : Range) (xs : List Range) (p : ℕ)
    → find (insert_sorted r xs) p ≡ (includes r p || find xs p)
unfolding insert_sorted find
find-insert_sorted r [] p = refl
find-insert_sorted r (x ∷ xs) p = ground (arith, find-insert_sorted r xs p)

-- What the second loop makes of `prev` and a range that meets it.
abbrev joined : Range → Range → Range
joined prev curr = record prev {
  size = max prev.size (sub_word (add_word curr.start curr.size) prev.start);
}

joined-IsBounded :
    (prev curr : Range)
    → IsBounded prev
    → IsBounded curr
    → prev.start ≤ curr.start
    → IsBounded (joined prev curr)
joined-IsBounded prev curr b c h = omega arith

includes-joined :
    (prev curr : Range) (p : ℕ)
    → IsBounded prev
    → IsBounded curr
    → prev.start ≤ curr.start
    → leb (sub_word curr.start prev.start) prev.size ≡ true
    → includes (joined prev curr) p ≡ (includes prev p || includes curr p)
unfolding includes
includes-joined prev curr p b c h m = ground arith

-- A bounded range whose start is out of reach of `prev` leaves a gap.
apart :
    (prev curr : Range)
    → IsBounded curr
    → prev.start ≤ curr.start
    → leb (sub_word curr.start prev.start) prev.size ≡ false
    → suc (prev.start + prev.size) ≤ curr.start
apart prev curr c h m = ground arith

coalesce_from-Coalesced :
    (lo : ℕ) (prev : Range) (rest : List Range)
    → lo ≤ prev.start
    → IsBounded prev
    → Ascending prev.start rest
    → Coalesced lo (coalesce_from prev rest)
unfolding coalesce_from
coalesce_from-Coalesced lo prev [] h b s = (h, b, tt)
coalesce_from-Coalesced lo prev (curr ∷ rest) h b s =
    elim (Bool-cases (leb (sub_word curr.start prev.start) prev.size)) [
      | inl meets ↦
          rw (meets, coalesce_from)
            (coalesce_from-Coalesced lo (joined prev curr) rest h
              (joined-IsBounded prev curr b s.1 s.0)
              (Ascending-mono prev.start curr.start rest s.0 s.2))
      | inr gap ↦
          rw (gap, coalesce_from)
            (
              h,
              b,
              coalesce_from-Coalesced (suc (prev.start + prev.size)) curr rest
                  (apart prev curr s.1 s.0 gap) s.1 s.2,
            )
    ]

find-coalesce_from :
    (prev : Range) (rest : List Range) (p : ℕ)
    → IsBounded prev
    → Ascending prev.start rest
    → find (coalesce_from prev rest) p ≡ (includes prev p || find rest p)
unfolding coalesce_from find
find-coalesce_from prev [] p b s = refl
find-coalesce_from prev (curr ∷ rest) p b s =
    elim (Bool-cases (leb (sub_word curr.start prev.start) prev.size)) [
      | inl meets ↦
          rw (meets, coalesce_from)
            (ground (
              arith,
              find-coalesce_from (joined prev curr) rest p (joined-IsBounded prev curr b s.1 s.0)
                  (Ascending-mono prev.start curr.start rest s.0 s.2),
              includes-joined prev curr p b s.1 s.0 meets,
            ))
      | inr gap ↦ rw (gap, coalesce_from) (ground (arith, find-coalesce_from curr rest p s.1 s.2))
    ]

coalesce-Coalesced : (rs : List Range) → Ascending 0 rs → Coalesced 0 (coalesce rs)
unfolding coalesce
coalesce-Coalesced [] s = tt
coalesce-Coalesced (r ∷ rs) s = coalesce_from-Coalesced 0 r rs s.0 s.1 s.2

find-coalesce : (rs : List Range) (p : ℕ) → Ascending 0 rs → find (coalesce rs) p ≡ find rs p
unfolding coalesce find
find-coalesce [] p s = refl
find-coalesce (r ∷ rs) p s = find-coalesce_from r rs p s.1 s.2

module _ (v : List Range) (start size : ℕ) (h : Coalesced 0 v) (b : start + size < word) where
  abbrev new : Range
  new = record { start = start; size = size }

  ascending : Ascending 0 (insert_sorted new v)
  ascending = insert_sorted-Ascending 0 new v (omega arith) b (Coalesced-Ascending 0 v h)

  -- `insert` keeps the vector sorted, coalesced and free of ranges that wrap.
  pub insert-Coalesced : Coalesced 0 (insert v start size)
  unfolding insert
  insert-Coalesced = coalesce-Coalesced (insert_sorted new v) ascending

  -- After `insert` exactly the points that were found before, and those of [start, start + size),
  -- are found.
  pub find-insert :
      (p : ℕ) → p < word → find (insert v start size) p ≡ (inside start size p || find v p)
  unfolding insert includes
  find-insert p w =
      find-coalesce (insert_sorted new v) p ascending ∙ find-insert_sorted new v p ∙ ground arith
