-- ===== src/Ranges/Remove.antt =====
-- What `ranges::remove` leaves.
use persimmon.Base.{
  ℕ, suc, ◌+◌, ◌-◌, ◌≤◌, ◌<◌, ◌≡◌, refl, Bool, true, false, not, ◌&&◌, ◌||◌, some, List, [], ◌∷◌,
  ◌++◌, arith, word, inside, ltb, leb, if◌then◌else◌, sub_word, ◌∙◌,
}
use persimmon.Ranges.{
  Range, includes, includes_range, intersects, end, find, append_part, left_part, right_part,
  remove_from, remove_all, remove,
}
use persimmon.Ranges.Order.{IsBounded, Coalesced, Coalesced-mono}

-- The pieces that the loop body appends, with no assertion.
abbrev part_list : Range → List Range
part_list p = if ltb 0 p.size then p ∷ [] else []

left_pieces : Range → Range → List Range
left_pieces k r = if includes r k.start then part_list (left_part r k) else []

right_pieces : Range → Range → List Range
right_pieces k r = if includes r (sub_word (end k) 1) then part_list (right_part r k) else []

-- Does the range hold the first or the last removed point?
abbrev pub holds_end : Range → Range → Bool
holds_end k r = includes r k.start || includes r (sub_word (end k) 1)

-- The points of the ranges that hold an end of the removed one, but for those removed.
abbrev pub remains : Range → List Range → ℕ → Bool
remains k [] p = false
remains k (r ∷ rs) p =
    (holds_end k r && (includes r p && not (inside k.start k.size p))) || remains k rs p

abbrev pieces : Range → Range → List Range
pieces k r = left_pieces k r ++ right_pieces k r

find-append : (xs ys : List Range) (p : ℕ) → find (xs ++ ys) p ≡ (find xs p || find ys p)
unfolding find
find-append [] ys p = refl
find-append (x ∷ xs) ys p = ground (arith, find-append xs ys p)

-- Without wrap a range includes the points inside it.
includes-inside :
    (r : Range) (p : ℕ) → IsBounded r → p < word → includes r p ≡ inside r.start r.size p
unfolding includes
includes-inside r p b w = ground arith

module _ (k : Range) (n : 0 < k.size) (kb : IsBounded k) where
  append_left :
      (r : Range)
      → IsBounded r
      → includes r k.start ≡ true
      → append_part r k (left_part r k) ≡ some (part_list (left_part r k))
  unfolding append_part left_part includes includes_range intersects
  append_left r b h = ground arith

  append_right :
      (r : Range)
      → IsBounded r
      → includes r (sub_word (end k) 1) ≡ true
      → append_part r k (right_part r k) ≡ some (part_list (right_part r k))
  unfolding append_part right_part includes includes_range intersects
  append_right r b h = ground arith

  -- No assertion of the loop body fails.
  remove_from-pieces :
      (r : Range) → IsBounded r → remove_from k r ≡ some (left_pieces k r ++ right_pieces k r)
  unfolding remove_from left_pieces right_pieces
  remove_from-pieces r b = ground (arith, append_left r b, append_right r b)

  abbrev last : ℕ
  last = k.start + k.size - 1

  last_lem : sub_word (end k) 1 ≡ last
  last_lem = omega arith

  find-left :
      (r : Range) (p : ℕ)
      → IsBounded r
      → p < word
      → find (left_pieces k r) p ≡ (includes r k.start && (leb r.start p && ltb p k.start))
  unfolding find includes left_part left_pieces
  find-left r p b w = ground arith

  find-right :
      (r : Range) (p : ℕ)
      → IsBounded r
      → p < word
      → find (right_pieces k r) p ≡ (
          includes r (sub_word (end k) 1) && (leb (k.start + k.size) p && ltb p (r.start + r.size)))
  unfolding find includes right_part right_pieces
  find-right r p b w = ground arith

  find-pieces :
      (r : Range) (p : ℕ)
      → IsBounded r
      → p < word
      → find (pieces k r) p ≡ (holds_end k r && (includes r p && not (inside k.start k.size p)))
  find-pieces r p b w =
      find-append (left_pieces k r) (right_pieces k r) p
      ∙ ground (
        arith,
        find-left r p b w,
        find-right r p b w,
        includes-inside r p b w,
        includes-inside r k.start b (omega arith),
        includes-inside r last b (omega arith),
        last_lem,
      )

  pieces-Coalesced :
      (lo : ℕ) (r : Range) (rest : List Range)
      → lo ≤ r.start
      → IsBounded r
      → Coalesced (suc (r.start + r.size)) rest
      → Coalesced lo (pieces k r ++ rest)
  unfolding includes left_part right_part left_pieces right_pieces
  pieces-Coalesced lo r rest l b h = ground (
    arith,
    Coalesced-mono lo (suc (r.start + r.size)) rest,
    Coalesced-mono (suc k.start) (suc (r.start + r.size)) rest,
  )

  remove_all-remains :
      (lo : ℕ) (v : List Range)
      → Coalesced lo v
      → (w : List Range) × (remove_all k v ≡ some w)
        × Coalesced lo w
        × ((p : ℕ) → p < word → find w p ≡ remains k v p)
  unfolding remove_all find
  remove_all-remains lo [] h = ([], refl, tt, λ p b. refl)
  remove_all-remains lo (r ∷ rs) h =
      let (w, e, c, f) = remove_all-remains (suc (r.start + r.size)) rs h.2 in
      (
        pieces k r ++ w,
        rw (remove_from-pieces r h.1, e) refl,
        pieces-Coalesced lo r w h.0 h.1 c,
        λ p b. find-append (pieces k r) w p ∙ ground (arith, find-pieces r p h.1 b, f p b),
      )

-- `remove` raises no assertion, keeps the vector sorted and coalesced, and finds from then on
-- exactly the points, outside the removed range, of those ranges that hold its first or its last
-- point: every other range is dropped.
pub remove-remains :
    (v : List Range) (start size : ℕ)
    → Coalesced 0 v
    → 0 < size
    → start + size < word
    → (w : List Range) × (remove v start size ≡ some w)
      × Coalesced 0 w
      × ((p : ℕ) → p < word → find w p ≡ remains (record { start = start; size = size }) v p)
unfolding remove
remove-remains v start size h n b =
    let k : Range = record { start = start; size = size } in
    let (w, e, c, f) = remove_all-remains k n b 0 v h in (w, ground arith, c, f)

-- What remains was there before.
pub remains-find : (k : Range) (v : List Range) (p : ℕ) → remains k v p ≡ true → find v p ≡ true
unfolding find includes
remains-find k [] p h = h
remains-find k (r ∷ rs) p h = ground (arith, remains-find k rs p)

module _ (k : Range) where
  remove_all-empties :
      (v : List Range)
      → find v k.start ≡ false
      → find v (sub_word (end k) 1) ≡ false
      → remove_all k v ≡ some []
  unfolding remove_all remove_from find
  remove_all-empties [] s e = refl
  remove_all-empties (r ∷ rs) s e = ground (arith, remove_all-empties rs)

-- Removing a range of which neither end is in the set drops every range of the set, those too that
-- lie apart from it.
pub remove-empties :
    (v : List Range) (start size : ℕ)
    → 0 < size
    → start + size < word
    → find v start ≡ false
    → find v (start + size - 1) ≡ false
    → remove v start size ≡ some []
unfolding remove
remove-empties v start size n b s e =
    let k : Range = record { start = start; size = size } in
    ground (arith, remove_all-empties k v s, last_lem k n b)
