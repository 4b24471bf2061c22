-- ===== src/Ranges/Tests.antt =====
-- Runs of `ranges`, and its theorems at concrete vectors.
use persimmon.Base.{ℕ, ◌<◌, ◌≡◌, refl, ◌||◌, some, List, [], ◌∷◌, arith, word, inside}
use persimmon.Ranges.{Range, insert, find, remove, includes, includes_range, intersects}
use persimmon.Ranges.Order.{Coalesced}
use persimmon.Ranges.Insert.{find-insert}
use persimmon.Ranges.Remove.{remains, remove-remains, remove-empties}

abbrev two : List Range
two = record { start = 16; size = 8 } ∷ record { start = 64; size = 16 } ∷ []

two-Coalesced : Coalesced 0 two
two-Coalesced = omega arith

-- The new range joins both.
insert_runs : insert two 20 44 ≡ record { start = 16; size = 64 } ∷ []
unfolding insert
insert_runs = refl

remove_runs :
    remove two 68 4 ≡ some (record { start = 64; size = 4 } ∷ record { start = 72; size = 8 } ∷ [])
unfolding remove includes includes_range intersects
remove_runs = refl

find-insert_example : find (insert two 20 44) 40 ≡ (inside 20 44 40 || find two 40)
find-insert_example = find-insert two 20 44 two-Coalesced (omega arith) 40 (omega arith)

remove-remains_example :
    (w : List Range) × (remove two 68 4 ≡ some w)
    × Coalesced 0 w
    × ((p : ℕ) → p < word → find w p ≡ remains (record { start = 68; size = 4 }) two p)
remove-remains_example = remove-remains two 68 4 two-Coalesced (omega arith) (omega arith)

remove-empties_example : remove two 256 4 ≡ some []
unfolding find
remove-empties_example = remove-empties two 256 4 (omega arith) (omega arith) refl refl
