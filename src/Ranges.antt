-- ===== src/Ranges.antt =====
-- src/undo/mem_region/ranges.h: a sorted vector of address ranges, at T = uintptr_t.
-- The vector is a list. `none` is a failed DR_ASSERT.
pub mod Order
pub mod Insert
pub mod Find
pub mod Foreach
pub mod Remove
mod Tests
use persimmon.Base.{
  ℕ, ◌≤◌, ◌<◌, Bool, true, false, not, ◌&&◌, ◌||◌, Option, none, some, List, [], ◌∷◌, ◌++◌, max,
  ltb, leb, ◌==◌, if◌then◌else◌, ◌>>=◌, add_word, sub_word,
}

pub record Range : Type 0 where
  pub start : ℕ
  pub size : ℕ

-- Exclusive.
abbrev pub end : Range → ℕ
end r = add_word r.start r.size

-- `operator<`
precedes : Range → Range → Bool
precedes r other = ltb r.start other.start || (r.start == other.start && ltb r.size other.size)

unfoldable pub includes : Range → ℕ → Bool
includes r point = leb r.start point && ltb (sub_word point r.start) r.size

unfoldable pub includes_range : Range → Range → Bool
includes_range r other =
    other.size == 0
    || (leb r.start other.start && leb (add_word (sub_word other.start r.start) other.size) r.size)

intersects : Range → Range → Bool
unfolding includes
intersects r other = includes r other.start || includes other r.start

-- The first loop of `insert`, and the `memmove` behind it: `r` goes before the first greater one.
insert_sorted : Range → List Range → List Range
insert_sorted r [] = r ∷ []
insert_sorted r (x ∷ xs) = if precedes r x then r ∷ x ∷ xs else x ∷ insert_sorted r xs

-- The second loop, at `prev == v.array[l]` and the entries from `j` on.
coalesce_from : Range → List Range → List Range
coalesce_from prev [] = prev ∷ []
coalesce_from prev (curr ∷ rest) = elim (leb (sub_word curr.start prev.start) prev.size) [
  | true ↦
      coalesce_from
        (record prev { size = max prev.size (sub_word (add_word curr.start curr.size) prev.start) })
        rest
  | false ↦ prev ∷ coalesce_from curr rest
]

coalesce : List Range → List Range
coalesce [] = []
coalesce (r ∷ rs) = coalesce_from r rs

pub insert : List Range → ℕ → ℕ → List Range
unfolding insert_sorted coalesce coalesce_from precedes
insert v start size = coalesce (insert_sorted (record { start = start; size = size }) v)

-- `find(T point)`
unfoldable pub find : List Range → ℕ → Bool
unfolding includes
find [] point = false
find (r ∷ rs) point = includes r point || find rs point

unfoldable pub any_includes : List Range → Range → Bool
any_includes [] to_find = false
any_includes (r ∷ rs) to_find = includes_range r to_find || any_includes rs to_find

-- `find(T start, size_t size)`
unfoldable pub find_range : List Range → ℕ → ℕ → Bool
unfolding any_includes includes_range
find_range v start size =
    if size == 0 then true else any_includes v (record { start = start; size = size })

-- `if (part.size > 0) { DR_ASSERT; DR_ASSERT; drvector_append }`
append_part : Range → Range → Range → Option (List Range)
append_part curr to_remove part =
    if ltb 0 part.size
    then (if includes_range curr part && not (intersects part to_remove)
        then some (part ∷ [])
        else none)
    else some []

left_part : Range → Range → Range
left_part curr to_remove = record { start = curr.start; size = sub_word to_remove.start curr.start }

right_part : Range → Range → Range
right_part curr to_remove = record {
  start = end to_remove;
  size = sub_word (end curr) (end to_remove);
}

-- The loop body of `remove`: what stays of one range.
remove_from : Range → Range → Option (List Range)
unfolding append_part left_part right_part
remove_from to_remove curr = do
  left ←
      if includes curr to_remove.start
      then append_part curr to_remove (left_part curr to_remove)
      else some []
  right ←
      if includes curr (sub_word (end to_remove) 1)
      then append_part curr to_remove (right_part curr to_remove)
      else some []
  some (left ++ right)

remove_all : Range → List Range → Option (List Range)
remove_all to_remove [] = some []
remove_all to_remove (r ∷ rs) = do
  parts ← remove_from to_remove r
  rest ← remove_all to_remove rs
  some (parts ++ rest)

pub remove : List Range → ℕ → ℕ → Option (List Range)
unfolding remove_all remove_from
remove v start size =
    if size == 0 then some v else remove_all (record { start = start; size = size }) v

-- `clear` sets the number of entries to 0.
pub clear : List Range → List Range
clear v = []

-- `foreach(f)`, with what `f` does to a state of the caller.
pub foreach {ℓ} : {S : Type ℓ} → (ℕ → ℕ → S → S) → List Range → S → S
foreach f [] s = s
foreach f (r ∷ rs) s = foreach f rs (f r.start r.size s)
