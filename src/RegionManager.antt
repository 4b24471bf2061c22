-- ===== src/RegionManager.antt =====
-- src/undo/mem_region/mem_region.cc: the memory regions that persistent memory backs, and the
-- files of the persistent memory directory that hold their table. What a system call gives back is
-- an argument; `none` is a failed DR_ASSERT.
pub mod Managed
pub mod Replace
pub mod Remove
pub mod Unmap
pub mod Table
mod Tests
use persimmon.Base.{
  ℕ, zero, suc, ◌+◌, ◌-◌, Bool, true, false, not, ◌&&◌, ◌||◌, ltb, ◌==◌, if◌then◌else◌, Option,
  none, some, ◌>>=◌, List, [], ◌∷◌, ◌++◌, map, length, get_elem?, drop, sub_word,
}
use persimmon.Ranges.{Range}
use persimmon.Ranges
use persimmon.Region.{Region, does_include_region, does_overlap_with}
use persimmon.Region

-- `mem_region_manager::result`
pub data Result : Type 0 where
  success : Result
  error : Result
  not_managed : Result

-- `mem_region_manager`
pub record RegionManager : Type 0 where
  pub regions : List Region
  pub rs : List Range

pub does_manage : RegionManager → ℕ → Bool
does_manage mrm addr = Ranges.find mrm.rs addr

-- `find_overlap`, with `none` for -1.
pub find_overlap : List Region → Region → Option ℕ
find_overlap [] other = none
find_overlap (r ∷ rs) other =
    let rest = find_overlap rs other in
    if does_overlap_with r other
    then some 0
    else (elim rest [ none ↦ none | some i ↦ some (suc i) ])

-- What the system calls of one `replace_region` give back: the random file id, whether
-- `persist_region` returns a file, whether `my_mmap` returns the base, and whether `my_close`
-- succeeds.
pub record Outcome : Type 0 where
  pub random_id : ℕ
  pub persisted : Bool
  pub mapped : Bool
  pub closed : Bool

pub replace_region : Outcome → ℕ → ℕ → RegionManager → Option (Result × RegionManager)
unfolding find_overlap
replace_region o base size mrm =
    let r : Region = record { base = base; size = size; file_id = o.random_id } in
    elim (find_overlap mrm.regions r) [
      | some i ↦ none
      | none ↦
          if not o.persisted
          then some (error, mrm)
          else if not o.mapped
          then some (error, mrm)
          else if not o.closed
          then some (error, mrm)
          else some (
            success,
            record { regions = mrm.regions ++ (r ∷ []); rs = Ranges.insert mrm.rs base size },
          )
    ]

-- `regions.array[i] = regions.array[--regions.entries]`
behind_first : Region → List Region → List Region
behind_first r [] = r ∷ []
behind_first r (l ∷ front) = l ∷ r ∷ front

last_to_front : List Region → List Region
unfolding behind_first
last_to_front [] = []
last_to_front (r ∷ rs) = behind_first r (last_to_front rs)

pub swap_remove : ℕ → List Region → List Region
unfolding last_to_front
swap_remove i [] = []
swap_remove zero (r ∷ rs) = last_to_front rs
swap_remove (suc i) (r ∷ rs) = r ∷ swap_remove i rs

-- The two calls of `replace_region` at the end of `remove_region`: for what stays of `r` behind
-- the removed region, and before it. A call that is not made succeeds.
replace_right : Outcome → Region → Region → RegionManager → Option (Result × RegionManager)
replace_right o r remove_r mrm =
    if Region.end r == Region.end remove_r
    then some (success, mrm)
    else if not (ltb (Region.end remove_r) (Region.end r))
    then none
    else replace_region o (Region.end remove_r) (sub_word (Region.end r) (Region.end remove_r)) mrm

replace_left : Outcome → Region → Region → RegionManager → Option (Result × RegionManager)
replace_left o r remove_r mrm =
    if r.base == remove_r.base
    then some (success, mrm)
    else if not (ltb r.base remove_r.base)
    then none
    else replace_region o r.base (sub_word remove_r.base r.base) mrm

is_error : Result → Bool
is_error success = false
is_error error = true
is_error not_managed = false

-- What `remove_region` does behind a successful `my_munmap`, with the outcomes of the two calls.
pub keep_rest :
    Outcome → Outcome → Region → Region → RegionManager → Option (Result × RegionManager)
unfolding replace_right replace_left is_error
keep_rest right left r remove_r mrm = do
  (res, mrm') ← replace_right right r remove_r mrm
  if is_error res then some (error, mrm') else (do
    (res', mrm'') ← replace_left left r remove_r mrm'
    some ((if is_error res' then error else success), mrm''))

-- `remove_region`, with whether `my_munmap` succeeds.
pub remove_region :
    Bool → Outcome → Outcome → ℕ → ℕ → RegionManager → Option (Result × RegionManager)
unfolding swap_remove keep_rest
remove_region unmapped right left base size mrm =
    let remove_r : Region = record { base = base; size = size; file_id = 0 } in
    elim (find_overlap mrm.regions remove_r) [
      | none ↦ some (not_managed, mrm)
      | some i ↦ get_elem? mrm.regions i >>= λ r.
          let mrm' = record mrm { regions = swap_remove i mrm.regions } in
          if not (does_include_region r remove_r)
          then none
          else if not unmapped
          then some (success, mrm')
          else keep_rest right left r remove_r mrm'
    ]

-- The files `new_table.dat` and `table.dat` of the directory.
pub record Directory : Type 0 where
  pub new_table : Option (List Region)
  pub current_table : Option (List Region)

-- A file that is written from its start, and not truncated.
abbrev overwrite : List Region → List Region → List Region
overwrite written old = written ++ drop (length written) old

-- `persist_new_region_table`, when the writes succeed.
pub persist_new_region_table : RegionManager → Directory → Directory
persist_new_region_table mrm d = record d {
  new_table = some (overwrite mrm.regions (elim d.new_table [ none ↦ [] | some old ↦ old ]));
}

-- `commit_new_region_table`: the rename, if there is a file. The argument says whether the calls
-- succeed where there is one.
pub commit_new_region_table : Bool → Bool → Directory → Result × Directory
commit_new_region_table renamed synced d = elim d.new_table [
  | none ↦ (success, d)
  | some table ↦ if not renamed then (error, d) else (
    (if synced then success else error),
    record { new_table = none; current_table = some table },
  )
]

pub clear_new_region_table : Bool → Bool → Directory → Result × Directory
clear_new_region_table unlinked synced d = elim d.new_table [
  | none ↦ (success, d)
  | some table ↦
      if not unlinked
      then (error, d)
      else ((if synced then success else error), record d { new_table = none })
]

-- The loop of `recover` over the records of the table.
recover_regions : List Region → RegionManager → RegionManager
recover_regions [] mrm = mrm
recover_regions (r ∷ table) mrm =
    recover_regions table
      (record { regions = mrm.regions ++ (r ∷ []); rs = Ranges.insert mrm.rs r.base r.size })

-- `recover`, when the files can be opened and mapped.
pub recover : Directory → RegionManager → Option RegionManager
unfolding recover_regions
recover d mrm = do table ← d.current_table; some (recover_regions table mrm)

-- The records that `send_regions` writes to the pipe.
unfoldable pub send_regions : RegionManager → List Region
send_regions mrm = mrm.regions ++ (record { base = 0; size = 0; file_id = 0 } ∷ [])
