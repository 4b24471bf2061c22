-- ===== src/AddressSpace.antt =====
-- src/undo/instrument.cc: `should_replace` and `init_address_space`, which move the writable memory
-- of the application into persistent memory when the client starts for the first time. What
-- DynamoRIO says of the address space is an argument; `none` is a failed DR_ASSERT.
pub mod Scan
pub mod Held
mod Tests
use persimmon.Base.{
  ℕ, zero, suc, ◌+◌, ◌-◌, ◌^◌, Bool, true, false, not, ltb, if◌then◌else◌, Option, none, some,
  ◌>>=◌, List, [], ◌∷◌, add_word, word,
}
use persimmon.RegionManager.{
  RegionManager, Directory, Result, success, error, not_managed, Outcome, replace_region,
  persist_new_region_table, commit_new_region_table,
}

-- `dr_mem_info_t`: is its type DR_MEMTYPE_FREE, and which bits does `prot` have?
pub record MemInfo : Type 0 where
  pub base_pc : ℕ
  pub size : ℕ
  pub free : Bool
  pub read : Bool
  pub write : Bool
  pub exec : Bool
  pub vdso : Bool
  pub stack : Bool
  pub shared : Bool
  pub pretend_write : Bool

-- `should_replace`, with `dr_memory_is_dr_internal` and `dr_memory_is_in_client`.
unfoldable pub should_replace : (ℕ → Bool) → (ℕ → Bool) → MemInfo → Option Bool
should_replace is_dr_internal is_in_client info =
    if is_dr_internal info.base_pc
    then some false
    else if is_in_client info.base_pc
    then some false
    else if info.free
    then some false
    else if not info.write
    then some false
    else if info.vdso
    then some false
    else if info.stack
    then some false
    else if info.shared
    then some false
    else if info.pretend_write
    then none
    else if not info.read
    then none
    else some true

-- `POINTER_MAX`
abbrev pub pointer_max : ℕ
pointer_max = word - 1

-- The first loop of `init_address_space`, from `pc` on: the regions to replace, of which `pick`
-- tells. `query` is `dr_query_memory_ex`. There is no result if the fuel is used up.
pub scan : ℕ → (ℕ → Option MemInfo) → (MemInfo → Option Bool) → ℕ → Option (List MemInfo)
scan zero query pick pc = none
scan (suc fuel) query pick pc =
    if ltb pc pointer_max
    then (elim (query pc) [
      | none ↦ some []
      | some info ↦ do
        replaced ← pick info
        to_replace ← scan fuel query pick (add_word info.base_pc info.size)
        some (if replaced then info ∷ to_replace else to_replace)
    ])
    else some []

-- The bits of the protection that a region is mapped with.
pub record Prot : Type 0 where
  pub prot_read : Bool
  pub prot_write : Bool
  pub prot_exec : Bool

unfoldable pub prot_of : MemInfo → Prot
prot_of info = record { prot_read = info.read; prot_write = info.write; prot_exec = info.exec }

is_success : Result → Bool
is_success success = true
is_success error = false
is_success not_managed = false

-- The second loop, over the regions to replace, with the outcome of the call for the `i`th. The result
-- has the protections that the regions are mapped with.
pub replace_all :
    (ℕ → Outcome) → ℕ → List MemInfo → RegionManager → Option (List Prot × RegionManager)
unfolding is_success
replace_all outcomes i [] mrm = some ([], mrm)
replace_all outcomes i (info ∷ to_replace) mrm = do
  (res, mrm') ← replace_region (outcomes i) info.base_pc info.size mrm
  (prots, mrm'') ← replace_all outcomes (suc i) to_replace mrm'
  if is_success res then some (prot_of info ∷ prots, mrm'') else none

-- `init_address_space`. A loop round moves `pc` on by a byte at least, so `word` rounds are enough.
-- The last two arguments before the state say whether the calls of `commit_new_region_table` succeed.
pub init_address_space :
    (ℕ → Option MemInfo)
    → (MemInfo → Option Bool)
    → (ℕ → Outcome)
    → Bool
    → Bool
    → RegionManager
    → Directory
    → Option (List Prot × (RegionManager × Directory))
init_address_space query pick outcomes renamed synced mrm directory = do
  to_replace ← scan word query pick 0
  (prots, mrm') ← replace_all outcomes 0 to_replace mrm
  some (
    prots,
    (mrm', (commit_new_region_table renamed synced (persist_new_region_table mrm' directory)).1),
  )
