-- ===== src/RegionManager/Table.antt =====
-- The region table in persistent memory.
use persimmon.Base.{
  ℕ, zero, suc, ◌≡◌, ◌≢◌, refl, ◌∙◌, sym, ap, subst, Bool, true, false, Option, none, some, List,
  [], ◌∷◌, ◌++◌, append_assoc, append-nil, arith, length, drop, Option-cases, inl, inr,
}
use persimmon.Region.{Region, does_include}
use persimmon.Region.Points.{IsProper}
use persimmon.RegionManager.{
  RegionManager, Directory, success, error, persist_new_region_table, commit_new_region_table,
  clear_new_region_table, recover_regions, recover, does_manage, Outcome,
}
use persimmon.RegionManager.Managed.{held, Apart, Managed, held-append}
use persimmon.RegionManager.Replace.{added, added-Managed}

-- A region in the middle is proper, and apart from those before it.
Apart-middle :
    (xs : List Region) (r : Region) (ys : List Region) (p : ℕ)
    → Apart (xs ++ (r ∷ ys))
    → does_include r p ≡ true
    → held xs p ≡ false
Apart-middle [] r ys p a h = refl
Apart-middle (x ∷ xs) r ys p a h =
    let first = a.1 p in
    let later = held-append xs (r ∷ ys) p in let rest = Apart-middle xs r ys p a.2 h in ground arith

Proper-middle :
    (xs : List Region) (r : Region) (ys : List Region) → Apart (xs ++ (r ∷ ys)) → IsProper r
Proper-middle [] r ys a = a.0
Proper-middle (x ∷ xs) r ys a = Proper-middle xs r ys a.2

-- A read region is added like a replaced one.
as_read : Region → Outcome
as_read r = record { random_id = r.file_id; persisted = true; mapped = true; closed = true }

recover_regions-Managed :
    (table : List Region) (mrm : RegionManager)
    → Managed mrm
    → Apart (mrm.regions ++ table)
    → ((recover_regions table mrm).regions ≡ mrm.regions ++ table)
      × Managed (recover_regions table mrm)
unfolding recover_regions as_read does_include
recover_regions-Managed [] mrm m a = (sym (append-nil mrm.regions), m)
recover_regions-Managed (r ∷ table) mrm m a =
    let next = added (as_read r) r.base r.size mrm in
    let proper = Proper-middle mrm.regions r table a in
    let m' : Managed next =
      added-Managed (as_read r) r.base r.size mrm m proper.0 proper.1
        (λ p l h. Apart-middle mrm.regions r table p a (ground arith)) in
    let moved = append_assoc mrm.regions (r ∷ []) table in
    let (regions, all) = recover_regions-Managed table next m' (subst Apart (sym moved) a) in
    (regions ∙ moved, all)

abbrev pub no_regions : RegionManager
no_regions = record { regions = []; rs = [] }

pub no_regions-Managed : Managed no_regions
no_regions-Managed = record { apart = tt; coalesced = tt; found = λ p h. absurd (ground arith) }

drop-nil : (n : ℕ) → drop {A = Region} n [] ≡ []
drop-nil zero = refl
drop-nil (suc n) = refl

overwrite-none : (rs : List Region) → rs ++ drop (length rs) [] ≡ rs
overwrite-none rs = ap (λ ys. rs ++ ys) (drop-nil (length rs)) ∙ append-nil rs

-- A table that is persisted where there was none, and committed.
pub committed-table :
    (mrm : RegionManager) (d : Directory)
    → d.new_table ≡ none
    → let d' = (commit_new_region_table true true (persist_new_region_table mrm d)).1 in
      (d'.new_table ≡ none) × (d'.current_table ≡ some mrm.regions)
unfolding commit_new_region_table persist_new_region_table
committed-table mrm d e = (refl, rw (e, overwrite-none mrm.regions) refl)

-- A new region table that is persisted where there was none, and committed, is what a restart reads
-- back: the regions of the manager, in order, with the invariant. A new region table that is cleared
-- instead leaves the directory as it was. Both are so when the system calls succeed.
pub persist_new_region_table-recover :
    (mrm : RegionManager) (d : Directory)
    → Managed mrm
    → d.new_table ≡ none
    → ((mrm' : RegionManager) × (recover
            (commit_new_region_table true true (persist_new_region_table mrm d)).1
            no_regions
          ≡ some mrm')
        × (mrm'.regions ≡ mrm.regions)
        × Managed mrm')
      × ((clear_new_region_table true true (persist_new_region_table mrm d)).1 ≡ d)
unfolding recover commit_new_region_table persist_new_region_table clear_new_region_table
persist_new_region_table-recover mrm d m e =
    let (regions, managed) =
      recover_regions-Managed mrm.regions no_regions no_regions-Managed m.apart in
    (
      (
        recover_regions mrm.regions no_regions,
        rw (e, overwrite-none mrm.regions) refl,
        regions,
        managed,
      ),
      ap (λ t. record d { new_table = t }) (sym e),
    )

-- What a restart reads from the table of regions that are apart.
pub recover-Managed :
    (d : Directory) (table : List Region)
    → d.current_table ≡ some table
    → Apart table
    → (mrm : RegionManager) × (recover d no_regions ≡ some mrm)
      × (mrm.regions ≡ table)
      × Managed mrm
      × ((p : ℕ) → held table p ≡ true → does_manage mrm p ≡ true)
unfolding recover does_manage
recover-Managed d table e a =
    let (regions, managed) = recover_regions-Managed table no_regions no_regions-Managed a in
    (
      recover_regions table no_regions,
      rw e refl,
      regions,
      managed,
      λ p h. managed.found p (ap (λ rs. held rs p) regions ∙ h),
    )

pub clear_new_region_table-clears :
    (d : Directory)
    → let d' = (clear_new_region_table true true d).1 in
      (d'.new_table ≡ none) × (d'.current_table ≡ d.current_table)
unfolding clear_new_region_table
clear_new_region_table-clears d = elim (Option-cases d.new_table) [
  | inl nothing ↦ rw nothing (refl, refl)
  | inr (table, there) ↦ rw there (refl, refl)
]

-- The table that a committed change leaves: the new one, if there is one.
abbrev pub latest : Directory → Option (List Region)
latest d = elim d.new_table [ none ↦ d.current_table | some table ↦ some table ]

pub commit_new_region_table-latest :
    (d : Directory)
    → let d' = (commit_new_region_table true true d).1 in
      (d'.new_table ≡ none) × (d'.current_table ≡ latest d)
unfolding commit_new_region_table
commit_new_region_table-latest d = elim (Option-cases d.new_table) [
  | inl nothing ↦ rw nothing (refl, refl)
  | inr (table, there) ↦ rw there (refl, refl)
]

error≢success : error ≢ success
error≢success e = cc

renamed_away :
    (renamed synced renamed' synced' : Bool) (d : Directory) (table : List Region)
    → d.new_table ≡ some table
    → (commit_new_region_table renamed synced d).0 ≡ success
    → commit_new_region_table renamed' synced' (commit_new_region_table renamed synced d).1
      ≡ (success, (commit_new_region_table renamed synced d).1)
unfolding commit_new_region_table
renamed_away false synced renamed' synced' d table e h =
    absurd (error≢success (sym (rw (commit_new_region_table, e) refl) ∙ h))
renamed_away true false renamed' synced' d table e h =
    absurd (error≢success (sym (rw (commit_new_region_table, e) refl) ∙ h))
renamed_away true true renamed' synced' d table e h = rw e refl

-- A crash behind the rename, in the cleanup after a commit, is harmless: to commit the new region
-- table again changes nothing and succeeds.
pub commit_new_region_table-again :
    (renamed synced renamed' synced' : Bool) (d : Directory)
    → (commit_new_region_table renamed synced d).0 ≡ success
    → commit_new_region_table renamed' synced' (commit_new_region_table renamed synced d).1
      ≡ (success, (commit_new_region_table renamed synced d).1)
unfolding commit_new_region_table
commit_new_region_table-again renamed synced renamed' synced' d h =
    elim (Option-cases d.new_table) [
      | inl nothing ↦ rw nothing refl
      | inr (table, there) ↦ renamed_away renamed synced renamed' synced' d table there h
    ]
