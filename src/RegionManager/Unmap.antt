-- ===== src/RegionManager/Unmap.antt =====
-- `remove_region` as a whole: what the application unmaps is no longer managed, and the rest is.
use persimmon.Base.{
  ℕ, zero, suc, ◌+◌, ◌<◌, ◌≡◌, refl, ◌∙◌, sym, ap, Bool, true, false, not, ◌&&◌, ◌||◌, some, List,
  [], ◌∷◌, get_elem?, word, arith, inl, inr, Option-cases,
}
use persimmon.Region.{Region, does_include, does_include_region}
use persimmon.Region.Points.{does_overlap_with-shared, does_include_region-all}
use persimmon.RegionManager.{
  RegionManager, Result, success, not_managed, Outcome, find_overlap, remove_region, swap_remove,
}
use persimmon.RegionManager.Managed.{
  held, Apart, Managed, find_overlap-none, find_overlap-some, held-get_elem?, Proper-get_elem?,
  held-swap_remove, Apart-swap_remove,
}
use persimmon.RegionManager.Replace.{succeeds, find_overlap-free}
use persimmon.RegionManager.Remove.{keep_rest-Kept}

-- Only one region holds an address.
Apart-unique :
    (rs : List Region) (i j : ℕ) (r s : Region) (p : ℕ)
    → Apart rs
    → get_elem? rs i ≡ some r
    → get_elem? rs j ≡ some s
    → does_include r p ≡ true
    → does_include s p ≡ true
    → r ≡ s
Apart-unique [] i j r s p a e f h k = absurd (ground arith)
Apart-unique (x ∷ rs) zero zero r s p a e f h k = ground arith
Apart-unique (x ∷ rs) zero (suc j) r s p a e f h k =
    let same : x ≡ r = ground arith in
    absurd (let own = a.1 p in let other = held-get_elem? rs j s p f k in ground arith)
Apart-unique (x ∷ rs) (suc i) zero r s p a e f h k =
    let same : x ≡ s = ground arith in
    absurd (let own = a.1 p in let other = held-get_elem? rs i r p e h in ground arith)
Apart-unique (x ∷ rs) (suc i) (suc j) r s p a e f h k = Apart-unique rs i j r s p a.2 e f h k

booleans :
    (h r k : Bool)
    → (k ≡ true → r ≡ true)
    → (r ≡ true → h ≡ true)
    → ((h && not r) || (r && not k)) ≡ (h && not k)
booleans h r k a b = ground arith

abbrev pub removed : ℕ → ℕ → Region
removed base size = record { base = base; size = size; file_id = 0 }

-- The outcome of a removal: a result, and a manager that keeps the invariant and holds no address
-- of the range, and only such as were held before; with success and all of those, if the system
-- calls succeed.
abbrev pub RemovedBy : ℕ → ℕ → Bool → Outcome → Outcome → RegionManager → Type 0
RemovedBy base size unmapped right left mrm =
    (res : Result) × (mrm' : RegionManager) × (remove_region unmapped right left base size mrm
      ≡ some (res, mrm'))
    × Managed mrm'
    × ((p : ℕ)
        → held mrm'.regions p ≡ true
        → (held mrm.regions p && not (does_include (removed base size) p)) ≡ true)
    × ((unmapped && (succeeds right && succeeds left)) ≡ true
        → (res ≡ success)
          × ((p : ℕ)
              → held mrm'.regions p
                ≡ (held mrm.regions p && not (does_include (removed base size) p))))

module _ (base size : ℕ) (n : 0 < size) (b : base + size < word) where
  -- Where no address of the removed range is held, `remove_region` says so and changes nothing.
  pub remove_region-unmanaged :
      (unmapped : Bool) (right left : Outcome) (mrm : RegionManager)
      → Managed mrm
      → ((p : ℕ) → does_include (removed base size) p ≡ true → held mrm.regions p ≡ false)
      → remove_region unmapped right left base size mrm ≡ some (not_managed, mrm)
  unfolding remove_region
  remove_region-unmanaged unmapped right left mrm m free =
      let nothing = find_overlap-free mrm.regions (removed base size) m.apart (n, b) free in
      rw (remove_region, nothing) refl

  -- The region that `find_overlap` finds is the one that includes the removed range.
  find_overlap-own :
      (mrm : RegionManager) (r : Region) (j : ℕ)
      → Apart mrm.regions
      → get_elem? mrm.regions j ≡ some r
      → does_include_region r (removed base size) ≡ true
      → (i : ℕ) × (find_overlap mrm.regions (removed base size) ≡ some i)
        × (get_elem? mrm.regions i ≡ some r)
  unfolding does_include_region does_include
  find_overlap-own mrm r j a at within =
      elim (Option-cases (find_overlap mrm.regions (removed base size))) [
        | inl nothing ↦
            let free =
              find_overlap-none mrm.regions (removed base size) a (n, b) nothing base
                (ground arith) in
            let mine = held-get_elem? mrm.regions j r base at (ground arith) in
            absurd (ground arith)
        | inr (i, found) ↦
            let (s, at', o) = find_overlap-some mrm.regions (removed base size) i found in
            let proper = Proper-get_elem? mrm.regions i s a at' in
            let (theirs, shared) =
              (does_overlap_with-shared s (removed base size) proper (n, b)).0 o in
            let all =
              (does_include_region-all r (removed base size) (Proper-get_elem? mrm.regions j r a at)
                  (n, b)).0
                within in
            let same = Apart-unique mrm.regions i j s r _ a at' at theirs (all _ shared) in
            (i, found, at' ∙ ap some same)
      ]

  -- The manager without the region that is found.
  abbrev without : ℕ → RegionManager → RegionManager
  without i mrm = record mrm { regions = swap_remove i mrm.regions }

  without-Managed :
      (i : ℕ) (mrm : RegionManager) (r : Region)
      → Managed mrm
      → get_elem? mrm.regions i ≡ some r
      → Managed (without i mrm)
  without-Managed i mrm r m at = record {
    apart = Apart-swap_remove i mrm.regions m.apart;
    coalesced = m.coalesced;
    found =
        λ p h. let e = held-swap_remove i mrm.regions r p m.apart at in m.found p (ground arith);
  }

  -- What stays of the region, and the other regions, make up all but the removed range.
  without-rest :
      (i : ℕ) (mrm : RegionManager) (r : Region) (p : ℕ)
      → Managed mrm
      → get_elem? mrm.regions i ≡ some r
      → does_include_region r (removed base size) ≡ true
      → (held (swap_remove i mrm.regions) p
          || (does_include r p && not (does_include (removed base size) p)))
        ≡ (held mrm.regions p && not (does_include (removed base size) p))
  without-rest i mrm r p m at within =
      let e = held-swap_remove i mrm.regions r p m.apart at in
      let proper = Proper-get_elem? mrm.regions i r m.apart at in
      let all : does_include (removed base size) p ≡ true → does_include r p ≡ true =
        (does_include_region-all r (removed base size) proper (n, b)).0 within p in
      let mine : does_include r p ≡ true → held mrm.regions p ≡ true =
        held-get_elem? mrm.regions i r p at in
      ap (λ t. t || (does_include r p && not (does_include (removed base size) p))) e
      ∙ booleans (held mrm.regions p) (does_include r p) (does_include (removed base size) p) all
          mine

  -- Where one region includes the whole removed range, `remove_region` raises no assertion and keeps
  -- the invariant whatever the system calls give back: no address of the range is held from then on,
  -- and none that was not held before. If all the system calls succeed, so does it, and every other
  -- address stays held.
  pub remove_region-Managed :
      (unmapped : Bool) (right left : Outcome) (mrm : RegionManager) (r : Region) (j : ℕ)
      → Managed mrm
      → get_elem? mrm.regions j ≡ some r
      → does_include_region r (removed base size) ≡ true
      → RemovedBy base size unmapped right left mrm
  unfolding remove_region
  remove_region-Managed unmapped right left mrm r j m at within =
      let (i, found, own) = find_overlap-own mrm r j m.apart at within in
      let rest = λ (p : ℕ). without-rest i mrm r p m own within in
      let m' = without-Managed i mrm r m own in
      elim unmapped as (λ u. RemovedBy base size u right left mrm) [
        | true ↦
            let (res, mrm', e, k) =
              keep_rest-Kept r (removed base size) (Proper-get_elem? mrm.regions j r m.apart at)
                (n, b) within right left (without i mrm) m'
                (λ p h. held-swap_remove i mrm.regions r p m.apart own ∙ ground arith) in
            (
              res,
              mrm',
              rw (remove_region, found, own, within) e,
              k.managed,
              λ p h. sym (rest p) ∙ k.nothing_new p h,
              λ ok. ((k.complete ok).0, λ p. (k.complete ok).1 p ∙ rest p),
            )
        | false ↦ (
          success,
          without i mrm,
          rw (remove_region, found, own, within) refl,
          m',
          λ p h. sym (rest p) ∙ ground arith,
          λ ok. absurd (ground arith),
        )
      ]
