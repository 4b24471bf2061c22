-- ===== src/RegionManager/Replace.antt =====
-- `replace_region`, whatever the system calls give back.
use persimmon.Base.{
  ℕ, ◌+◌, ◌≤◌, ◌<◌, ◌≡◌, refl, ◌∙◌, Bool, true, false, ◌&&◌, ◌||◌, none, some, List, [], ◌∷◌, ◌++◌,
  word, arith, Bool-cases, inl, inr, ◌⊎◌, Option-cases, inside, ltb, leb,
}
use persimmon.Ranges.{find, insert}
use persimmon.Ranges.Insert.{find-insert, insert-Coalesced}
use persimmon.Region.{Region, does_include}
use persimmon.Region.Points.{IsProper, does_overlap_with-shared}
use persimmon.RegionManager.{
  RegionManager, Result, success, error, Outcome, find_overlap, replace_region,
}
use persimmon.RegionManager.Managed.{
  held, Apart, Managed, find_overlap-some, held-append, held-bounded, Apart-append, held-get_elem?,
  Proper-get_elem?,
}

-- Do all the system calls of a `replace_region` succeed?
abbrev pub succeeds : Outcome → Bool
succeeds o = o.persisted && (o.mapped && o.closed)

-- No address of the region is held: then `find_overlap` finds nothing.
pub find_overlap-free :
    (rs : List Region) (other : Region)
    → Apart rs
    → IsProper other
    → ((p : ℕ) → does_include other p ≡ true → held rs p ≡ false)
    → find_overlap rs other ≡ none
find_overlap-free rs other a b h = elim (Option-cases (find_overlap rs other)) [
  | inl nothing ↦ nothing
  | inr (i, found) ↦
      let (r, at, o) = find_overlap-some rs other i found in
      let (mine, theirs) =
        (does_overlap_with-shared r other (Proper-get_elem? rs i r a at) b).0 o in
      let yes_held = held-get_elem? rs i r _ at mine in
      let not_held = h _ theirs in absurd (ground arith)
]

-- What a call leaves for the addresses from `lo` on below `hi`.
pub record Added (ok : Bool) (lo hi : ℕ) (mrm : RegionManager) (res : Result) (mrm' : RegionManager)
    : Type 0 where
  pub managed : Managed mrm'
  pub holds :
      ((res ≡ success)
        × ((p : ℕ) → held mrm'.regions p ≡ (held mrm.regions p || (leb lo p && ltb p hi))))
      ⊎ ((res ≡ error) × (mrm' ≡ mrm))
  pub succeeded : ok ≡ true → res ≡ success

abbrev pub added : Outcome → ℕ → ℕ → RegionManager → RegionManager
added o base size mrm = record {
  regions = mrm.regions ++ (record { base = base; size = size; file_id = o.random_id } ∷ []);
  rs = insert mrm.rs base size;
}

added-cases :
    (o : Outcome) (base size : ℕ) (mrm : RegionManager)
    → Managed mrm
    → 0 < size
    → base + size < word
    → (p : ℕ) → held (added o base size mrm).regions p ≡ true
    → (p < word) × ((inside base size p || find mrm.rs p) ≡ true)
unfolding does_include
added-cases o base size mrm m n b p h =
    let r : Region = record { base = base; size = size; file_id = o.random_id } in
    let split = held-append mrm.regions (r ∷ []) p in
    elim (Bool-cases (held mrm.regions p)) [
      | inl old ↦ (held-bounded mrm.regions p m.apart old, let f = m.found p old in ground arith)
      | inr new ↦ (ground arith, ground arith)
    ]

pub added-Managed :
    (o : Outcome) (base size : ℕ) (mrm : RegionManager)
    → Managed mrm
    → 0 < size
    → base + size < word
    → ((p : ℕ) → base ≤ p → p < base + size → held mrm.regions p ≡ false)
    → Managed (added o base size mrm)
unfolding does_include
added-Managed o base size mrm m n b free =
    let r : Region = record { base = base; size = size; file_id = o.random_id } in
    record {
      apart =
          Apart-append mrm.regions r m.apart (n, b) (λ p i. free p (ground arith) (ground arith));
      coalesced = insert-Coalesced mrm.rs base size m.coalesced b;
      found = λ p h.
          let (w, old) = added-cases o base size mrm m n b p h in
          find-insert mrm.rs base size m.coalesced b p w ∙ old;
    }

-- If no address of the region is managed yet, `replace_region` raises no assertion and keeps the
-- invariant. Either it succeeds and the addresses of the region are held from then on, besides those
-- before, or it returns an error and changes nothing; if all the system calls succeed, so does it.
pub replace_region-Managed :
    (o : Outcome) (base size : ℕ) (mrm : RegionManager)
    → Managed mrm
    → 0 < size
    → base + size < word
    → ((p : ℕ) → base ≤ p → p < base + size → held mrm.regions p ≡ false)
    → (res : Result) × (mrm' : RegionManager) × (replace_region o base size mrm ≡ some (res, mrm'))
      × Added (succeeds o) base (base + size) mrm res mrm'
unfolding replace_region does_include
replace_region-Managed o base size mrm m n b free =
    let r : Region = record { base = base; size = size; file_id = o.random_id } in
    let fresh =
      find_overlap-free mrm.regions r m.apart (n, b)
        (λ p i. free p (ground arith) (ground arith)) in
    elim (Bool-cases (succeeds o)) [
      | inl all ↦ (
        success,
        added o base size mrm,
        rw (fresh, replace_region) (ground arith),
        record {
          managed = added-Managed o base size mrm m n b free;
          holds = inl (refl, λ p. held-append mrm.regions (r ∷ []) p ∙ ground arith);
          succeeded = λ h. refl;
        },
      )
      | inr some_fail ↦ (
        error,
        mrm,
        rw (fresh, replace_region) (ground arith),
        record { managed = m; holds = inr (refl, refl); succeeded = λ h. absurd (ground arith) },
      )
    ]
