-- ===== src/RegionManager/Remove.antt =====
-- `remove_region`, whatever the system calls give back.
use persimmon.Base.{
  ℕ, ◌+◌, ◌-◌, ◌≤◌, ◌<◌, ◌≡◌, ◌≢◌, refl, ◌∙◌, sym, ap, subst, Bool, true, false, not, ◌&&◌, ◌||◌,
  Option, none, some, word, arith, inl, inr, ◌⊎◌, if◌then◌else◌, ltb, leb, ◌==◌, ℕ_discrete,
  sub_word,
}
use persimmon.Region.{Region, end, does_include, does_include_region}
use persimmon.Region.Points.{IsProper}
use persimmon.RegionManager.{
  RegionManager, Result, success, error, Outcome, replace_region, replace_left, replace_right,
  keep_rest, is_error,
}
use persimmon.RegionManager.Managed.{held, Managed}
use persimmon.RegionManager.Replace.{Added, succeeds, replace_region-Managed}

pub error≢success : error ≢ success
error≢success e = cc

-- A call of `replace_region` that is made only for a part with bytes.
abbrev replace_part : Outcome → ℕ → ℕ → RegionManager → Option (Result × RegionManager)
replace_part o lo hi mrm =
    if lo == hi then some (success, mrm) else replace_region o lo (hi - lo) mrm

replace_part-Added :
    (o : Outcome) (lo hi : ℕ) (mrm : RegionManager)
    → Managed mrm
    → lo ≤ hi
    → hi < word
    → ((p : ℕ) → lo ≤ p → p < hi → held mrm.regions p ≡ false)
    → (res : Result) × (mrm' : RegionManager) × (replace_part o lo hi mrm ≡ some (res, mrm'))
      × Added (succeeds o) lo hi mrm res mrm'
replace_part-Added o lo hi mrm m l b free = elim (ℕ_discrete lo hi) [
  | yes nothing ↦ (
    success,
    mrm,
    ground arith,
    record { managed = m; holds = inl (refl, λ p. ground arith); succeeded = λ h. refl },
  )
  | no part ↦
      let (res, mrm', e, a) =
        replace_region-Managed o lo (hi - lo) mrm m (omega arith) (omega arith)
          (λ p i j. free p i (omega arith)) in
      let sum : lo + (hi - lo) ≡ hi = omega arith in
      let apart : (lo == hi) ≡ false = ground arith in
      (res, mrm', rw apart e, subst (λ h. Added (succeeds o) lo h mrm res mrm') sum a)
]

-- The guard behind the first test never fails on ends in order.
parts :
    (lo hi : ℕ) (mrm : RegionManager) (call : Option (Result × RegionManager))
    → lo ≤ hi
    → (if hi == lo then some (success, mrm) else if not (ltb lo hi) then none else call)
      ≡ (if lo == hi then some (success, mrm) else call)
parts lo hi mrm call l = ground arith

-- The removed region is a proper one inside the proper region `r`.
module _ (r remove_r : Region) (proper : IsProper r) (proper' : IsProper remove_r)
    (within : does_include_region r remove_r ≡ true) where
  replace_right-part :
      (o : Outcome) (mrm : RegionManager)
      → replace_right o r remove_r mrm
        ≡ replace_part o (remove_r.base + remove_r.size) (r.base + r.size) mrm
  unfolding replace_right does_include_region does_include
  replace_right-part o mrm =
      let hi : end r ≡ r.base + r.size = omega arith in
      let lo : end remove_r ≡ remove_r.base + remove_r.size = omega arith in
      let le : remove_r.base + remove_r.size ≤ r.base + r.size = ground arith in
      let diff : sub_word (end r) (end remove_r)
          ≡ r.base + r.size - (remove_r.base + remove_r.size) =
        omega arith in
      rw (replace_right, diff, hi, lo) (parts _ _ _ (replace_region o _ _ mrm) le)

  replace_left-part :
      (o : Outcome) (mrm : RegionManager)
      → replace_left o r remove_r mrm ≡ replace_part o r.base remove_r.base mrm
  unfolding replace_left does_include_region does_include
  replace_left-part o mrm = ground arith

  -- What stays of r.
  abbrev pub rest_of : ℕ → Bool
  rest_of p = does_include r p && not (does_include remove_r p)

  keep_rest-error :
      (right left : Outcome) (mrm mrm₁ : RegionManager) (res : Result)
      → replace_right right r remove_r mrm ≡ some (res, mrm₁)
      → res ≡ error
      → keep_rest right left r remove_r mrm ≡ some (error, mrm₁)
  unfolding keep_rest is_error
  keep_rest-error right left mrm mrm₁ res e f = rw (keep_rest, e, f) refl

  keep_rest-success :
      (right left : Outcome) (mrm mrm₁ mrm₂ : RegionManager) (res res' : Result)
      → replace_right right r remove_r mrm ≡ some (res, mrm₁)
      → res ≡ success
      → replace_left left r remove_r mrm₁ ≡ some (res', mrm₂)
      → (res' ≡ success) ⊎ (res' ≡ error)
      → keep_rest right left r remove_r mrm ≡ some (res', mrm₂)
  unfolding keep_rest is_error
  keep_rest-success right left mrm mrm₁ mrm₂ res res' e f e' (inl s) =
      rw (keep_rest, e, f, e', s) refl
  keep_rest-success right left mrm mrm₁ mrm₂ res res' e f e' (inr s) =
      rw (keep_rest, e, f, e', s) refl

  -- What the two calls leave.
  pub record Kept (ok : Bool) (mrm : RegionManager) (res : Result) (mrm' : RegionManager)
      : Type 0 where
    pub managed : Managed mrm'
    pub nothing_new :
        (p : ℕ) → held mrm'.regions p ≡ true → (held mrm.regions p || rest_of p) ≡ true
    pub complete :
        ok ≡ true
        → (res ≡ success) × ((p : ℕ) → held mrm'.regions p ≡ (held mrm.regions p || rest_of p))

  Kept-error :
      (ok : Bool) (mrm mrm₁ : RegionManager) (res : Result)
      → Added ok (remove_r.base + remove_r.size) (r.base + r.size) mrm res mrm₁
      → res ≡ error
      → mrm₁ ≡ mrm
      → (ok' : Bool) → Kept (ok && ok') mrm error mrm₁
  Kept-error ok mrm mrm₁ res a f same ok' = record {
    managed = a.managed;
    nothing_new = λ p h. rw⁻¹ same (ground arith);
    complete = λ h. absurd (let s = a.succeeded (ground arith) in error≢success (sym f ∙ s));
  }

  -- The address is in the part behind, in the part before, or in neither.
  rest-parts :
      (p : ℕ)
      → rest_of p ≡ (
          (leb (remove_r.base + remove_r.size) p && ltb p (r.base + r.size))
          || (leb r.base p && ltb p remove_r.base))
  unfolding does_include_region does_include
  rest-parts p = ground arith

  Kept-success :
      (ok ok' : Bool) (mrm mrm₁ mrm₂ : RegionManager) (res res' : Result)
      → Added ok (remove_r.base + remove_r.size) (r.base + r.size) mrm res mrm₁
      → ((p : ℕ)
          → held mrm₁.regions p ≡ (
              held mrm.regions p
              || (leb (remove_r.base + remove_r.size) p && ltb p (r.base + r.size))))
      → Added ok' r.base remove_r.base mrm₁ res' mrm₂
      → Kept (ok && ok') mrm res' mrm₂
  Kept-success ok ok' mrm mrm₁ mrm₂ res res' a first b = record {
    managed = b.managed;
    nothing_new = λ p h. elim b.holds [
      | inl (s, second) ↦
          let x = first p in let y = second p in let z = rest-parts p in ground arith
      | inr (f, same) ↦
          let x = first p in
          let y = ap (λ (m : RegionManager). held m.regions p) same in
          let z = rest-parts p in ground arith
    ];
    complete = λ h. (
      b.succeeded (ground arith),
      λ p. elim b.holds [
        | inl (s, second) ↦
            second p
            ∙ ap (λ t. t || (leb r.base p && ltb p remove_r.base)) (first p)
            ∙ (let z = rest-parts p in ground arith)
        | inr (f, same) ↦ absurd (error≢success (sym f ∙ b.succeeded (ground arith)))
      ],
    );
  }

  success-or-error :
      {ok : Bool} {lo hi : ℕ} {mrm mrm' : RegionManager} {res : Result}
      → Added ok lo hi mrm res mrm'
      → (res ≡ success) ⊎ (res ≡ error)
  success-or-error a = elim a.holds [ inl (s, h) ↦ inl s | inr (f, same) ↦ inr f ]

  keep_rest-left :
      (right left : Outcome) (mrm mrm₁ : RegionManager) (res : Result)
      → replace_right right r remove_r mrm ≡ some (res, mrm₁)
      → ((p : ℕ) → does_include r p ≡ true → held mrm.regions p ≡ false)
      → Added (succeeds right) (remove_r.base + remove_r.size) (r.base + r.size) mrm res mrm₁
      → res ≡ success
      → ((p : ℕ)
          → held mrm₁.regions p ≡ (
              held mrm.regions p
              || (leb (remove_r.base + remove_r.size) p && ltb p (r.base + r.size))))
      → (res' : Result) × (mrm' : RegionManager) × (keep_rest right left r remove_r mrm
          ≡ some (res', mrm'))
        × Kept (succeeds right && succeeds left) mrm res' mrm'
  unfolding does_include_region does_include
  keep_rest-left right left mrm mrm₁ res e free a f first =
      let (res', mrm₂, e', b) =
        replace_part-Added left r.base remove_r.base mrm₁ a.managed (ground arith) (ground arith)
          (λ p i j. first p ∙ (let old = free p in ground arith)) in
      (
        res',
        mrm₂,
        keep_rest-success right left mrm mrm₁ mrm₂ res res' e f (replace_left-part left mrm₁ ∙ e')
            (success-or-error b),
        Kept-success (succeeds right) (succeeds left) mrm mrm₁ mrm₂ res res' a first b,
      )

  pub keep_rest-Kept :
      (right left : Outcome) (mrm : RegionManager)
      → Managed mrm
      → ((p : ℕ) → does_include r p ≡ true → held mrm.regions p ≡ false)
      → (res : Result) × (mrm' : RegionManager) × (keep_rest right left r remove_r mrm
          ≡ some (res, mrm'))
        × Kept (succeeds right && succeeds left) mrm res mrm'
  unfolding does_include_region does_include
  keep_rest-Kept right left mrm m free =
      let (res, mrm₁, e, a) =
        replace_part-Added right (remove_r.base + remove_r.size) (r.base + r.size) mrm m
          (ground arith) proper.1 (λ p i j. free p (ground arith)) in
      let e₁ = replace_right-part right mrm ∙ e in
      elim a.holds [
        | inl (s, first) ↦ keep_rest-left right left mrm mrm₁ res e₁ free a s first
        | inr (f, same) ↦ (
          error,
          mrm₁,
          keep_rest-error right left mrm mrm₁ res e₁ f,
          Kept-error (succeeds right) mrm mrm₁ res a f same (succeeds left),
        )
      ]
