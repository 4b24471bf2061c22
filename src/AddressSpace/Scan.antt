-- ===== src/AddressSpace/Scan.antt =====
-- The scan of the address space: it ends, and finds every region once, in order.
use persimmon.Base.{
  ℕ, zero, suc, ◌+◌, ◌-◌, ◌≤◌, ◌<◌, ◌≡◌, ◌≢◌, refl, sym, ap, ltb→lt, ◌∙◌, Bool, true, false, ◌||◌,
  ltb, Option, none, some, List, [], ◌∷◌, add_word, word, inside, arith, Bool-cases, Option-cases,
  inl, inr, if◌then◌else◌,
}
use mathlib.Core.Option.{some-injective}
use persimmon.AddressSpace.{MemInfo, pointer_max, scan}

-- What the documentation of `dr_query_memory_ex` says: below `top`, each address lies in a region
-- that is reported for all its addresses.
pub record IsQuery (query : ℕ → Option MemInfo) (top : ℕ) : Type 0 where
  pub bounded : top ≤ pointer_max
  pub total : (p : ℕ) → p < top → query p ≢ none
  pub around :
      (p : ℕ) (info : MemInfo)
      → query p ≡ some info
      → (inside info.base_pc info.size p ≡ true) × (info.base_pc + info.size ≤ top)
  pub same :
      (p q : ℕ) (info : MemInfo)
      → query p ≡ some info
      → inside info.base_pc info.size q ≡ true
      → query q ≡ some info

-- The address lies in one of the regions.
abbrev pub covered : List MemInfo → ℕ → Bool
covered [] p = false
covered (info ∷ infos) p = inside info.base_pc info.size p || covered infos p

-- Regions with addresses, that follow one another from `lo` on.
abbrev pub Ascending : ℕ → List MemInfo → Type 0
Ascending lo [] = Unit
Ascending lo (info ∷ infos) =
    (lo ≤ info.base_pc)
    × (0 < info.size)
    × (info.base_pc + info.size < word)
    × Ascending (info.base_pc + info.size) infos

Ascending-weaken :
    (lo lo' : ℕ) (infos : List MemInfo) → lo ≤ lo' → Ascending lo' infos → Ascending lo infos
Ascending-weaken lo lo' [] l a = tt
Ascending-weaken lo lo' (info ∷ infos) l (b, n, e, rest) = (omega arith, n, e, rest)

-- The address lies in a region that is to be replaced.
abbrev pub wanted : (ℕ → Option MemInfo) → (MemInfo → Option Bool) → ℕ → Bool
wanted query pick p = elim (query p) [
  | none ↦ false
  | some info ↦ elim (pick info) [ none ↦ false | some replaced ↦ replaced ]
]

module _ (query : ℕ → Option MemInfo) (top : ℕ) (is : IsQuery query top)
    (pick : MemInfo → Option Bool)
    (picks : (p : ℕ) (info : MemInfo) → query p ≡ some info → pick info ≢ none) where
  -- No region that is reported at `pc` starts before it.
  abbrev pub Boundary : ℕ → Type 0
  Boundary pc = (info : MemInfo) → query pc ≡ some info → info.base_pc ≡ pc

  next-Boundary :
      (pc : ℕ) (info : MemInfo) → query pc ≡ some info → Boundary (info.base_pc + info.size)
  next-Boundary pc info e info' e' =
      let mine = is.around pc info e in
      let theirs = is.around (info.base_pc + info.size) info' e' in
      elim (Bool-cases (ltb info'.base_pc (info.base_pc + info.size))) [
        | inl before ↦
            let last = info.base_pc + info.size - 1 in
            let q = is.same pc last info e (ground arith) in
            let q' = is.same _ last info' e' (ground arith) in
            let one : info ≡ info' = some-injective _ _ (sym q ∙ q') in
            let end = ap (λ (i : MemInfo). i.base_pc + i.size) one in absurd (ground arith)
        | inr not_before ↦ ground arith
      ]

  above_top : (p : ℕ) → top ≤ p → query p ≡ none
  above_top p l = elim (Option-cases (query p)) [
    | inl nothing ↦ nothing
    | inr (info, e) ↦ let here = is.around p info e in absurd (ground arith)
  ]

  pub record Scanned (pc : ℕ) (found : List MemInfo) : Type 0 where
    pub below : (p : ℕ) → p < pc → covered found p ≡ false
    pub from : (p : ℕ) → pc ≤ p → covered found p ≡ wanted query pick p
    pub ascending : Ascending pc found

  at_end : (pc : ℕ) → top ≤ pc → Scanned pc []
  at_end pc l = record {
    below = λ p h. refl;
    from = λ p h. rw (wanted, above_top p (omega arith)) refl;
    ascending = tt;
  }

  -- The region at `pc` is put in front, or left out.
  one_more :
      (pc : ℕ) (info : MemInfo) (replaced : Bool) (found : List MemInfo)
      → query pc ≡ some info
      → info.base_pc ≡ pc
      → pick info ≡ some replaced
      → Scanned (info.base_pc + info.size) found
      → Scanned pc (if replaced then info ∷ found else found)
  one_more pc info true found e at r s =
      let here = is.around pc info e in
      record {
        below = λ p l. let rest = s.below p (ground arith) in ground arith;
        from = λ p l. elim (Bool-cases (inside info.base_pc info.size p)) [
          | inl i ↦ rw (wanted, i, is.same pc p info e i, r) refl
          | inr o ↦ let rest = s.from p (ground arith) in rw o rest
        ];
        ascending =
            (omega arith, ground arith, let bounded = is.bounded in ground arith, s.ascending);
      }
  one_more pc info false found e at r s = record {
    below = λ p l. s.below p (omega arith);
    from = λ p l. elim (Bool-cases (inside info.base_pc info.size p)) [
      | inl i ↦ rw (wanted, is.same pc p info e i, r) (s.below p (ground arith))
      | inr o ↦ s.from p (ground arith)
    ];
    ascending = Ascending-weaken pc (info.base_pc + info.size) found (omega arith) s.ascending;
  }

  pub scan-Scanned :
      (fuel pc : ℕ)
      → top < pc + fuel
      → pc ≤ top
      → Boundary pc
      → (found : List MemInfo) × (scan fuel query pick pc ≡ some found) × Scanned pc found
  unfolding scan
  scan-Scanned zero pc enough l b = absurd (omega arith)
  scan-Scanned (suc fuel) pc enough l b = elim (Bool-cases (ltb pc pointer_max)) [
    | inr last ↦ let bounded = is.bounded in ([], rw last refl, at_end pc (ground arith))
    | inl more ↦ elim (Option-cases (query pc)) [
      | inl nothing ↦ (
        [],
        rw (more, nothing) refl,
        at_end pc (elim (Bool-cases (ltb pc top)) [
          | inl below ↦ absurd (is.total pc (ltb→lt pc top below) nothing)
          | inr above ↦ ground arith
        ]),
      )
      | inr (info, e) ↦
          let here = is.around pc info e in
          let at = b info e in
          elim (Option-cases (pick info)) [
            | inl refused ↦ absurd (picks pc info e refused)
            | inr (replaced, r) ↦
                let bounded = is.bounded in
                let next : add_word info.base_pc info.size ≡ info.base_pc + info.size =
                  omega arith in
                let (found, f, s) =
                  scan-Scanned fuel (info.base_pc + info.size) (ground arith) (ground arith)
                    (next-Boundary pc info e) in
                (_, rw (more, e, r, next, f) refl, one_more pc info replaced found e at r s)
          ]
    ]
  ]
