-- ===== src/AddressSpace/Held.antt =====
-- What is held after `init_address_space`.
use persimmon.Base.{
  ℕ, suc, ◌+◌, ◌≤◌, ◌≡◌, ◌≢◌, refl, sym, Option-cases, not, ◌∙◌, Bool, true, false, ◌&&◌, ◌||◌,
  Option, none, some, List, [], ◌∷◌, map, word, arith, inl, inr, ltb, leb,
}
use mathlib.Core.Option.{none-ne-some}
use persimmon.RegionManager.{RegionManager, Directory, Result, success, error, Outcome}
use persimmon.RegionManager.Managed.{held, Managed}
use persimmon.RegionManager.Replace.{succeeds, replace_region-Managed}
use persimmon.RegionManager.Table.{committed-table, no_regions, no_regions-Managed}
use persimmon.AddressSpace.{MemInfo, should_replace, prot_of, replace_all, init_address_space}
use persimmon.AddressSpace.Scan.{IsQuery, covered, Ascending, wanted, scan-Scanned}

-- The state behind the second loop: the regions of `infos` are held besides those before.
record Replaced (infos : List MemInfo) (mrm mrm' : RegionManager) : Type 0 where
  pub managed : Managed mrm'
  pub holds : (p : ℕ) → held mrm'.regions p ≡ (held mrm.regions p || covered infos p)

distinct : {res : Result} → res ≡ success → ¬ (res ≡ error)
distinct good bad = cc

replace_all-Replaced :
    (outcomes : ℕ → Outcome) (i lo : ℕ) (infos : List MemInfo) (mrm : RegionManager)
    → ((j : ℕ) → succeeds (outcomes j) ≡ true)
    → Ascending lo infos
    → Managed mrm
    → ((p : ℕ) → lo ≤ p → held mrm.regions p ≡ false)
    → (mrm' : RegionManager) × (replace_all outcomes i infos mrm ≡ some (map prot_of infos, mrm'))
      × Replaced infos mrm mrm'
unfolding replace_all
replace_all-Replaced outcomes i lo [] mrm ok a m free =
    (mrm, refl, record { managed = m; holds = λ p. ground arith })
replace_all-Replaced outcomes i lo (info ∷ infos) mrm ok (l, n, b, a) m free =
    let (res, mrm1, e, added) =
      replace_region-Managed (outcomes i) info.base_pc info.size mrm m n b
        (λ p h h'. free p (omega arith)) in
    let good : res ≡ success = added.succeeded (ok i) in
    let holds : (p : ℕ)
        → held mrm1.regions p
          ≡ (held mrm.regions p || (leb info.base_pc p && ltb p (info.base_pc + info.size))) =
      elim added.holds [ inl (s, h) ↦ h | inr (failed, same) ↦ absurd (distinct good failed) ] in
    let (mrm2, e2, r) =
      replace_all-Replaced outcomes (suc i) (info.base_pc + info.size) infos mrm1 ok a added.managed
        (λ p h. let old = free p (omega arith) in holds p ∙ ground arith) in
    (
      mrm2,
      rw (e, good, e2) refl,
      record {
        managed = r.managed;
        holds = λ p. let here = holds p in let later = r.holds p in ground arith;
      },
    )

module _ (is_dr_internal is_in_client : ℕ → Bool) where
  -- Writable memory that belongs to the application alone, and is not a stack.
  abbrev pub is_private : MemInfo → Bool
  is_private info =
      not (is_dr_internal info.base_pc)
      && not (is_in_client info.base_pc)
      && not info.free
      && info.write
      && not info.vdso
      && not info.stack
      && not info.shared

  abbrev pub private_at : (ℕ → Option MemInfo) → ℕ → Bool
  private_at query p = elim (query p) [ none ↦ false | some info ↦ is_private info ]

  -- What the assertions of `should_replace` ask of such memory.
  abbrev pub IsReadable : MemInfo → Type 0
  IsReadable info = is_private info ≡ true → (info.pretend_write ≡ false) × (info.read ≡ true)

  should_replace-is_private :
      (info : MemInfo)
      → IsReadable info
      → should_replace is_dr_internal is_in_client info ≡ some (is_private info)
  unfolding should_replace
  should_replace-is_private info h = ground arith

  wanted-private_at :
      (query : ℕ → Option MemInfo)
      → ((p : ℕ) (info : MemInfo) → query p ≡ some info → IsReadable info)
      → (p : ℕ) → wanted query (should_replace is_dr_internal is_in_client) p ≡ private_at query p
  wanted-private_at query h p = elim (Option-cases (query p)) [
    | inl nothing ↦ rw (wanted, private_at, nothing) refl
    | inr (info, e) ↦ rw (wanted, private_at, e, should_replace-is_private info (h p info e)) refl
  ]

  -- If the system calls succeed and no assertion of `should_replace` fails, which is so if private
  -- writable memory is readable, then `init_address_space` ends without an assertion. The manager then holds
  -- the addresses of private writable memory and no other, each of its regions is mapped with the rights it
  -- had, and the region table in persistent memory lists the regions of the manager.
  pub init_address_space-holds :
      (query : ℕ → Option MemInfo) (top : ℕ) (outcomes : ℕ → Outcome) (directory : Directory)
      → IsQuery query top
      → ((p : ℕ) (info : MemInfo) → query p ≡ some info → IsReadable info)
      → ((j : ℕ) → succeeds (outcomes j) ≡ true)
      → directory.new_table ≡ none
      → (infos : List MemInfo) × (mrm : RegionManager) × (directory' : Directory)
        × (init_address_space query
              (should_replace is_dr_internal is_in_client)
              outcomes
              true
              true
              no_regions
              directory
            ≡ some (map prot_of infos, (mrm, directory')))
        × Managed mrm
        × ((p : ℕ) → held mrm.regions p ≡ private_at query p)
        × ((p : ℕ) → covered infos p ≡ private_at query p)
        × (directory'.new_table ≡ none)
        × (directory'.current_table ≡ some mrm.regions)
  unfolding init_address_space
  init_address_space-holds query top outcomes directory is readable ok no_new =
      let bounded = is.bounded in
      let picks : (p : ℕ) (info : MemInfo)
          → query p ≡ some info
          → should_replace is_dr_internal is_in_client info ≢ none =
        λ p info q fails.
          none-ne-some _ (sym fails ∙ should_replace-is_private info (readable p info q)) in
      let (infos, e, s) =
        scan-Scanned query top is _ picks word 0 (omega arith) (omega arith)
          (λ info q. let here = is.around 0 info q in ground arith) in
      let (mrm, e', r) =
        replace_all-Replaced outcomes 0 0 infos no_regions ok s.ascending no_regions-Managed
          (λ p l. refl) in
      let (no_new', current) = committed-table mrm directory no_new in
      let found : (p : ℕ) → covered infos p ≡ private_at query p =
        λ p. s.from p (omega arith) ∙ wanted-private_at query readable p in
      (infos, mrm, _, rw (e, e') refl, r.managed, λ p. r.holds p ∙ found p, found, no_new', current)
