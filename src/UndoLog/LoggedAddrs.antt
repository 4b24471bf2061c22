-- ===== src/UndoLog/LoggedAddrs.antt =====
-- The hash table of logged addresses: it never takes an address for logged that is not, and an
-- address that it holds is found again.
use persimmon.Base.{
  ℕ, zero, suc, ◌+◌, ◌*◌, ◌/◌, ◌%◌, ◌≡◌, ◌≢◌, refl, subst, ◌∙◌, sym, false, ◌==◌, arith, Bool-cases,
  inl, inr, ◌⊎◌, add_word, List, [], ◌∷◌,
}
use persimmon.UndoLog.{hash_size, insert_from, insert_logged_addr, block_size}

-- Every address in the table has the property P.
abbrev pub AllIn {ℓ} : (ℕ → Type ℓ) → (ℕ → ℕ) → Type ℓ
AllIn P table = (slot : ℕ) → table slot ≢ 0 → P (table slot)

insert_from-value :
    (count : ℕ) (table : ℕ → ℕ) (addr i perturb slot : ℕ)
    → ((insert_from count table addr i perturb).1 slot ≡ table slot)
      ⊎ ((insert_from count table addr i perturb).1 slot ≡ addr)
unfolding insert_from
insert_from-value zero table addr i perturb slot = inl refl
insert_from-value (suc count) table addr i perturb slot =
    ground (
      arith,
      insert_from-value count table addr (add_word (5 * i) (perturb + 1)) (perturb / 32) slot,
    )

pub insert_logged_addr-AllIn {ℓ} :
    (P : ℕ → Type ℓ) (table : ℕ → ℕ) (addr : ℕ)
    → AllIn P table
    → P addr
    → AllIn P (insert_logged_addr table addr).1
unfolding insert_logged_addr
insert_logged_addr-AllIn P table addr a p slot h =
    elim (insert_from-value (hash_size + 13) table addr (addr / block_size) (addr / block_size)
      slot) [
        | inl old ↦ subst P (sym old) (a slot (λ e. h (old ∙ e)))
        | inr new ↦ subst P (sym new) p
      ]

-- `false` is returned for an address in the table only.
insert_from-present :
    (count : ℕ) (table : ℕ → ℕ) (addr i perturb : ℕ)
    → (insert_from count table addr i perturb).0 ≡ false
    → (slot : ℕ) × (table slot ≡ addr) × (table slot ≢ 0)
unfolding insert_from
insert_from-present zero table addr i perturb e = cc
insert_from-present (suc count) table addr i perturb e =
    elim (Bool-cases (table (i % hash_size) == 0)) [
      | inl null ↦ absurd (ground arith)
      | inr taken ↦ elim (Bool-cases (table (i % hash_size) == addr)) [
        | inl here ↦ (i % hash_size, ground arith, ground arith)
        | inr other ↦
            insert_from-present count table addr (add_word (5 * i) (perturb + 1)) (perturb / 32)
              (ground arith)
      ]
    ]

-- Slots that are taken stay as they are.
insert_from-grows :
    (count : ℕ) (table : ℕ → ℕ) (addr i perturb slot : ℕ)
    → table slot ≢ 0
    → (insert_from count table addr i perturb).1 slot ≡ table slot
unfolding insert_from
insert_from-grows zero table addr i perturb slot h = refl
insert_from-grows (suc count) table addr i perturb slot h = ground (
  arith,
  insert_from-grows count table addr (add_word (5 * i) (perturb + 1)) (perturb / 32) slot h,
)

-- So what is found in a table is found in one that has grown.
insert_from-found :
    (count : ℕ) (table table' : ℕ → ℕ) (addr i perturb : ℕ)
    → ((slot : ℕ) → table slot ≢ 0 → table' slot ≡ table slot)
    → (insert_from count table addr i perturb).0 ≡ false
    → (insert_from count table' addr i perturb).0 ≡ false
unfolding insert_from
insert_from-found zero table table' addr i perturb g e = e
insert_from-found (suc count) table table' addr i perturb g e = ground (
  arith,
  g (i % hash_size),
  insert_from-found count table table' addr (add_word (5 * i) (perturb + 1)) (perturb / 32) g,
)

-- An insertion changes nothing (the table has no room on the way), or the address is found from
-- then on.
insert_from-inserted :
    (count : ℕ) (table : ℕ → ℕ) (addr i perturb : ℕ)
    → addr ≢ 0
    → let t = (insert_from count table addr i perturb).1 in
      (t ≡ table) ⊎ ((insert_from count t addr i perturb).0 ≡ false)
unfolding insert_from
insert_from-inserted zero table addr i perturb h = inl refl
insert_from-inserted (suc count) table addr i perturb h =
    elim (Bool-cases (table (i % hash_size) == 0)) [
      | inl null ↦ inr (ground arith)
      | inr taken ↦ elim (Bool-cases (table (i % hash_size) == addr)) [
        | inl here ↦ inl (ground arith)
        | inr other ↦
            let i' = add_word (5 * i) (perturb + 1) in
            let kept =
              insert_from-grows count table addr i' (perturb / 32) (i % hash_size) (ground arith) in
            elim (insert_from-inserted count table addr i' (perturb / 32) h) [
              | inl same ↦ inl (rw (taken, other) same)
              | inr found ↦ inr (rw (taken, other) (rw (kept, taken, other) found))
            ]
      ]
    ]

-- The insertions of a list of addresses.
abbrev pub insert_all : List ℕ → (ℕ → ℕ) → ℕ → ℕ
insert_all [] table = table
insert_all (a ∷ as') table = insert_all as' (insert_logged_addr table a).1

-- `undo_log_insert_logged_addr` says "logged before" of an address in the table only.
pub insert_logged_addr-present :
    (table : ℕ → ℕ) (addr : ℕ)
    → (insert_logged_addr table addr).0 ≡ false
    → (slot : ℕ) × (table slot ≡ addr) × (table slot ≢ 0)
unfolding insert_logged_addr
insert_logged_addr-present table addr = insert_from-present (hash_size + 13) table addr _ _

found_once :
    (addr a : ℕ) (table : ℕ → ℕ)
    → (insert_logged_addr table addr).0 ≡ false
    → (insert_logged_addr (insert_logged_addr table a).1 addr).0 ≡ false
unfolding insert_logged_addr
found_once addr a table e =
    insert_from-found (hash_size + 13) table _ addr _ _
      (λ slot h. insert_from-grows (hash_size + 13) table a _ _ slot h) e

inserted :
    (table : ℕ → ℕ) (addr : ℕ)
    → addr ≢ 0
    → let t = (insert_logged_addr table addr).1 in
      (t ≡ table) ⊎ ((insert_logged_addr t addr).0 ≡ false)
unfolding insert_logged_addr
inserted table addr h = insert_from-inserted (hash_size + 13) table addr _ _ h

found_again :
    (addr : ℕ) (as' : List ℕ) (table : ℕ → ℕ)
    → (insert_logged_addr table addr).0 ≡ false
    → (insert_logged_addr (insert_all as' table) addr).0 ≡ false
found_again addr [] table e = e
found_again addr (a ∷ as') table e =
    found_again addr as' (insert_logged_addr table a).1 (found_once addr a table e)

-- Once an insertion has changed the table, whatever is inserted after it, the same address is found
-- to be logged.
pub insert_logged_addr-again :
    (table : ℕ → ℕ) (addr : ℕ) (as' : List ℕ)
    → addr ≢ 0
    → let t = (insert_logged_addr table addr).1 in
      (t ≡ table) ⊎ ((insert_logged_addr (insert_all as' t) addr).0 ≡ false)
insert_logged_addr-again table addr as' h = elim (inserted table addr h) [
  | inl same ↦ inl same
  | inr found ↦ inr (found_again addr as' _ found)
]
